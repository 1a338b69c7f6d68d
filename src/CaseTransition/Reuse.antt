-- ===== src/CaseTransition/Reuse.antt =====
-- When the diagnosis of the active case may be used again.
use back_office_fintech.Common.{
  String, true, false, ◌≡◌, ◌↔◌, ◌⊎◌, refl, inl, inr, arith, str_eq, str_eq_iff, is_one_of,
}
use back_office_fintech.Common.Text.{text_or_empty}
use back_office_fintech.CaseTransition.{
  ActiveCase, RouterResult, ack_types, decide_case_transition, has_active_case, is_other_workflow,
  non_case_types, norm_workflow,
}

abbrev type_of : RouterResult → String
type_of latest = text_or_empty latest.message_type

-- A message on the active case that raises nothing new.
pub record IsFollowUp (latest : RouterResult) (active : ActiveCase) : Type 0 where
  pub about_case : is_one_of (type_of latest) non_case_types ≡ false
  pub has_case : has_active_case active ≡ true
  pub old_complaint : str_eq (type_of latest) "new_complaint" ≡ false
  pub no_switch : str_eq (type_of latest) "workflow_switch" ≡ false
  pub same :
      is_other_workflow (norm_workflow latest.workflow_hint) (norm_workflow active.workflow) ≡ false

reuse_needs :
    (latest : RouterResult) (active : ActiveCase)
    → (decide_case_transition latest active).reuse_old_diagnosis ≡ true
    → (is_one_of (type_of latest) ack_types ≡ true) ⊎ IsFollowUp latest active
unfolding decide_case_transition
reuse_needs latest active h = ground arith

ack_is :
    (t : String) → is_one_of t ack_types ≡ true → (t ≡ "acknowledgement") ⊎ (t ≡ "correction_ack")
ack_is t h = ground (arith, str_eq_iff t "acknowledgement", str_eq_iff t "correction_ack")

acks_are_cases : (t : String) → is_one_of t ack_types ≡ true → is_one_of t non_case_types ≡ false
unfolding str_eq
acks_are_cases t h = elim (ack_is t h) [ inl p ↦ rw p refl | inr p ↦ rw p refl ]

reuse_follows :
    (latest : RouterResult) (active : ActiveCase)
    → (is_one_of (type_of latest) ack_types ≡ true) ⊎ IsFollowUp latest active
    → (decide_case_transition latest active).reuse_old_diagnosis ≡ true
unfolding decide_case_transition
reuse_follows latest active (inl h) = ground (arith, acks_are_cases (type_of latest) h)
reuse_follows latest active (inr h) = ground arith

-- The old diagnosis may be used again exactly for an acknowledgement, and for a follow-up: a message
-- about the case, while there is an active case, that is no new complaint and no switch of the
-- workflow, and whose workflow, where both are known, is the one of the active case.
pub decide_case_transition-reuse_iff :
    (latest : RouterResult) (active : ActiveCase)
    → ((decide_case_transition latest active).reuse_old_diagnosis ≡ true)
      ↔ ((is_one_of (type_of latest) ack_types ≡ true) ⊎ IsFollowUp latest active)
decide_case_transition-reuse_iff latest active =
    (reuse_needs latest active, reuse_follows latest active)
