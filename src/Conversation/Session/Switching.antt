-- ===== src/Conversation/Session/Switching.antt =====
-- Switching to a case, and the sessions that the operations reach.
use back_office_fintech.Common.{
  String, true, false, Option, none, some, List, ◌≡◌, refl, ◌∙◌, subst, arith, str_eq, str_eq_iff,
  is_empty, Bool-cases, inl, inr,
}
use back_office_fintech.Conversation.{CaseState, ConversationState}
use back_office_fintech.Conversation.Session.{
  Updated, archive_case, archive_other, archived_result, is_the_active, switch_to_case,
  switched_result, unarchived, with_status,
}
use back_office_fintech.Conversation.Session.Updates.{
  Distinct, Marked, Marked-same, Result, has_id, update_first-Result, update_first-none,
  with_choice,
}
use back_office_fintech.Conversation.Session.Activity.{IsConsistent, IsKnown, activates, archives}

-- The session in which the case is activated and the other one archived.
abbrev made_active : String → ConversationState → ConversationState
made_active id s = record s { active_case_id = some id }

-- Only the case switched to is chosen.
chosen_only :
    (id a j : String)
    → str_eq a id ≡ false
    → with_choice a false (with_choice id true (str_eq a)) j ≡ str_eq id j
chosen_only id a j h =
    ground
      (arith, str_eq_iff j a, str_eq_iff j id, str_eq_iff a j, str_eq_iff id j, str_eq_iff a id, h)

module _ (id : String) (named : is_empty id ≡ false) (s : ConversationState)
    (i : IsConsistent s) where
  -- After the activation of the case.
  abbrev IsActivated : List CaseState → Type 0
  IsActivated after =
      Marked (with_choice id true (is_the_active s.active_case_id)) after
      × Distinct after
      × ((j : String) → has_id j after ≡ has_id j s.cases)

  archived_other :
      (a : String) (after : List CaseState) (o : Option Updated)
      → str_eq a id ≡ false
      → has_id id after ≡ true
      → Result (with_choice id true (str_eq a)) a false after o
      → IsConsistent (made_active id (archived_result (record s { cases = after }) a o))
  archived_other a after none h k r = absurd (ground (arith, r.found))
  archived_other a after (some (cs, c)) h k r =
      let same : r.after ≡ cs = ground (arith, r.found) in
      subst
        (λ l.
          IsConsistent
            (made_active id (archived_result (record s { cases = after }) a (some (l, c)))))
        same
        (record {
          distinct = r.distinct;
          marked = Marked-same _ _ r.after (λ j. chosen_only id a j h) r.marked;
          known = (r.ids id ∙ k, named);
        })

  other_archived :
      (o : Option String) (after : List CaseState)
      → s.active_case_id ≡ o
      → has_id id after ≡ true
      → IsActivated after
      → IsConsistent (made_active id (archive_other o id (record s { cases = after })))
  unfolding archive_case
  other_archived none after e k (m, d, ids) = record {
    distinct = d;
    marked = Marked-same _ _ after (λ j. rw e (ground (arith, str_eq_iff j id, str_eq_iff id j))) m;
    known = (k, named);
  }
  other_archived (some a) after e k (m, d, ids) =
      let (h, full) = subst (λ o. IsKnown o s.cases) e i.known in
      let m2 : Marked (with_choice id true (str_eq a)) after =
        subst (λ o. Marked (with_choice id true (is_the_active o)) after) e m in
      rw full (elim (Bool-cases (str_eq a id)) [
        | inl q ↦ rw q (record {
          distinct = d;
          marked =
              Marked-same _ _ after
                (λ j.
                  ground
                    (arith, str_eq_iff j id, str_eq_iff a j, str_eq_iff id j, str_eq_iff a id, q))
                m2;
          known = (k, named);
        })
        | inr q ↦ rw q (
            archived_other a after _ q k (
              update_first-Result (with_status "archived") false archives _ a after d m2
                (ids a ∙ h)))
      ])

  switched :
      (o : Option Updated)
      → has_id id s.cases ≡ true
      → Result (is_the_active s.active_case_id) id true s.cases o
      → IsConsistent (switched_result s id o).0
  switched none h r = i
  switched (some (cs, c)) h r =
      let same : r.after ≡ cs = ground (arith, r.found) in
      subst (λ l. IsConsistent (switched_result s id (some (l, c))).0) same
        (other_archived s.active_case_id r.after refl (r.ids id ∙ h) (r.marked, r.distinct, r.ids))

  pub switch_to_case-IsConsistent : IsConsistent (switch_to_case id s).0
  unfolding switch_to_case
  switch_to_case-IsConsistent = elim (Bool-cases (has_id id s.cases)) [
    | inl h ↦
        switched _ h
          (update_first-Result unarchived true activates _ id s.cases i.distinct i.marked h)
    | inr h ↦ rw (update_first-none unarchived id s.cases h) i
  ]
