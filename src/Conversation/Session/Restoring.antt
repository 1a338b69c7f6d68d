-- ===== src/Conversation/Session/Restoring.antt =====
-- Restoring an archived case where no case is active.
use back_office_fintech.Common.{
  String, true, false, Option, none, List, [], ◌∷◌, ◌≡◌, ◌⊎◌, refl, ap, ◌∙◌, subst, arith, str_eq,
  str_eq_iff, str_eq_refl, is_empty, Bool-cases, inl, inr, ◌&&◌,
}
use back_office_fintech.Conversation.{CaseState, ConversationState}
use back_office_fintech.Conversation.Session.{
  Updated, cons_updated, is_archived, is_the_active, restore_case, restore_last, with_status,
}
use back_office_fintech.Conversation.Session.Updates.{
  Distinct, Marked, Marked-same, Result, Sets, has_id, here, there,
}
use back_office_fintech.Conversation.Session.Activity.{IsConsistent, chosen_alone}

restores : Sets (with_status "active") true
unfolding str_eq
restores = record { same_id = λ c. refl; activity = λ c l. refl; live = λ c l. refl }

-- Nothing is restored, or a case of the list.
abbrev Restores : List CaseState → Option Updated → Type 0
Restores cs o =
    (o ≡ none) ⊎ ((id : String) × (has_id id cs ≡ true) × Result (is_the_active none) id true cs o)

restore_here :
    (workflow : String) (c : CaseState) (cs : List CaseState)
    → Distinct (c ∷ cs)
    → Marked (is_the_active none) (c ∷ cs)
    → restore_last workflow cs ≡ none
    → Restores (c ∷ cs) (restore_last workflow (c ∷ cs))
unfolding restore_last
restore_here workflow c cs d m q =
    elim (Bool-cases (str_eq c.workflow_id workflow && is_archived c)) [
      | inr other ↦ rw (q, other) (inl refl)
      | inl archived ↦
          let own : str_eq c.case_id c.case_id ≡ true = str_eq_refl c.case_id in
          rw (q, archived)
            (inr (
              c.case_id,
              ground (arith, own),
              here (with_status "active") true restores (is_the_active none) c.case_id c cs own d m,
            ))
    ]

restore_there :
    (workflow id : String) (c : CaseState) (cs : List CaseState)
    → Distinct (c ∷ cs)
    → Marked (is_the_active none) (c ∷ cs)
    → has_id id cs ≡ true
    → Result (is_the_active none) id true cs (restore_last workflow cs)
    → Restores (c ∷ cs) (restore_last workflow (c ∷ cs))
unfolding restore_last
restore_there workflow id c cs d m h r =
    let other : str_eq c.case_id id ≡ false =
      ground (arith, d, h, str_eq_iff c.case_id id, Bool-cases (str_eq c.case_id id)) in
    let first : cons_updated c (restore_last workflow cs) ≡ restore_last workflow (c ∷ cs) =
      rw r.found refl in
    inr (
      id,
      ground (arith, h),
      subst (Result (is_the_active none) id true (c ∷ cs)) first
          (there (with_status "active") true restores (is_the_active none) id c cs _ other d m r),
    )

restore_last-Restores :
    (workflow : String) (cs : List CaseState)
    → Distinct cs
    → Marked (is_the_active none) cs
    → Restores cs (restore_last workflow cs)
restore_last-Restores workflow [] d m = unfold restore_last in inl refl
restore_last-Restores workflow (c ∷ cs) (f, d) (a, l, m) =
    elim (restore_last-Restores workflow cs d m) [
      | inl q ↦ restore_here workflow c cs (f, d) (a, l, m) q
      | inr (id, h, r) ↦ restore_there workflow id c cs (f, d) (a, l, m) h r
    ]

-- Where no case is active, and no case has the empty identifier, restoring a case keeps the session
-- consistent.
pub restore_case-IsConsistent :
    (workflow : String) (s : ConversationState)
    → s.active_case_id ≡ none
    → has_id "" s.cases ≡ false
    → IsConsistent s
    → IsConsistent (restore_case workflow s).0
unfolding restore_case
restore_case-IsConsistent workflow s idle named i =
    let unmarked : Marked (is_the_active none) s.cases =
      subst (λ o. Marked (is_the_active o) s.cases) idle i.marked in
    elim (restore_last-Restores workflow s.cases i.distinct unmarked) [
      | inl q ↦ rw q i
      | inr (id, h, r) ↦
          let known : is_empty id ≡ false = elim (Bool-cases (is_empty id)) [
            | inr filled ↦ filled
            | inl empty ↦
                let same : id ≡ "" = (str_eq_iff id "").0 empty in
                absurd (ground (arith, h, named, ap (λ x. has_id x s.cases) same))
          ] in
          rw (r.found, r.its_id)
            (record {
              distinct = r.distinct;
              marked = Marked-same _ _ r.after (chosen_alone id) r.marked;
              known = (r.ids id ∙ h, known);
            })
    ]
