-- ===== src/Conversation/Session/Returning.antt =====
-- A case that was replaced comes back unchanged.
use back_office_fintech.Common.{
  String, true, Option, none, some, List, [], ◌∷◌, ◌++◌, ◌≡◌, refl, sym, ◌∙◌, ap, subst, arith,
  str_eq, str_eq_iff, Bool-cases, inl, inr,
}
use back_office_fintech.Conversation.{CaseState, ConversationState, new_case}
use back_office_fintech.Conversation.Session.{
  Updated, active_case, active_from, archive_and_create, archive_case, archive_if_any,
  archived_result, create_case, find_active, is_active, is_the_active, switch_to_case,
  switched_result, unarchived, update_first, with_status,
}
use back_office_fintech.Conversation.Session.Updates.{Marked}
use back_office_fintech.Conversation.Session.Activity.{IsKnown}
use back_office_fintech.Conversation.Session.Reached.{Reached, reached-IsConsistent}

-- The case is archived in the list, and activating it gives the old case.
abbrev ComesBack : String → CaseState → Option Updated → Type 0
ComesBack a c o =
    (after : List CaseState) × (e : CaseState) × (o ≡ some (after, e))
    × ((more : List CaseState)
        → (all : List CaseState) × (update_first unarchived a (after ++ more) ≡ some (all, c)))

-- Archiving an active case and activating it again gives the same case.
same_case : (c : CaseState) → is_active c ≡ true → unarchived (with_status "archived" c) ≡ c
unfolding str_eq
same_case c h =
    let e : c.status ≡ "active" = (str_eq_iff c.status "active").0 h in
    ap (λ t. with_status t c) (sym e)

found-ComesBack :
    (a : String) (cs : List CaseState) (c : CaseState)
    → Marked (str_eq a) cs
    → find_active a cs ≡ some c
    → ComesBack a c (update_first (with_status "archived") a cs)
unfolding find_active update_first
found-ComesBack a [] c m h = absurd (ground arith)
found-ComesBack a (d ∷ ds) c (b, l, m) h = elim (Bool-cases (str_eq d.case_id a)) [
  | inl q ↦
      let on : is_active d ≡ true =
        ground (arith, b, str_eq_iff a d.case_id, str_eq_iff d.case_id a, q) in
      let same : d ≡ c = ground (arith, h, q, on) in
      rw q (
        with_status "archived" d ∷ ds,
        with_status "archived" d,
        refl,
        λ more. (
          unarchived (with_status "archived" d) ∷ ds ++ more,
          rw q (
              ap (λ x. some (unarchived (with_status "archived" d) ∷ ds ++ more, x))
                (same_case d on ∙ same)),
        ),
      )
  | inr q ↦
      let (after, e, p, back) = found-ComesBack a ds c m (ground (arith, h, q)) in
      rw (q, p) (d ∷ after, e, refl, λ more. let (all, r) = back more in (d ∷ all, rw (q, r) refl))
]

switched_back :
    (a : String) (c : CaseState) (s : ConversationState) (o : Option Updated)
    → ((all : List CaseState) × (o ≡ some (all, c)))
    → (switched_result s a o).1 ≡ some c
switched_back a c s o (all, q) = rw q refl

replaced :
    (a id workflow : String) (c : CaseState) (s : ConversationState) (o : Option Updated)
    → ComesBack a c o
    → (switch_to_case a (create_case id workflow (archived_result s a o))).1 ≡ some c
unfolding create_case switch_to_case
replaced a id workflow c s none (after, e, q, back) = absurd (ground arith)
replaced a id workflow c s (some (cs, x)) (after, e, q, back) =
    let same : after ≡ cs = ground arith in
    switched_back a c _ _ (
      subst
        (λ l.
          (all : List CaseState) × (update_first unarchived a (l ++ new_case id workflow ∷ [])
            ≡ some (all, c)))
        same (back (new_case id workflow ∷ [])))

returns :
    (id workflow a : String) (c : CaseState) (s : ConversationState) (o : Option String)
    → o ≡ some a
    → Marked (is_the_active o) s.cases
    → IsKnown o s.cases
    → active_from o s.cases ≡ some c
    → (switch_to_case a (create_case id workflow (archive_if_any o s))).1 ≡ some c
unfolding archive_case
returns id workflow a c s none q m k h = absurd (ground arith)
returns id workflow a c s (some b) q m (k, named) h =
    let same : b ≡ a = ground arith in
    let found : find_active b s.cases ≡ some c = ground (arith, h, named) in
    rw named (
      subst
        (λ d.
          (switch_to_case d (
            create_case id workflow
              (archived_result s b (update_first (with_status "archived") b s.cases)))).1
          ≡ some c)
        same (replaced b id workflow c s _ (found-ComesBack b s.cases c m found)))

-- In a session that creating, restoring, replacing, archiving and switching cases reach, let a case be
-- active and be replaced by a new one. Switching to its identifier again returns the same case, with
-- all its claims, evidence and counters.
pub archive_and_create-switch_to_case :
    (s : ConversationState) (a id workflow : String) (c : CaseState)
    → Reached s
    → s.active_case_id ≡ some a
    → active_case s ≡ some c
    → (switch_to_case a (archive_and_create id workflow s)).1 ≡ some c
unfolding active_case archive_and_create
archive_and_create-switch_to_case s a id workflow c r q h =
    let i = reached-IsConsistent s r in
    returns id workflow a c s s.active_case_id q i.marked i.known h
