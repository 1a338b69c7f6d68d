-- ===== src/Conversation/Session/Activity.antt =====
-- Every operation keeps a session consistent: its active case is the only case that is active.
use back_office_fintech.Common.{
  String, Bool, true, false, ◌||◌, Option, none, some, List, [], ◌∷◌, ◌++◌, ◌≡◌, refl, sym, ◌∙◌, ap,
  subst, arith, str_eq, str_eq_iff, str_eq_refl, is_empty, if◌then◌else◌, Bool-cases, inl, inr,
}
use back_office_fintech.Conversation.{CaseState, ConversationState, new_case}
use back_office_fintech.Conversation.Session.{
  Updated, archive_and_create, archive_case, archive_if_any, archived_result, create_case,
  is_active, is_the_active, unarchived, with_status,
}
use back_office_fintech.Conversation.Session.Updates.{
  Distinct, IsLive, Marked, Marked-same, Marked-without, Result, Sets, has_id, update_first-Result,
  update_first-none, with_choice,
}

-- The active identifier is that of a case, and not empty.
abbrev pub IsKnown : Option String → List CaseState → Type 0
IsKnown none cs = Unit
IsKnown (some a) cs = (has_id a cs ≡ true) × (is_empty a ≡ false)

-- No two cases have the same identifier, each is active or archived, and the active ones are those of
-- the active identifier.
pub record IsConsistent (s : ConversationState) : Type 0 where
  pub distinct : Distinct s.cases
  pub marked : Marked (is_the_active s.active_case_id) s.cases
  pub known : IsKnown s.active_case_id s.cases

pub archives : Sets (with_status "archived") false
unfolding str_eq
archives = record { same_id = λ c. refl; activity = λ c l. refl; live = λ c l. refl }

pub activates : Sets unarchived true
activates = record {
  same_id = λ c. ground arith;
  activity = λ c l. ground (arith, str_eq_refl "active", l);
  live = λ c l. ground (arith, str_eq_refl "active", l);
}

module _ (id : String) where
  -- The choice that archiving leaves.
  unchosen :
      (o : Option String) (j : String)
      → with_choice id false (is_the_active o) j
        ≡ is_the_active (if is_the_active o id then none else o) j
  unchosen none j = ground arith
  unchosen (some a) j = ground (arith, str_eq_iff j id, str_eq_iff a j, str_eq_iff a id)

  still-IsKnown :
      (o : Option String) (cs after : List CaseState)
      → ((j : String) → has_id j after ≡ has_id j cs)
      → IsKnown o cs
      → IsKnown (if is_the_active o id then none else o) after
  still-IsKnown none cs after ids k = tt
  still-IsKnown (some a) cs after ids (h, e) = ground (arith, ids a, h, e)

  archived_result-IsConsistent :
      (s : ConversationState) (o : Option Updated)
      → IsConsistent s
      → Result (is_the_active s.active_case_id) id false s.cases o
      → IsConsistent (archived_result s id o)
  archived_result-IsConsistent s none i r = i
  archived_result-IsConsistent s (some (cs, c)) i r =
      let same : r.after ≡ cs = ground (arith, r.found) in
      subst (λ l. IsConsistent (archived_result s id (some (l, c)))) same
        (record {
          distinct = r.distinct;
          marked = Marked-same _ _ r.after (unchosen s.active_case_id) r.marked;
          known = still-IsKnown s.active_case_id s.cases r.after r.ids i.known;
        })

  pub archive_case-IsConsistent :
      (s : ConversationState) → IsConsistent s → IsConsistent (archive_case id s)
  unfolding archive_case
  archive_case-IsConsistent s i = elim (Bool-cases (has_id id s.cases)) [
    | inl h ↦ archived_result-IsConsistent s _ i (
        update_first-Result (with_status "archived") false archives _ id s.cases i.distinct i.marked
          h)
    | inr h ↦ rw (update_first-none (with_status "archived") id s.cases h) i
  ]

has_id-append :
    (j : String) (cs : List CaseState) (c : CaseState)
    → has_id j (cs ++ c ∷ []) ≡ (has_id j cs || str_eq c.case_id j)
has_id-append j [] c = ground arith
has_id-append j (d ∷ ds) c = ground (arith, has_id-append j ds c)

Distinct-append :
    (cs : List CaseState) (c : CaseState)
    → has_id c.case_id cs ≡ false
    → Distinct cs
    → Distinct (cs ++ c ∷ [])
Distinct-append [] c h d = (refl, tt)
Distinct-append (e ∷ es) c h (f, d) = (
  ground (
    arith,
    has_id-append e.case_id es c,
    f,
    h,
    str_eq_iff e.case_id c.case_id,
    str_eq_iff c.case_id e.case_id,
  ),
  Distinct-append es c (ground arith) d,
)

Marked-append :
    (p : String → Bool) (cs : List CaseState) (c : CaseState)
    → is_active c ≡ p c.case_id
    → IsLive c
    → Marked p cs
    → Marked p (cs ++ c ∷ [])
Marked-append p [] c a l m = (a, l, tt)
Marked-append p (d ∷ ds) c a l (b, k, m) = (b, k, Marked-append p ds c a l m)

-- The choice of one identifier, where none is chosen.
pub chosen_alone : (id j : String) → with_choice id true (is_the_active none) j ≡ str_eq id j
chosen_alone id j = ground (arith, str_eq_iff j id, str_eq_iff id j)

-- A new case, where no case is active.
pub created :
    (id workflow : String) (s : ConversationState)
    → has_id id s.cases ≡ false
    → is_empty id ≡ false
    → s.active_case_id ≡ none
    → IsConsistent s
    → IsConsistent (create_case id workflow s)
unfolding create_case str_eq
created id workflow s fresh named idle i =
    let c = new_case id workflow in
    let unmarked : Marked (is_the_active none) s.cases =
      subst (λ o. Marked (is_the_active o) s.cases) idle i.marked in
    let alone : Marked (str_eq id) s.cases =
      Marked-same _ _ s.cases (chosen_alone id)
        (Marked-without id true (is_the_active none) s.cases fresh unmarked) in
    record {
      distinct = Distinct-append s.cases c fresh i.distinct;
      marked = Marked-append (str_eq id) s.cases c (sym (str_eq_refl id)) refl alone;
      known = (ground (arith, has_id-append id s.cases c, str_eq_refl id), named);
    }

-- What is left when the active case is archived.
record IsIdle (s t : ConversationState) : Type 0 where
  consistent : IsConsistent t
  idle : t.active_case_id ≡ none
  same_ids : (j : String) → has_id j t.cases ≡ has_id j s.cases

archived_result-IsIdle :
    (a : String) (s : ConversationState) (o : Option Updated)
    → s.active_case_id ≡ some a
    → IsConsistent s
    → Result (is_the_active s.active_case_id) a false s.cases o
    → IsIdle s (archived_result s a o)
archived_result-IsIdle a s none e i r = absurd (ground (arith, r.found))
archived_result-IsIdle a s (some (cs, c)) e i r = record {
  consistent = archived_result-IsConsistent a s (some (cs, c)) i r;
  idle = rw (e, str_eq_refl a) refl;
  same_ids =
      λ j. let same : r.after ≡ cs = ground (arith, r.found) in ap (has_id j) (sym same) ∙ r.ids j;
}

archive_if_any-IsIdle :
    (s : ConversationState) (o : Option String)
    → s.active_case_id ≡ o
    → IsConsistent s
    → IsIdle s (archive_if_any o s)
unfolding archive_case
archive_if_any-IsIdle s none e i = record { consistent = i; idle = e; same_ids = λ j. refl }
archive_if_any-IsIdle s (some a) e i =
    let (h, named) = subst (λ o. IsKnown o s.cases) e i.known in
    rw named (
      archived_result-IsIdle a s _ e i (
        update_first-Result (with_status "archived") false archives _ a s.cases i.distinct i.marked
          h))

pub archive_and_create-IsConsistent :
    (id workflow : String) (s : ConversationState)
    → has_id id s.cases ≡ false
    → is_empty id ≡ false
    → IsConsistent s
    → IsConsistent (archive_and_create id workflow s)
unfolding archive_and_create
archive_and_create-IsConsistent id workflow s fresh named i =
    let t = archive_if_any-IsIdle s s.active_case_id refl i in
    created id workflow (archive_if_any s.active_case_id s) (t.same_ids id ∙ fresh) named t.idle
      t.consistent
