-- ===== src/Conversation/Session/Updates.antt =====
-- What changing the first case of an identifier does to a list of cases with distinct identifiers.
use back_office_fintech.Common.{
  String, Bool, true, false, ◌||◌, Option, none, some, List, [], ◌∷◌, ◌≡◌, refl, sym, ◌∙◌, arith,
  str_eq, str_eq_iff, if◌then◌else◌, Bool-cases, inl, inr,
}
use back_office_fintech.Conversation.{CaseState}
use back_office_fintech.Conversation.Session.{
  Updated, cons_updated, is_active, is_archived, update_first,
}

abbrev pub has_id : String → List CaseState → Bool
has_id id [] = false
has_id id (c ∷ cs) = str_eq c.case_id id || has_id id cs

abbrev pub Distinct : List CaseState → Type 0
Distinct [] = Unit
Distinct (c ∷ cs) = (has_id c.case_id cs ≡ false) × Distinct cs

-- Active or archived.
abbrev pub IsLive : CaseState → Type 0
IsLive c = (is_active c || is_archived c) ≡ true

-- Exactly the cases of the chosen identifiers are active, and the others are archived.
abbrev pub Marked : (String → Bool) → List CaseState → Type 0
Marked chosen [] = Unit
Marked chosen (c ∷ cs) = (is_active c ≡ chosen c.case_id) × IsLive c × Marked chosen cs

-- The choice changed at one identifier.
abbrev pub with_choice : String → Bool → (String → Bool) → String → Bool
with_choice id b chosen j = if str_eq j id then b else chosen j

pub Marked-same :
    (p q : String → Bool) (cs : List CaseState)
    → ((j : String) → p j ≡ q j)
    → Marked p cs
    → Marked q cs
Marked-same p q [] h m = tt
Marked-same p q (c ∷ cs) h (a, l, m) = (a ∙ h c.case_id, l, Marked-same p q cs h m)

-- An identifier that no case has can be chosen or not.
pub Marked-without :
    (id : String) (b : Bool) (p : String → Bool) (cs : List CaseState)
    → has_id id cs ≡ false
    → Marked p cs
    → Marked (with_choice id b p) cs
Marked-without id b p [] h m = tt
Marked-without id b p (c ∷ cs) h (a, l, m) =
    (ground (arith, a), l, Marked-without id b p cs (ground arith) m)

-- A change of a case that keeps its identifier and makes it active or archived.
pub record Sets (f : CaseState → CaseState) (b : Bool) : Type 0 where
  pub same_id : (c : CaseState) → (f c).case_id ≡ c.case_id
  pub activity : (c : CaseState) → IsLive c → is_active (f c) ≡ b
  pub live : (c : CaseState) → IsLive c → IsLive (f c)

pub record Result (p : String → Bool) (id : String) (b : Bool) (cs : List CaseState)
    (o : Option Updated) : Type 0 where
  pub after : List CaseState
  pub changed : CaseState
  pub found : o ≡ some (after, changed)
  pub marked : Marked (with_choice id b p) after
  pub distinct : Distinct after
  pub ids : (j : String) → has_id j after ≡ has_id j cs
  pub its_id : changed.case_id ≡ id
  pub its_activity : is_active changed ≡ b

module _ (f : CaseState → CaseState) (b : Bool) (sets : Sets f b) (p : String → Bool)
    (id : String) where
  pub here :
      (c : CaseState) (cs : List CaseState)
      → str_eq c.case_id id ≡ true
      → Distinct (c ∷ cs)
      → Marked p (c ∷ cs)
      → Result p id b (c ∷ cs) (some (f c ∷ cs, f c))
  here c cs h (fresh, d) (a, l, m) =
      let e : c.case_id ≡ id = (str_eq_iff c.case_id id).0 h in
      let same = sets.same_id c in
      let absent : has_id id cs ≡ false = rw (sym e) fresh in
      record {
        after = f c ∷ cs;
        changed = f c;
        found = refl;
        marked = (
          ground (arith, same, sets.activity c l, h),
          sets.live c l,
          Marked-without id b p cs absent m,
        );
        distinct = (ground (arith, same, fresh), d);
        ids = λ j. rw same refl;
        its_id = same ∙ e;
        its_activity = sets.activity c l;
      }

  pub there :
      (c : CaseState) (cs : List CaseState) (o : Option Updated)
      → str_eq c.case_id id ≡ false
      → Distinct (c ∷ cs)
      → Marked p (c ∷ cs)
      → Result p id b cs o
      → Result p id b (c ∷ cs) (cons_updated c o)
  there c cs o h (fresh, d) (a, l, m) r = record {
    after = c ∷ r.after;
    changed = r.changed;
    found = rw r.found refl;
    marked = (ground (arith, a, h), l, r.marked);
    distinct = (r.ids c.case_id ∙ fresh, r.distinct);
    ids = λ j. rw (r.ids j) refl;
    its_id = r.its_id;
    its_activity = r.its_activity;
  }

  pub update_first-Result :
      (cs : List CaseState)
      → Distinct cs
      → Marked p cs
      → has_id id cs ≡ true
      → Result p id b cs (update_first f id cs)
  unfolding update_first
  update_first-Result [] d m h = absurd (ground arith)
  update_first-Result (c ∷ cs) d m h = elim (Bool-cases (str_eq c.case_id id)) [
    | inl q ↦ rw q (here c cs q d m)
    | inr q ↦ rw q (there c cs _ q d m (update_first-Result cs (d.1) (m.2) (ground (arith, q, h))))
  ]

pub update_first-none :
    (f : CaseState → CaseState) (id : String) (cs : List CaseState)
    → has_id id cs ≡ false
    → update_first f id cs ≡ none
unfolding update_first
update_first-none f id [] h = refl
update_first-none f id (c ∷ cs) h = ground (arith, update_first-none f id cs)
