-- ===== src/Conversation/Session/Reached.antt =====
-- The sessions that come about by creating, restoring, archiving, replacing and switching cases.
use back_office_fintech.Common.{
  ℕ, suc, ◌≤◌, String, true, false, Option, none, some, List, [], ◌∷◌, ◌≡◌, refl, sym, arith,
  str_eq, str_eq_iff, is_empty, if◌then◌else◌, Bool-cases, inl, inr,
}
use back_office_fintech.Conversation.{CaseState, ConversationState, new_conversation}
use back_office_fintech.Conversation.Session.{
  active_case, active_from, archive_and_create, archive_case, create_case, find_active, is_active,
  is_the_active, restore_case, switch_to_case,
}
use back_office_fintech.Conversation.Session.Updates.{Distinct, Marked, has_id}
use back_office_fintech.Conversation.Session.Activity.{
  IsConsistent, IsKnown, archive_and_create-IsConsistent, archive_case-IsConsistent, created,
}
use back_office_fintech.Conversation.Session.Restoring.{restore_case-IsConsistent}
use back_office_fintech.Conversation.Session.Switching.{switch_to_case-IsConsistent}

-- A new identifier: no case has it, and it is not empty.
abbrev pub IsNew : String → ConversationState → Type 0
IsNew id s = (has_id id s.cases ≡ false) × (is_empty id ≡ false)

-- A case is created or restored only where none is active: beside an active case `create_case` and
-- `restore_case` would leave two. The generated identifiers of the cases are not empty.
pub data Step (s : ConversationState) : ConversationState → Type 0 where
  create :
      (id workflow : String)
      → IsNew id s
      → s.active_case_id ≡ none
      → Step s (create_case id workflow s)
  replace : (id workflow : String) → IsNew id s → Step s (archive_and_create id workflow s)
  archive : (id : String) → Step s (archive_case id s)
  restore :
      (workflow : String)
      → s.active_case_id ≡ none
      → has_id "" s.cases ≡ false
      → Step s (restore_case workflow s).0
  switch : (id : String) → is_empty id ≡ false → Step s (switch_to_case id s).0

pub data Reached : ConversationState → Type 0 where
  start : (session : String) → Reached (new_conversation session)
  next : (s t : ConversationState) → Reached s → Step s t → Reached t

step-IsConsistent : (s t : ConversationState) → Step s t → IsConsistent s → IsConsistent t
step-IsConsistent s _ (Step.create id workflow (fresh, named) idle) i =
    created id workflow s fresh named idle i
step-IsConsistent s _ (Step.replace id workflow (fresh, named)) i =
    archive_and_create-IsConsistent id workflow s fresh named i
step-IsConsistent s _ (Step.archive id) i = archive_case-IsConsistent id s i
step-IsConsistent s _ (Step.restore workflow idle named) i =
    restore_case-IsConsistent workflow s idle named i
step-IsConsistent s _ (Step.switch id named) i = switch_to_case-IsConsistent id named s i

pub reached-IsConsistent : (s : ConversationState) → Reached s → IsConsistent s
reached-IsConsistent _ (Reached.start session) = record { distinct = tt; marked = tt; known = tt }
reached-IsConsistent t (Reached.next s _ r x) = step-IsConsistent s t x (reached-IsConsistent s r)

abbrev pub count_active : List CaseState → ℕ
count_active [] = 0
count_active (c ∷ cs) = if is_active c then suc (count_active cs) else count_active cs

-- Nothing is active where the chosen identifier is not among the cases.
none_active :
    (o : Option String) (cs : List CaseState)
    → ((a : String) → o ≡ some a → has_id a cs ≡ false)
    → Marked (is_the_active o) cs
    → count_active cs ≡ 0
none_active none [] h m = refl
none_active none (c ∷ cs) h (a, l, m) = rw a (none_active none cs (λ b q. absurd (ground arith)) m)
none_active (some b) [] h m = refl
none_active (some b) (c ∷ cs) h (a, l, m) =
    let absent : has_id b (c ∷ cs) ≡ false = h b refl in
    let inactive : is_active c ≡ false =
      ground (arith, a, absent, str_eq_iff b c.case_id, str_eq_iff c.case_id b) in
    rw inactive (none_active (some b) cs (λ d q. ground (arith, absent)) m)

at_most_one :
    (o : Option String) (cs : List CaseState)
    → Distinct cs
    → Marked (is_the_active o) cs
    → count_active cs ≤ 1
at_most_one o [] d m = ground arith
at_most_one none (c ∷ cs) (f, d) (a, l, m) = rw a (at_most_one none cs d m)
at_most_one (some b) (c ∷ cs) (f, d) (a, l, m) = elim (Bool-cases (str_eq b c.case_id)) [
  | inl q ↦
      let same : c.case_id ≡ b = sym ((str_eq_iff b c.case_id).0 q) in
      let rest : count_active cs ≡ 0 = none_active (some b) cs (λ e h. ground (arith, f, same)) m in
      ground (arith, a, q, rest)
  | inr q ↦ ground (arith, a, q, at_most_one (some b) cs d m)
]

found_active :
    (a : String) (cs : List CaseState)
    → Marked (str_eq a) cs
    → has_id a cs ≡ true
    → (c : CaseState) × (find_active a cs ≡ some c) × (c.case_id ≡ a) × (is_active c ≡ true)
unfolding find_active
found_active a [] m h = absurd (ground arith)
found_active a (c ∷ cs) (b, l, m) h = elim (Bool-cases (str_eq c.case_id a)) [
  | inl q ↦
      let same : c.case_id ≡ a = (str_eq_iff c.case_id a).0 q in
      let on : is_active c ≡ true = ground (arith, b, str_eq_iff a c.case_id, same) in
      (c, rw (q, on) refl, same, on)
  | inr q ↦
      let (d, found, same, on) = found_active a cs m (ground (arith, q, h)) in
      (d, rw q found, same, on)
]

-- What `active_case` returns for an identifier: nothing where there is none, else the active case of
-- that identifier.
abbrev pub IsActiveCase : Option String → Option CaseState → Type 0
IsActiveCase none o = o ≡ none
IsActiveCase (some a) o = (c : CaseState) × (o ≡ some c) × (c.case_id ≡ a) × (is_active c ≡ true)

active_from-IsActiveCase :
    (o : Option String) (cs : List CaseState)
    → Marked (is_the_active o) cs
    → IsKnown o cs
    → IsActiveCase o (active_from o cs)
active_from-IsActiveCase none cs m k = refl
active_from-IsActiveCase (some a) cs m (h, named) = rw named (found_active a cs m h)

-- In every session that is reached from an empty one by creating and restoring cases where none is
-- active, and by replacing, archiving and switching cases, with new identifiers for new cases and no
-- empty identifier, at most one case is active, and `active_case` returns it: the case of the active identifier, or nothing where there is
-- no active identifier.
pub reached-one_active :
    (s : ConversationState)
    → Reached s
    → (count_active s.cases ≤ 1) × IsActiveCase s.active_case_id (active_case s)
unfolding active_case
reached-one_active s r =
    let i = reached-IsConsistent s r in
    (
      at_most_one s.active_case_id s.cases i.distinct i.marked,
      active_from-IsActiveCase s.active_case_id s.cases i.marked i.known,
    )
