-- ===== src/Registry/Matching.antt =====
-- The search of a registry by the type of a service, in every registry that registrations bring about.
use back_office_fintech.Common.{
  String, true, false, Option, none, some, List, [], ◌∷◌, ◌≡◌, refl, sym, ap, subst, ◌∙◌, arith,
  str_eq, str_eq_iff, is_one_of, Bool-cases, inl, inr,
}
use back_office_fintech.Common.Text.{lower}
use back_office_fintech.Common.Dict.{insert, lookup, lookup-insert}
use back_office_fintech.Registry.{
  WorkflowRegistry, WorkflowSpec, get, match_lower, match_workflow_for_service_type, register,
}

-- Registrations, one after the other; a later one replaces an earlier one of the same identifier.
unfoldable pub register_all : List WorkflowSpec → WorkflowRegistry → WorkflowRegistry
register_all [] r = r
register_all (s ∷ ss) r = register_all ss (register s r)

-- Every specification stands under its own identifier, and once.
abbrev IsKeyed : WorkflowRegistry → Type 0
IsKeyed [] = Unit
IsKeyed ((id, s) ∷ r) = (s.workflow_id ≡ id) × (lookup id r ≡ none) × IsKeyed r

insert-IsKeyed :
    (k : String) (s : WorkflowSpec) (r : WorkflowRegistry)
    → s.workflow_id ≡ k
    → IsKeyed r
    → IsKeyed (insert k s r)
unfolding insert lookup
insert-IsKeyed k s [] h i = (h, refl, tt)
insert-IsKeyed k s ((id, t) ∷ r) h (own, once, i) = elim (Bool-cases (str_eq id k)) [
  | inl q ↦ rw q (h ∙ sym ((str_eq_iff id k).0 q), once, i)
  | inr q ↦
      let absent : lookup id (insert k s r) ≡ none =
        ground (arith, lookup-insert k id s r, q, once, str_eq_iff k id, str_eq_iff id k) in
      rw q (own, absent, insert-IsKeyed k s r h i)
]

register_all-IsKeyed :
    (ss : List WorkflowSpec) (r : WorkflowRegistry) → IsKeyed r → IsKeyed (register_all ss r)
unfolding register_all register
register_all-IsKeyed [] r i = i
register_all-IsKeyed (s ∷ ss) r i =
    register_all-IsKeyed ss (register s r) (insert-IsKeyed s.workflow_id s r refl i)

-- What a search for a service type finds: a registered workflow under whose identifier `get` has a
-- specification that handles the type, or nothing where no registered specification handles it.
abbrev pub Finds : WorkflowRegistry → String → Option String → Type 0
Finds r svc none =
    (id : String) (s : WorkflowSpec) → get r id ≡ some s → is_one_of svc s.service_types ≡ false
Finds r svc (some w) =
    (s : WorkflowSpec) × (get r w ≡ some s)
    × (s.workflow_id ≡ w)
    × (is_one_of svc s.service_types ≡ true)

later-Finds :
    (id svc : String) (s : WorkflowSpec) (r : WorkflowRegistry) (o : Option String)
    → is_one_of svc s.service_types ≡ false
    → lookup id r ≡ none
    → Finds r svc o
    → Finds ((id, s) ∷ r) svc o
unfolding get lookup
later-Finds id svc s r none h once f = λ j t q. elim (Bool-cases (str_eq id j)) [
  | inl e ↦
      let same : s ≡ t = ground (arith, q, e) in
      subst (λ x. is_one_of svc x.service_types ≡ false) same h
  | inr e ↦ f j t (ground (arith, q, e))
]
later-Finds id svc s r (some w) h once (t, q, own, handles) = elim (Bool-cases (str_eq id w)) [
  | inl e ↦
      let same : id ≡ w = (str_eq_iff id w).0 e in
      absurd (ground (arith, q, once, ap (λ x. lookup x r) same))
  | inr e ↦ (t, rw e q, own, handles)
]

match_lower-Finds :
    (r : WorkflowRegistry) (svc : String) → IsKeyed r → Finds r svc (match_lower r svc)
unfolding get lookup match_lower
match_lower-Finds [] svc i = λ id s q. absurd (ground (arith, q))
match_lower-Finds ((id, s) ∷ r) svc (own, once, i) =
    elim (Bool-cases (is_one_of svc s.service_types)) [
      | inl handles ↦
          let here : str_eq id s.workflow_id ≡ true = (str_eq_iff id s.workflow_id).1 (sym own) in
          rw handles (s, rw here refl, refl, handles)
      | inr other ↦ rw other (later-Finds id svc s r _ other once (match_lower-Finds r svc i))
    ]

-- In every registry that comes about from an empty one by registrations, whatever their order and
-- whether they replace each other, `match_workflow_for_service_type` names a workflow whose registered
-- specification, as `get` returns it for this name, handles the type in lower case, and names none
-- only where no registered specification handles it.
pub match_workflow_for_service_type-Finds :
    (ss : List WorkflowSpec) (svc : String)
    → Finds
        (register_all ss [])
        (lower svc)
        (match_workflow_for_service_type (register_all ss []) svc)
unfolding match_workflow_for_service_type
match_workflow_for_service_type-Finds ss svc =
    match_lower-Finds (register_all ss []) (lower svc) (register_all-IsKeyed ss [] tt)
