-- ===== src/Conversation/Case/History.antt =====
-- The history of the claims of a case, through any calls of its operations.
use back_office_fintech.Common.{
  String, Bool, true, false, Option, none, some, List, [], ◌∷◌, ◌++◌, ◌≡◌, refl, ap, subst, sym,
  ◌∙◌, arith, filter_by, Option-cases, inl, inr,
}
use back_office_fintech.Common.Dict.{Dict}
use back_office_fintech.Common.Value.{Value}
use back_office_fintech.Conversation.{CaseState, ClaimRecord, ResolverResult, new_case}
use back_office_fintech.Conversation.Case.{
  increment_messages, mark_last, marked, merge_given, new_record, record_claim, record_diagnosis,
  record_no_match, record_recheck, record_resolver_result, supersede_claims,
}

-- A call of an operation of a case; a new record takes its identifier as an argument.
pub data CaseCall : Type 0 where
  claim : String → Dict Value → CaseCall
  correct : String → Dict Value → CaseCall
  resolve : ResolverResult → CaseCall
  diagnose : Dict Value → String → CaseCall
  miss : String → CaseCall
  recheck : CaseCall
  message : CaseCall

unfoldable pub perform : CaseCall → CaseState → Option CaseState
perform (CaseCall.claim id fields) c = some (record_claim id fields c)
perform (CaseCall.correct id fields) c = some (supersede_claims id fields c)
perform (CaseCall.resolve r) c = record_resolver_result r c
perform (CaseCall.diagnose d status) c = some (record_diagnosis d status c)
perform (CaseCall.miss hash) c = some (record_no_match hash c)
perform CaseCall.recheck c = some (record_recheck c)
perform CaseCall.message c = some (increment_messages c)

unfoldable pub perform_all : List CaseCall → CaseState → Option CaseState
perform_all [] c = some c
perform_all (x ∷ xs) c = elim (perform x c) [ none ↦ none | some d ↦ perform_all xs d ]

-- The last record is current, and each superseded one names the record that follows it.
abbrev pub IsLinked : List ClaimRecord → Type 0
IsLinked [] = Unit
IsLinked (r ∷ []) = r.superseded ≡ false
IsLinked (r ∷ t ∷ rs) = (r.superseded ≡ true → r.superseded_by ≡ t.claim_id) × IsLinked (t ∷ rs)

abbrev pub is_superseded : ClaimRecord → Bool
is_superseded r = r.superseded

-- The claims that the records make, merged in their order.
abbrev pub replay : Dict Value → List ClaimRecord → Dict Value
replay claims [] = claims
replay claims (r ∷ rs) = replay (merge_given r.fields claims) rs

abbrev pub IsCoherent : CaseState → Type 0
IsCoherent c =
    IsLinked c.claim_history
    × (c.superseded_claims ≡ filter_by is_superseded c.claim_history)
    × (c.customer_claims ≡ replay [] c.claim_history)

module _ (id : String) (fields : Dict Value) where
  append-IsLinked : (h : List ClaimRecord) → IsLinked h → IsLinked (h ++ new_record id fields ∷ [])
  append-IsLinked [] l = refl
  append-IsLinked (r ∷ []) l = (λ s. ground arith, refl)
  append-IsLinked (r ∷ t ∷ rs) (l, ls) = (l, append-IsLinked (t ∷ rs) ls)

  mark_last-IsLinked :
      (h : List ClaimRecord) → IsLinked h → IsLinked (mark_last id h ++ new_record id fields ∷ [])
  unfolding mark_last
  mark_last-IsLinked [] l = refl
  mark_last-IsLinked (r ∷ []) l = (λ s. refl, refl)
  mark_last-IsLinked (r ∷ t ∷ []) (l, ls) = (l, mark_last-IsLinked (t ∷ []) ls)
  mark_last-IsLinked (r ∷ t ∷ u ∷ rs) (l, ls) = (l, mark_last-IsLinked (t ∷ u ∷ rs) ls)

  filter-append :
      (h : List ClaimRecord)
      → filter_by is_superseded (h ++ new_record id fields ∷ []) ≡ filter_by is_superseded h
  filter-append [] = refl
  filter-append (r ∷ rs) = ground (arith, filter-append rs)

  filter-mark_last :
      (h : List ClaimRecord)
      → IsLinked h
      → filter_by is_superseded (mark_last id h ++ new_record id fields ∷ [])
        ≡ filter_by is_superseded h ++ marked id h
  unfolding mark_last marked
  filter-mark_last [] l = refl
  filter-mark_last (r ∷ []) l = rw l refl
  filter-mark_last (r ∷ t ∷ rs) (l, ls) = ground (arith, filter-mark_last (t ∷ rs) ls)

  replay-append :
      (d : Dict Value) (h : List ClaimRecord)
      → replay d (h ++ new_record id fields ∷ []) ≡ merge_given fields (replay d h)
  replay-append d [] = refl
  replay-append d (r ∷ rs) = replay-append (merge_given r.fields d) rs

  replay-mark_last :
      (d : Dict Value) (h : List ClaimRecord) → replay d (mark_last id h) ≡ replay d h
  unfolding mark_last
  replay-mark_last d [] = refl
  replay-mark_last d (r ∷ []) = refl
  replay-mark_last d (r ∷ t ∷ rs) = replay-mark_last (merge_given r.fields d) (t ∷ rs)

  record_claim-IsCoherent : (c : CaseState) → IsCoherent c → IsCoherent (record_claim id fields c)
  unfolding record_claim
  record_claim-IsCoherent c (linked, listed, current) = (
    append-IsLinked c.claim_history linked,
    listed ∙ sym (filter-append c.claim_history),
    ap (merge_given fields) current ∙ sym (replay-append [] c.claim_history),
  )

  supersede_claims-IsCoherent :
      (c : CaseState) → IsCoherent c → IsCoherent (supersede_claims id fields c)
  unfolding supersede_claims
  supersede_claims-IsCoherent c (linked, listed, current) = (
    mark_last-IsLinked c.claim_history linked,
    ap (λ l. l ++ marked id c.claim_history) listed ∙ sym (filter-mark_last c.claim_history linked),
    ap (merge_given fields) (current ∙ sym (replay-mark_last [] c.claim_history))
        ∙ sym (replay-append [] (mark_last id c.claim_history)),
  )

record_resolver_result-IsCoherent :
    (r : ResolverResult) (c d : CaseState)
    → record_resolver_result r c ≡ some d
    → IsCoherent c
    → IsCoherent d
unfolding record_resolver_result
record_resolver_result-IsCoherent (ResolverResult.with_evidence e) c d h i = ground arith
record_resolver_result-IsCoherent (ResolverResult.dictionary e) c d h i = ground arith
record_resolver_result-IsCoherent (ResolverResult.other v) c d h i = ground arith

some_of : (c d : CaseState) → some c ≡ some d → IsCoherent c → IsCoherent d
some_of c d h i = let same : c ≡ d = ground arith in subst IsCoherent same i

perform-IsCoherent :
    (x : CaseCall) (c d : CaseState) → perform x c ≡ some d → IsCoherent c → IsCoherent d
unfolding perform record_diagnosis record_no_match record_recheck increment_messages
perform-IsCoherent (CaseCall.claim id fields) c d h i =
    some_of (record_claim id fields c) d h (record_claim-IsCoherent id fields c i)
perform-IsCoherent (CaseCall.correct id fields) c d h i =
    some_of (supersede_claims id fields c) d h (supersede_claims-IsCoherent id fields c i)
perform-IsCoherent (CaseCall.resolve r) c d h i = record_resolver_result-IsCoherent r c d h i
perform-IsCoherent (CaseCall.diagnose e status) c d h i = some_of _ d h i
perform-IsCoherent (CaseCall.miss hash) c d h i = some_of _ d h i
perform-IsCoherent CaseCall.recheck c d h i = some_of _ d h i
perform-IsCoherent CaseCall.message c d h i = some_of _ d h i

perform_all-IsCoherent :
    (xs : List CaseCall) (c d : CaseState) → perform_all xs c ≡ some d → IsCoherent c → IsCoherent d
unfolding perform_all
perform_all-IsCoherent [] c d h i = some_of c d h i
perform_all-IsCoherent (x ∷ xs) c d h i = elim (Option-cases (perform x c)) [
  | inl raised ↦ absurd (ground arith)
  | inr (e, q) ↦ perform_all-IsCoherent xs e d (ground arith) (perform-IsCoherent x c e q i)
]

-- After any calls of its operations that raise no exception, a new case is coherent: the last record
-- of its history is current, each superseded record names the record that follows it, the
-- superseded records are those of the history in its order, and the current claims are the given
-- fields of all records, merged in their order.
pub perform_all-new-IsCoherent :
    (id workflow : String) (xs : List CaseCall) (c : CaseState)
    → perform_all xs (new_case id workflow) ≡ some c
    → IsCoherent c
perform_all-new-IsCoherent id workflow xs c h =
    perform_all-IsCoherent xs (new_case id workflow) c h (tt, refl, refl)
