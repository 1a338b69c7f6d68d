-- ===== src/DraftTools/Calls.antt =====
-- Sequences of calls of the four tools that create drafts, on one store.
use back_office_fintech.Common.{
  ℕ, String, true, Option, some, List, [], ◌∷◌, ◌≡◌, ◌∙◌, sym, ap, subst, arith, str_eq_iff,
}
use back_office_fintech.Common.Int.{ℤ}
use back_office_fintech.Common.Dict.{contains}
use back_office_fintech.Schemas.Enums.{ActionType}
use back_office_fintech.Rules.Idempotency.{generate_idempotency_key}
use back_office_fintech.DraftTools.{
  Created, DraftStore, RefundRequestDraft, create_customer_response_draft,
  create_force_success_draft, create_reconciliation_ticket_draft, positive,
}
use back_office_fintech.DraftTools.Refunds.{
  Answers, IsStored, RefundCall, call_refund, call_refund-Answers, positive_pos, refund_key,
}

-- A call of one of the tools.
pub data ToolCall : Type 0 where
  refund : RefundCall → ToolCall
  reconciliation :
      (case_id transaction_id user_id mismatch_type : String)
      → List String
      → Option String
      → ToolCall
  response : (case_id transaction_id message : String) → ToolCall
  force_success : (case_id transaction_id user_id : String) → ℤ → String → List String → ToolCall

-- A call that raises leaves the store as it is.
abbrev store_of : {A : Type 0} → DraftStore → Created A → DraftStore
store_of before (Created.created after d) = after
store_of before (Created.raised e) = before

unfoldable pub after_call : (String → String) → ToolCall → DraftStore → DraftStore
after_call sha (ToolCall.refund c) store = store_of store (call_refund sha c store)
after_call sha (ToolCall.reconciliation c t u m e r) store =
    store_of store (create_reconciliation_ticket_draft sha c t u m e r store)
after_call sha (ToolCall.response c t m) store =
    store_of store (create_customer_response_draft c t m store)
after_call sha (ToolCall.force_success c t u a r e) store =
    store_of store (create_force_success_draft sha c t u a r e store)

unfoldable pub after_calls : (String → String) → List ToolCall → DraftStore → DraftStore
after_calls sha [] store = store
after_calls sha (x ∷ xs) store = after_calls sha xs (after_call sha x store)

-- A refund draft is stored under the key.
abbrev Keeps : String → DraftStore → Type 0
Keeps k store = contains k store.refund_drafts ≡ true

stored-Keeps :
    (k : String) (d : RefundRequestDraft) (store after : DraftStore)
    → IsStored d store after
    → Keeps k store
    → Keeps k after
unfolding contains
stored-Keeps k d store after s h = ground (arith, s.drafts k, h)

refund-Keeps :
    (sha : String → String) (k : String) (c : RefundCall) (store : DraftStore)
    (r : Created RefundRequestDraft)
    → Answers sha c store r
    → Keeps k store
    → Keeps k (store_of store r)
refund-Keeps sha k c store (Created.raised e) a h = h
refund-Keeps sha k c store (Created.created after d) (ok, is, s) h =
    stored-Keeps k d store after s h

after_call-Keeps :
    (sha : String → String) (k : String) (x : ToolCall) (store : DraftStore)
    → Keeps k store
    → Keeps k (after_call sha x store)
unfolding after_call create_reconciliation_ticket_draft create_customer_response_draft
    create_force_success_draft
after_call-Keeps sha k (ToolCall.refund c) store h =
    refund-Keeps sha k c store _ (call_refund-Answers sha c store) h
after_call-Keeps sha k (ToolCall.reconciliation c t u m e r) store h = ground (arith, h)
after_call-Keeps sha k (ToolCall.response c t m) store h = ground (arith, h)
after_call-Keeps sha k (ToolCall.force_success c t u a r e) store h = ground (arith, h)

after_calls-Keeps :
    (sha : String → String) (k : String) (xs : List ToolCall) (store : DraftStore)
    → Keeps k store
    → Keeps k (after_calls sha xs store)
unfolding after_calls
after_calls-Keeps sha k [] store h = h
after_calls-Keeps sha k (x ∷ xs) store h =
    after_calls-Keeps sha k xs (after_call sha x store) (after_call-Keeps sha k x store h)

created-Keeps :
    (sha : String → String) (c : RefundCall) (store after : DraftStore) (d : RefundRequestDraft)
    → Answers sha c store (Created.created after d)
    → Keeps (refund_key sha c d.amount) after
unfolding contains
created-Keeps sha c store after d (ok, is, s) = ground (
  arith,
  s.drafts (refund_key sha c d.amount),
  str_eq_iff d.idempotency_key (refund_key sha c d.amount),
  is.key,
)

abbrev pub IsRaised : Created RefundRequestDraft → Type 0
IsRaised (Created.raised e) = Unit
IsRaised (Created.created after d) = ⊥

kept_refuses :
    (sha : String → String) (c : RefundCall) (store : DraftStore) (r : Created RefundRequestDraft)
    → Answers sha c store r
    → ((n : ℕ) → positive c.amount ≡ some n → Keeps (refund_key sha c n) store)
    → IsRaised r
kept_refuses sha c store (Created.raised e) h k = tt
kept_refuses sha c store (Created.created after d) (ok, is, s) k =
    absurd (ground (arith, k d.amount ok.amount, ok.is_new))

same_key :
    (sha : String → String) (c again : RefundCall) (m n : ℕ)
    → positive c.amount ≡ some m
    → positive again.amount ≡ some n
    → again.transaction_id ≡ c.transaction_id
    → again.amount ≡ c.amount
    → refund_key sha c m ≡ refund_key sha again n
same_key sha c again m n p q t a =
    let e : m ≡ n = ground (arith, positive_pos c.amount m p, positive_pos again.amount n q, a) in
    ap (refund_key sha c) e
    ∙ ap (λ x. generate_idempotency_key sha x ActionType.create_refund_request_draft n) (sym t)

-- A transaction is not refunded twice: after a call has created a refund draft, and after any
-- sequence of calls of the four tools on the same store that follows, every call for the same transaction
-- and the same amount ends in an exception, whatever its case, user, reason, evidence and refund
-- status are.
pub call_refund-once :
    (sha : String → String) (c again : RefundCall) (store after : DraftStore)
    (d : RefundRequestDraft) (between : List ToolCall)
    → call_refund sha c store ≡ Created.created after d
    → again.transaction_id ≡ c.transaction_id
    → again.amount ≡ c.amount
    → IsRaised (call_refund sha again (after_calls sha between after))
call_refund-once sha c again store after d between h t a =
    let (ok, is, s) = subst (Answers sha c store) h (call_refund-Answers sha c store) in
    let kept =
      after_calls-Keeps sha (refund_key sha c d.amount) between after
        (created-Keeps sha c store after d (ok, is, s)) in
    kept_refuses sha again (after_calls sha between after) _
      (call_refund-Answers sha again (after_calls sha between after))
      λ n p.
        subst (λ k. Keeps k (after_calls sha between after))
          (same_key sha c again d.amount n ok.amount p t a) kept
