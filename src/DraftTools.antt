-- ===== src/DraftTools.antt =====
-- src/fintech_agent/tools/draft_action_tools.py: the tools that create drafts, and their store. The
-- store is passed as state; the time of creation is left out.
pub mod Refunds
pub mod Calls
use back_office_fintech.Common.{
  ℕ, zero, suc, String, Bool, true, false, not, ◌||◌, Option, none, some, List, [], ◌∷◌, all,
  is_empty, is_nonempty, if◌then◌else◌,
}
use back_office_fintech.Common.Int.{ℤ, pos}
use back_office_fintech.Common.Text.{concat, strip}
use back_office_fintech.Common.Dict.{Dict, contains, insert}
use back_office_fintech.Schemas.Enums.{ActionType}
use back_office_fintech.Schemas.Evidence.{RefundStatus}
use back_office_fintech.Rules.Idempotency.{generate_idempotency_key, is_duplicate_action}
use back_office_fintech.MoneyActionGuard.{SafetyViolation, guard_action}

pub record RefundRequestDraft : Type 0 where
  pub idempotency_key : String
  pub case_id : String
  pub transaction_id : String
  pub user_id : String
  pub amount : ℕ
  pub reason : String
  pub evidence_summary : List String

pub record ReconciliationTicketDraft : Type 0 where
  pub idempotency_key : String
  pub case_id : String
  pub transaction_id : String
  pub user_id : String
  pub mismatch_type : String
  pub provider_ref_id : Option String
  pub evidence_summary : List String

pub record CustomerResponseDraft : Type 0 where
  pub case_id : String
  pub transaction_id : String
  pub message : String

pub record ForceSuccessDraft : Type 0 where
  pub case_id : String
  pub transaction_id : String
  pub user_id : String
  pub amount : ℕ
  pub reason : String
  pub evidence_summary : List String
  pub idempotency_key : String

pub record DraftStore : Type 0 where
  pub refund_drafts : Dict RefundRequestDraft
  pub reconciliation_drafts : Dict ReconciliationTicketDraft
  pub response_drafts : Dict CustomerResponseDraft
  pub force_success_drafts : Dict ForceSuccessDraft

abbrev pub new_store : DraftStore
new_store = record {
  refund_drafts = [];
  reconciliation_drafts = [];
  response_drafts = [];
  force_success_drafts = [];
}

-- The exceptions: of the guard, of the validation of the input, of a duplicate, and pydantic's where
-- a draft has an empty identifier.
pub data DraftError : Type 0 where
  safety_violation : SafetyViolation → DraftError
  validation_error : (tool_name field reason : String) → DraftError
  duplicate_action : (tool_name idempotency_key : String) → DraftError
  malformed_draft : DraftError

pub data Created (A : Type 0) : Type 0 where
  created : DraftStore → A → Created A
  raised : DraftError → Created A

abbrev guarded : {A : Type 0} → String → String → String → Created A → Created A
guarded tool case_id transaction_id rest =
    elim (guard_action tool (concat (case_id ∷ ":" ∷ transaction_id ∷ []))) [
      | some v ↦ Created.raised (DraftError.safety_violation v)
      | none ↦ rest
    ]

-- `amount` where it is more than 0, and `none` where `amount <= 0`
abbrev pub positive : ℤ → Option ℕ
positive (pos (suc n)) = some (suc n)
positive _ = none

-- `not evidence_summary or all(not s.strip() for s in evidence_summary)`
unfoldable pub is_blank : List String → Bool
is_blank evidence = not (is_nonempty evidence) || all (λ s. is_empty (strip s)) evidence

abbrev pub has_empty_id : String → String → String → Bool
has_empty_id case_id transaction_id user_id =
    is_empty case_id || is_empty transaction_id || is_empty user_id

abbrev pub no_amount : String → DraftError
no_amount tool = DraftError.validation_error tool "amount" "must be positive"

abbrev pub no_evidence : String → DraftError
no_evidence tool = DraftError.validation_error tool "evidence_summary" "must not be empty"

save_refund_draft : DraftStore → RefundRequestDraft → Created RefundRequestDraft
save_refund_draft store draft =
    Created.created
      (record store { refund_drafts = insert draft.idempotency_key draft store.refund_drafts })
      draft

-- The steps after the validation; `key` is the idempotency key.
store_refund :
    DraftStore → String → Option RefundStatus → RefundRequestDraft → Created RefundRequestDraft
unfolding save_refund_draft
store_refund store key refund_status draft =
    if contains key store.refund_drafts
    then Created.raised (DraftError.duplicate_action "create_refund_request_draft" key)
    else if is_duplicate_action draft.transaction_id ActionType.create_refund_request_draft
        draft.amount refund_status
    then Created.raised (DraftError.duplicate_action "create_refund_request_draft" key)
    else if has_empty_id draft.case_id draft.transaction_id draft.user_id
    then Created.raised DraftError.malformed_draft
    else save_refund_draft store draft

-- The steps after the guard, on the amount where it is positive.
unfoldable pub refund_steps :
    (String → String)
    → (case_id transaction_id user_id reason : String) → List String
    → Option RefundStatus
    → DraftStore
    → Option ℕ
    → Created RefundRequestDraft
unfolding store_refund
refund_steps sha case_id transaction_id user_id reason evidence refund_status store none =
    Created.raised (no_amount "create_refund_request_draft")
refund_steps sha case_id transaction_id user_id reason evidence refund_status store (some n) =
    if is_blank evidence
    then Created.raised (no_evidence "create_refund_request_draft")
    else let key =
        generate_idempotency_key sha transaction_id ActionType.create_refund_request_draft n in
      store_refund store key refund_status (record {
        idempotency_key = key;
        case_id = case_id;
        transaction_id = transaction_id;
        user_id = user_id;
        amount = n;
        reason = reason;
        evidence_summary = evidence;
      })

unfoldable pub create_refund_request_draft :
    (String → String)
    → (case_id transaction_id user_id : String) → (amount : ℤ) → (reason : String) → List String
    → Option RefundStatus
    → DraftStore
    → Created RefundRequestDraft
unfolding refund_steps
create_refund_request_draft sha case_id transaction_id user_id amount reason evidence refund_status
      store =
    guarded "create_refund_request_draft" case_id transaction_id (
      refund_steps sha case_id transaction_id user_id reason evidence refund_status store
        (positive amount))

-- Every ticket of a transaction has the same key, and the last one is kept.
unfoldable pub create_reconciliation_ticket_draft :
    (String → String)
    → (case_id transaction_id user_id mismatch_type : String) → List String
    → Option String
    → DraftStore
    → Created ReconciliationTicketDraft
create_reconciliation_ticket_draft sha case_id transaction_id user_id mismatch_type evidence ref
      store =
    guarded "create_reconciliation_ticket_draft" case_id transaction_id (
      if is_blank evidence
      then Created.raised (no_evidence "create_reconciliation_ticket_draft")
      else if has_empty_id case_id transaction_id user_id
      then Created.raised DraftError.malformed_draft
      else let key =
          generate_idempotency_key sha transaction_id ActionType.create_reconciliation_ticket_draft
            0 in
        let draft : ReconciliationTicketDraft = record {
          idempotency_key = key;
          case_id = case_id;
          transaction_id = transaction_id;
          user_id = user_id;
          mismatch_type = mismatch_type;
          provider_ref_id = ref;
          evidence_summary = evidence;
        } in
        Created.created
          (record store { reconciliation_drafts = insert key draft store.reconciliation_drafts })
          draft)

unfoldable pub create_customer_response_draft :
    (case_id transaction_id message : String) → DraftStore → Created CustomerResponseDraft
create_customer_response_draft case_id transaction_id message store =
    guarded "create_customer_response_draft" case_id transaction_id (
      if is_empty (strip message)
      then Created.raised (
          DraftError.validation_error "create_customer_response_draft" "message"
            "must not be empty")
      else let draft : CustomerResponseDraft = record {
        case_id = case_id;
        transaction_id = transaction_id;
        message = message;
      } in
        Created.created
          (record store { response_drafts = insert case_id draft store.response_drafts }) draft)

unfoldable pub create_force_success_draft :
    (String → String)
    → (case_id transaction_id user_id : String) → (amount : ℤ) → (reason : String) → List String
    → DraftStore
    → Created ForceSuccessDraft
create_force_success_draft sha case_id transaction_id user_id amount reason evidence store =
    guarded "create_force_success_draft" case_id transaction_id (elim (positive amount) [
      | none ↦ Created.raised (no_amount "create_force_success_draft")
      | some n ↦
          if is_blank evidence
          then Created.raised (no_evidence "create_force_success_draft")
          else let key =
              generate_idempotency_key sha transaction_id ActionType.create_force_success_draft n in
            let draft : ForceSuccessDraft = record {
              case_id = case_id;
              transaction_id = transaction_id;
              user_id = user_id;
              amount = n;
              reason = reason;
              evidence_summary = evidence;
              idempotency_key = key;
            } in
            (if contains key store.force_success_drafts
              then Created.raised (DraftError.duplicate_action "create_force_success_draft" key)
              else Created.created
                  (record store {
                    force_success_drafts = insert key draft store.force_success_drafts;
                  })
                  draft)
    ])
