-- ===== src/Examples/Decisions.antt =====
-- The theorems about the approval service, the draft tools, the case transitions, the guard and the
-- audit trail, applied to concrete calls.
use back_office_fintech.Common.{
  false, is_empty, String, true, none, some, List, [], ◌∷◌, ◌≡◌, refl, inl, str_eq, is_one_of,
}
use back_office_fintech.Common.Int.{pos}
use back_office_fintech.Common.Text.{lower, strip}
use back_office_fintech.Common.Dict.{contains, insert, lookup}
use back_office_fintech.Common.Value.{fields_of}
use back_office_fintech.Schemas.Enums.{ActionType, ApprovalStatus, AuditEventType, CaseStatus}
use back_office_fintech.Audit.{EventSpec, new_logger, spec_of}
use back_office_fintech.Approvals.{
  ApprovalError, ApprovalService, Outcome, approve_case, is_pending, register_pending, reject_case,
}
use back_office_fintech.Approvals.Decided.{
  Approves, Rejects, approve_case-Approves, reject_case-Rejects,
}
use back_office_fintech.Approvals.Pending.{
  Call, new_service, new_service-pending, perform, perform_all, perform_all-keeps_decided,
  perform_all-stuck,
}
use back_office_fintech.DraftTools.{
  Created, DraftStore, RefundRequestDraft, create_refund_request_draft, is_blank, new_store,
}
use back_office_fintech.DraftTools.Refunds.{
  Answers, IsAccepted, RefundCall, call_refund, call_refund-Answers,
}
use back_office_fintech.DraftTools.Calls.{IsRaised, ToolCall, after_calls, call_refund-once}
use back_office_fintech.Rules.Idempotency.{generate_idempotency_key, is_duplicate_action}
use back_office_fintech.CaseTransition.{ActiveCase, RouterResult, ack_types, decide_case_transition}
use back_office_fintech.CaseTransition.Reuse.{decide_case_transition-reuse_iff}
use back_office_fintech.MoneyActionGuard.{guard_action}
use back_office_fintech.Examples.{sample_services, sample_sha, waiting_state}

-- "CASE-1" waits, and "CASE-2" is decided and waits again.
abbrev sample_service : ApprovalService
sample_service = record {
  pending = ("CASE-1", waiting_state "CASE-1") ∷ ("CASE-2", waiting_state "CASE-2") ∷ [];
  decided = ("CASE-2", waiting_state "CASE-2") ∷ [];
  audit = some new_logger;
}

has_id : is_empty "CASE-1" ≡ false
unfolding str_eq
has_id = refl

has_approver : is_empty "A1" ≡ false
unfolding str_eq
has_approver = refl

first_waits : lookup "CASE-1" sample_service.pending ≡ some (waiting_state "CASE-1")
unfolding lookup str_eq
first_waits = refl

first_undecided : lookup "CASE-1" sample_service.decided ≡ none
unfolding lookup str_eq
first_undecided = refl

second_decided : lookup "CASE-2" sample_service.decided ≡ some (waiting_state "CASE-2")
unfolding lookup str_eq
second_decided = refl

second_waits : is_pending sample_service "CASE-2" ≡ true
unfolding is_pending contains lookup str_eq
second_waits = refl

approve_case-Approves_example :
    Approves sample_service "CASE-1" "A1"
      (some "ok")
      (waiting_state "CASE-1")
      (approve_case sample_services sample_service "CASE-1" "A1" (some "ok"))
approve_case-Approves_example =
    approve_case-Approves sample_services sample_service "CASE-1" "A1" (some "ok")
      (waiting_state "CASE-1") has_id has_approver first_undecided first_waits

reject_case-Rejects_example :
    Rejects sample_service "CASE-1" "A1" "no evidence"
      (waiting_state "CASE-1")
      (reject_case sample_services sample_service "CASE-1" "A1" "no evidence")
reject_case-Rejects_example =
    reject_case-Rejects sample_services sample_service "CASE-1" "A1" "no evidence"
      (waiting_state "CASE-1") has_id has_approver first_undecided first_waits

abbrev sample_calls : List Call
sample_calls =
    Call.register (waiting_state "CASE-2")
    ∷ Call.approve "CASE-2" "A2" none
    ∷ Call.reject "CASE-1" "A2" "no"
    ∷ []

perform_all-keeps_decided_example :
    (lookup "CASE-2" (perform_all sample_services sample_service sample_calls).decided
      ≡ some (waiting_state "CASE-2"))
    × (approve_case sample_services
          (perform_all sample_services sample_service sample_calls)
          "CASE-2"
          "A1"
          none
        ≡ Outcome.raised (ApprovalError.already_decided "CASE-2" (some ApprovalStatus.pending)))
    × (reject_case sample_services
          (perform_all sample_services sample_service sample_calls)
          "CASE-2"
          "A1"
          "no"
        ≡ Outcome.raised (ApprovalError.already_decided "CASE-2" (some ApprovalStatus.pending)))
perform_all-keeps_decided_example =
    perform_all-keeps_decided sample_services sample_service sample_calls "CASE-2"
      (waiting_state "CASE-2") "A1" "no" none second_decided

perform_all-stuck_example :
    is_pending (perform_all sample_services sample_service sample_calls) "CASE-2" ≡ true
perform_all-stuck_example =
    perform_all-stuck sample_services sample_service sample_calls "CASE-2" (waiting_state "CASE-2")
      second_decided second_waits

registered :
    lookup "CASE-1"
      (perform_all sample_services
        (new_service none)
        (Call.register (waiting_state "CASE-1") ∷ [])).pending
    ≡ some (waiting_state "CASE-1")
unfolding perform_all perform register_pending insert lookup str_eq
registered = refl

new_service-pending_example : (waiting_state "CASE-1").status ≡ some CaseStatus.waiting_approval
new_service-pending_example =
    new_service-pending sample_services none (Call.register (waiting_state "CASE-1") ∷ []) "CASE-1"
      (waiting_state "CASE-1") registered

abbrev refund_call : String → RefundCall
refund_call case_id = record {
  case_id = case_id;
  transaction_id = "T1";
  user_id = "U1";
  amount = pos 250;
  reason = "ticket not issued";
  evidence = "wallet debited" ∷ [];
  refund_status = none;
}

refund-IsAccepted : IsAccepted sample_sha (refund_call "CASE-1") new_store 250
unfolding is_blank contains lookup is_duplicate_action str_eq strip
refund-IsAccepted = record {
  amount = refl;
  evidence = refl;
  is_new = refl;
  open_refund = refl;
  named = refl;
}

call_refund-Answers_example :
    Answers sample_sha
      (refund_call "CASE-1")
      new_store
      (call_refund sample_sha (refund_call "CASE-1") new_store)
call_refund-Answers_example = call_refund-Answers sample_sha (refund_call "CASE-1") new_store

abbrev refund_draft : RefundRequestDraft
refund_draft = record {
  idempotency_key =
      generate_idempotency_key sample_sha "T1" ActionType.create_refund_request_draft 250;
  case_id = "CASE-1";
  transaction_id = "T1";
  user_id = "U1";
  amount = 250;
  reason = "ticket not issued";
  evidence_summary = "wallet debited" ∷ [];
}

abbrev store_with_draft : DraftStore
store_with_draft = record new_store {
  refund_drafts = (refund_draft.idempotency_key, refund_draft) ∷ [];
}

first_created :
    call_refund sample_sha (refund_call "CASE-1") new_store
    ≡ Created.created store_with_draft refund_draft
unfolding create_refund_request_draft guard_action is_blank contains lookup insert
    is_duplicate_action str_eq lower strip
first_created = refl

-- A refund of another transaction, and an answer to the customer.
abbrev calls_between : List ToolCall
calls_between =
    ToolCall.refund (record (refund_call "CASE-2") { transaction_id = "T2" })
    ∷ ToolCall.response "CASE-1" "T1" "We are on it."
    ∷ []

call_refund-once_example : IsRaised (
    call_refund sample_sha
      (refund_call "CASE-9")
      (after_calls sample_sha calls_between store_with_draft))
call_refund-once_example =
    call_refund-once sample_sha (refund_call "CASE-1") (refund_call "CASE-9") new_store
      store_with_draft refund_draft calls_between first_created refl refl

abbrev thanks : RouterResult
thanks = record { message_type = some "acknowledgement"; workflow_hint = none }

abbrev open_case : ActiveCase
open_case = record { workflow = some "train_ticket"; status = some "open"; case_id = some "CASE-1" }

acknowledged : is_one_of "acknowledgement" ack_types ≡ true
unfolding str_eq
acknowledged = refl

decide_case_transition-reuse_iff_example :
    (decide_case_transition thanks open_case).reuse_old_diagnosis ≡ true
decide_case_transition-reuse_iff_example =
    (decide_case_transition-reuse_iff thanks open_case).1 (inl acknowledged)

abbrev sample_event : EventSpec
sample_event = spec_of "CASE-1" AuditEventType.rule_applied (fields_of [])

abbrev other_event : EventSpec
other_event = spec_of "CASE-2" AuditEventType.rule_applied (fields_of [])
