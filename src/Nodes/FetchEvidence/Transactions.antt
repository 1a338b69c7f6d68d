-- ===== src/Nodes/FetchEvidence/Transactions.antt =====
-- The workflows about a transaction: train tickets, utility bills and wallet top-ups.
use back_office_fintech.Common.{
  String, Bool, true, false, not, ◌&&◌, Option, none, some, [], ◌∷◌, ◌++◌, str_eq, is_one_of,
  if◌then◌else◌,
}
use back_office_fintech.Common.Text.{text_or_empty}
use back_office_fintech.Common.Value.{Value, fields_of}
use back_office_fintech.Schemas.Enums.{CaseStatus, service_type_value}
use back_office_fintech.Schemas.CaseState.{ExtractedInfo, is_truthy}
use back_office_fintech.Schemas.Evidence.{
  EvidenceBundle, ReconciliationStatus, Transaction, empty_bundle,
}
use back_office_fintech.Audit.{AuditLogger}
use back_office_fintech.Graph.State.{AgentState}
use back_office_fintech.Graph.Services.{Fetched, Services}
use back_office_fintech.Nodes.FetchEvidence.Steps.{
  FetchState, fetch_required, fetch_start, log_started, note_error, note_result,
}

-- `extracted.service_type or (transaction.service_type if transaction else None)`
abbrev service_hint : ExtractedInfo → Option Transaction → Option String
service_hint x t = elim x.service_type [
  | some st ↦ some (service_type_value st)
  | none ↦ elim t [ none ↦ none | some txn ↦ some txn.service_type ]
]

abbrev is_hint : String → Option String → Bool
is_hint w none = false
is_hint w (some v) = str_eq v w

abbrev provider_ref : Option Transaction → Option String
provider_ref none = none
provider_ref (some t) = t.provider_ref_id

abbrev is_utility_hint : Option String → Bool
is_utility_hint none = false
is_utility_hint (some v) = is_one_of v ("utility_bill" ∷ "electric_bill" ∷ "water_bill" ∷ [])

-- A step that is made only under a condition.
abbrev fetch_when {ℓ} :
    {A : Type ℓ} → Bool → (FetchState → Option A × FetchState) → FetchState → Option A × FetchState
fetch_when true step f = step f
fetch_when false step f = (none, f)

-- The reconciliation tool is called without an audit event.
fetch_reconciliation :
    Fetched (Option ReconciliationStatus) → FetchState → Option ReconciliationStatus × FetchState
fetch_reconciliation (Fetched.found r) f = (r, note_result "reconciliation" "ok" f)
fetch_reconciliation (Fetched.refused e) f =
    (none, note_result "reconciliation" "failed" (note_error "reconciliation" e f))

-- The evidence of the transaction `id`.
unfoldable pub gather_evidence :
    Services → AgentState → ExtractedInfo → String → FetchState → EvidenceBundle × FetchState
unfolding fetch_required fetch_reconciliation log_started
gather_evidence services s x id f0 =
    let tools = services.tools in
    let f1 = log_started services s (fields_of (("transaction_id", Value.text id) ∷ [])) f0 in
    let (t, f2) =
      fetch_required services s "transaction" "get_transaction" (tools.get_transaction id) f1 in
    let hint = service_hint x t in
    let with_wallet = not (is_hint "wallet_topup" hint) in
    let (l, f3) =
      fetch_when with_wallet
        (fetch_required services s "wallet_ledger" "get_wallet_ledger" (tools.get_wallet_ledger id))
        f2 in
    let ref = provider_ref t in
    let with_provider = is_truthy ref && with_wallet in
    let with_train = with_provider && is_hint "train_ticket" hint in
    let (p, f4) =
      fetch_when with_train
        (fetch_required services s "train_provider" "get_train_provider_status"
          (tools.get_train_provider_status (text_or_empty ref)))
        f3 in
    let (u, f5) =
      fetch_when (with_provider && not (is_hint "train_ticket" hint) && is_utility_hint hint)
        (fetch_required services s "utility_provider" "get_utility_bill_status"
          (tools.get_utility_bill_status (text_or_empty ref)))
        f4 in
    let (r, f6) =
      fetch_when with_wallet
        (fetch_required services s "refund_status" "get_refund_status" (tools.get_refund_status id))
        f5 in
    let (c, f7) = fetch_reconciliation (tools.get_reconciliation_status id) f6 in
    (
      record empty_bundle {
        transaction = t;
        wallet_ledger = l;
        train_provider = p;
        utility_provider = u;
        refund_status = r;
        reconciliation_status = c;
      },
      f7,
    )

abbrev workflow_of_transaction : Option Transaction → Option String
workflow_of_transaction none = none
workflow_of_transaction (some t) =
    if str_eq t.service_type "train_ticket"
    then some "train_ticket"
    else if is_one_of t.service_type ("electric_bill" ∷ "water_bill" ∷ [])
    then some "utility_bill"
    else if str_eq t.service_type "wallet_topup"
    then some "wallet_topup"
    else none

-- The workflow that was selected before, or else the one that the transaction tells. An empty or
-- absent workflow stays what it was where the transaction tells none.
abbrev workflow_or_from : Option String → Option Transaction → Option String
workflow_or_from w t =
    if is_truthy w then w else elim (workflow_of_transaction t) [ some v ↦ some v | none ↦ w ]

gather :
    Services
    → AgentState
    → Option AuditLogger
    → ExtractedInfo
    → String
    → AgentState × Option AuditLogger
gather services s audit x id =
    let (e, f) = gather_evidence services s x id (fetch_start s audit) in
    (
      record s {
        evidence_bundle = some e;
        tool_results = f.tool_results;
        selected_workflow = workflow_or_from s.selected_workflow e.transaction;
        errors = f.errors;
        status = some CaseStatus.fetching_evidence;
        audit_event_ids = f.audit_ids;
      },
      f.audit,
    )

-- Without a transaction the results and the evidence of an earlier run are left as they are.
no_transaction : AgentState → Option AuditLogger → AgentState × Option AuditLogger
no_transaction s audit = (
  record s {
    status = some CaseStatus.dead_letter;
    errors = s.errors ++ "no transaction_id for evidence fetch" ∷ [];
  },
  audit,
)

fetch_for :
    Services
    → AgentState
    → Option AuditLogger
    → Option ExtractedInfo
    → AgentState × Option AuditLogger
unfolding gather no_transaction
fetch_for services s audit none = no_transaction s audit
fetch_for services s audit (some x) =
    if is_truthy x.transaction_id
    then gather services s audit x (text_or_empty x.transaction_id)
    else no_transaction s audit

-- `fetch_evidence` from the test of the transaction on.
unfoldable pub fetch_transaction_evidence :
    Services → AgentState → Option AuditLogger → AgentState × Option AuditLogger
unfolding fetch_for
fetch_transaction_evidence services s audit = fetch_for services s audit s.extracted_info
