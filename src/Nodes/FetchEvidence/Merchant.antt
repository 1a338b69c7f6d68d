-- ===== src/Nodes/FetchEvidence/Merchant.antt =====
-- `_fetch_merchant_settlement_evidence`: the merchant, then the six records of the settlement.
use back_office_fintech.Common.{
  String, true, false, Option, none, some, [], ◌∷◌, ◌++◌, is_nonempty, if◌then◌else◌,
}
use back_office_fintech.Common.Text.{concat, text_or_empty}
use back_office_fintech.Common.Dict.{Dict}
use back_office_fintech.Common.Value.{Value, fields_of, optional_text}
use back_office_fintech.Schemas.Enums.{CaseStatus}
use back_office_fintech.Schemas.CaseState.{ExtractedInfo, is_truthy}
use back_office_fintech.Schemas.Evidence.{
  EvidenceBundle, MerchantPayout, MerchantProfile, MerchantSettlementLedger, empty_bundle,
}
use back_office_fintech.Audit.{AuditLogger}
use back_office_fintech.Graph.State.{AgentState}
use back_office_fintech.Graph.Services.{Fetched, Services}
use back_office_fintech.Nodes.FetchEvidence.Steps.{
  FetchState, fetch_optional, fetch_start, log_started, log_tool, note_error, note_result,
}

abbrev field_of : (ExtractedInfo → Option String) → Option ExtractedInfo → Option String
field_of get none = none
field_of get (some x) = get x

abbrev entry : String → Option String → Dict String
entry k v = (k, text_or_empty v) ∷ []

-- The first identity that was extracted, in order.
unfoldable pub merchant_lookup_args : Option ExtractedInfo → Dict String
merchant_lookup_args none = []
merchant_lookup_args (some x) =
    if is_truthy x.merchant_id
    then entry "merchant_id" x.merchant_id
    else if is_truthy x.phone
    then entry "phone" x.phone
    else if is_truthy x.email
    then entry "email" x.email
    else if is_truthy x.tax_code
    then entry "tax_code" x.tax_code
    else []

-- The outcome of the profile's look-up on the id that was known before it.
pub record MerchantFound : Type 0 where
  pub profile : Option MerchantProfile
  pub merchant_id : Option String
  pub fetch : FetchState

profile_reply :
    Services
    → AgentState
    → Option String
    → Fetched (Option MerchantProfile)
    → FetchState
    → MerchantFound
profile_reply services s id (Fetched.found (some p)) f = record {
  profile = some p;
  merchant_id = some p.merchant_id;
  fetch =
      log_tool services s "get_merchant_profile" true (concat ("found=" ∷ p.merchant_id ∷ []))
        (note_result "merchant_profile" "ok" f);
}
profile_reply services s id (Fetched.found none) f = record {
  profile = none;
  merchant_id = id;
  fetch =
      log_tool services s "get_merchant_profile" false "not found"
        (note_result "merchant_profile" "not_found" f);
}
profile_reply services s id (Fetched.refused e) f = record {
  profile = none;
  merchant_id = id;
  fetch =
      log_tool services s "get_merchant_profile" false e
        (note_result "merchant_profile" "failed" (note_error "merchant_profile" e f));
}

unfoldable pub resolve_merchant : Services → AgentState → FetchState → MerchantFound
unfolding profile_reply merchant_lookup_args
resolve_merchant services s f =
    let args = merchant_lookup_args s.extracted_info in
    let id = field_of (λ x. x.merchant_id) s.extracted_info in
    if is_nonempty args
    then profile_reply services s id (services.tools.get_merchant_profile args) f
    else record {
      profile = none;
      merchant_id = id;
      fetch = record f {
        tool_results = (note_result "merchant_profile" "no_identity" f).tool_results;
        errors = f.errors ++ "merchant_identity_not_provided" ∷ [];
      };
    }

abbrev args_when : Option String → String → Dict String
args_when v k = if is_truthy v then entry k v else []

payout_args : String → Option String → Option String → Dict String
payout_args id payout_id date =
    ("merchant_id", id)
    ∷ (if is_truthy payout_id
        then entry "payout_id" payout_id
        else args_when date "settlement_date")

abbrev cycle_of : Option ExtractedInfo → String
cycle_of x = elim (field_of (λ y. y.settlement_cycle) x) [
  | none ↦ "D+1"
  | some c ↦ if is_truthy (some c) then c else "D+1"
]

abbrev ledger_date : Option MerchantSettlementLedger → Option String
ledger_date none = none
ledger_date (some l) = l.settlement_date

batch_args : Option ExtractedInfo → Option MerchantSettlementLedger → Dict String
batch_args x l =
    let batch_id = field_of (λ y. y.batch_id) x in
    let date = field_of (λ y. y.settlement_date) x in
    if is_truthy batch_id
    then entry "batch_id" batch_id
    else if is_truthy date
    then ("settlement_date", text_or_empty date) ∷ ("cycle", cycle_of x) ∷ []
    else if is_truthy (ledger_date l)
    then ("settlement_date", text_or_empty (ledger_date l)) ∷ ("cycle", cycle_of x) ∷ []
    else []

receipt_args : Option MerchantPayout → Dict String
receipt_args none = []
receipt_args (some p) =
    if is_truthy p.bank_transfer_ref
    then entry "bank_transfer_ref" p.bank_transfer_ref
    else ("payout_id", p.payout_id) ∷ []

-- A call that is made only where there are arguments for it.
abbrev fetch_with {ℓ} :
    {A : Type ℓ}
    → Services
    → AgentState
    → String
    → String
    → (Dict String → Fetched (Option A))
    → Dict String
    → FetchState
    → Option A × FetchState
fetch_with services s key tool call [] f = (none, f)
fetch_with services s key tool call (a ∷ rest) f =
    fetch_optional services s key tool (call (a ∷ rest)) f

unfoldable pub merchant_records :
    Services
    → AgentState
    → String
    → Option MerchantProfile
    → FetchState
    → EvidenceBundle × FetchState
unfolding payout_args batch_args receipt_args
merchant_records services s id profile f0 =
    let tools = services.tools in
    let x = s.extracted_info in
    let date = field_of (λ y. y.settlement_date) x in
    let (a, f1) =
      fetch_optional services s "merchant_bank_account" "get_merchant_bank_account"
        (tools.get_merchant_bank_account id) f0 in
    let (l, f2) =
      fetch_optional services s "merchant_settlement_ledger" "get_merchant_settlement_ledger"
        (tools.get_merchant_settlement_ledger
          (("merchant_id", id) ∷ args_when date "settlement_date"))
        f1 in
    let (p, f3) =
      fetch_optional services s "merchant_payout" "get_merchant_payout"
        (tools.get_merchant_payout (payout_args id (field_of (λ y. y.payout_id) x) date)) f2 in
    let (b, f4) =
      fetch_with services s "settlement_batch" "get_settlement_batch" tools.get_settlement_batch
        (batch_args x l) f3 in
    let (r, f5) =
      fetch_with services s "bank_transfer_receipt" "get_bank_transfer_receipt"
        tools.get_bank_transfer_receipt (receipt_args p) f4 in
    (
      record empty_bundle {
        merchant_profile = profile;
        merchant_bank_account = a;
        merchant_settlement_ledger = l;
        merchant_payout = p;
        settlement_batch = b;
        bank_transfer_receipt = r;
      },
      f5,
    )

merchant_state : AgentState → EvidenceBundle × FetchState → AgentState × Option AuditLogger
merchant_state s (e, f) = (
  record s {
    evidence_bundle = some e;
    tool_results = f.tool_results;
    selected_workflow = some "merchant_settlement_delay";
    errors = f.errors;
    status = some CaseStatus.fetching_evidence;
    audit_event_ids = f.audit_ids;
  },
  f.audit,
)

unfoldable pub fetch_merchant_evidence :
    Services → AgentState → Option AuditLogger → AgentState × Option AuditLogger
unfolding merchant_state
fetch_merchant_evidence services s audit =
    let f0 =
      log_started services s
        (fields_of (
          ("workflow", Value.text "merchant_settlement_delay")
          ∷ ("merchant_id", optional_text (field_of (λ x. x.merchant_id) s.extracted_info))
          ∷ []))
        (fetch_start s audit) in
    let m = resolve_merchant services s f0 in
    merchant_state s (
      if is_truthy m.merchant_id
      then merchant_records services s (text_or_empty m.merchant_id) m.profile m.fetch
      else (empty_bundle, m.fetch))
