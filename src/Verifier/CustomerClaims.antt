-- ===== src/Verifier/CustomerClaims.antt =====
-- src/fintech_agent/api/customer_claims.py.
use back_office_fintech.Common.{
  String, Bool, true, false, not, ◌&&◌, Option, none, some, List, [], ◌∷◌, ◌++◌, filter_by,
  is_empty, str_eq, if◌then◌else◌,
}
use back_office_fintech.Common.Int.{ℤ}
use back_office_fintech.Common.Dict.{Dict, insert, lookup}
use back_office_fintech.Common.Value.{Value}
use back_office_fintech.Verifier.{is_true}

pub record ClaimRecord : Type 0 where
  pub field_name : String  -- `field`
  pub value : Value
  pub superseded : Bool

pub record CustomerClaims : Type 0 where
  pub latest : Dict Value
  pub history : List ClaimRecord

abbrev pub no_claims : CustomerClaims
no_claims = record { latest = []; history = [] }

abbrev superseded_record : ClaimRecord → ClaimRecord
superseded_record r = record r { superseded = true }

abbrev cons_record : ClaimRecord → Option (List ClaimRecord) → Option (List ClaimRecord)
cons_record r none = none
cons_record r (some rs) = some (r ∷ rs)

abbrev or_records :
    Option (List ClaimRecord) → Option (List ClaimRecord) → Option (List ClaimRecord)
or_records none b = b
or_records (some a) b = some a

-- The search of a correction goes from the end: the last current record of the field is superseded.
unfoldable pub supersede_last : String → List ClaimRecord → Option (List ClaimRecord)
supersede_last field [] = none
supersede_last field (r ∷ rs) = or_records (cons_record r (supersede_last field rs)) (
    if str_eq r.field_name field && not r.superseded then some (superseded_record r ∷ rs) else none)

abbrev or_unchanged : List ClaimRecord → Option (List ClaimRecord) → List ClaimRecord
or_unchanged rs none = rs
or_unchanged rs (some changed) = changed

-- A claim with a value.
unfoldable pub add_claim : String → Value → Bool → CustomerClaims → CustomerClaims
add_claim field value is_correction c =
    let history =
      if is_correction
      then or_unchanged c.history (supersede_last field c.history)
      else c.history in
    record {
      latest = insert field value c.latest;
      history = history ++ record { field_name = field; value = value; superseded = false } ∷ [];
    }

abbrev is_null : Value → Bool
is_null Value.null = true
is_null _ = false

unfoldable pub merge_claim : String → Value → Bool → CustomerClaims → CustomerClaims
merge_claim field value is_correction c =
    if is_null value then c else add_claim field value is_correction c

-- `_FIELD_MAP`
abbrev field_map : List (String × String)
field_map =
    ("transaction_id", "transaction_id")
    ∷ ("order_id", "order_id")
    ∷ ("bill_code", "bill_code")
    ∷ ("merchant_id", "merchant_id")
    ∷ ("amount", "amount")
    ∷ ("bank_name", "bank_name")
    ∷ ("bank_reference", "bank_reference")
    ∷ ("approximate_time_text", "time")
    ∷ ("approximate_date_text", "date")
    ∷ ("provider_name", "provider_name")
    ∷ []

abbrev pub value_or_null : Option Value → Value
value_or_null none = Value.null
value_or_null (some v) = v

unfoldable pub merge_fields :
    List (String × String) → Dict Value → Bool → CustomerClaims → CustomerClaims
merge_fields [] extracted is_correction c = c
merge_fields ((attribute, field) ∷ fields) extracted is_correction c =
    let value = value_or_null (lookup attribute extracted) in
    if is_true value
    then merge_fields fields extracted is_correction (merge_claim field value is_correction c)
    else merge_fields fields extracted is_correction c

-- The extracted fields are given by their attributes.
unfoldable pub merge_extracted_fields : Dict Value → Bool → CustomerClaims → CustomerClaims
merge_extracted_fields extracted is_correction c = merge_fields field_map extracted is_correction c

unfoldable pub superseded_claims : CustomerClaims → List ClaimRecord
superseded_claims c = filter_by (λ r. r.superseded) c.history

pub record VerifiedEvidence : Type 0 where
  pub resolved_entity_id : String
  pub resolved_entity_type : String
  pub verified_amount : Option ℤ
  pub verified_status : String
  pub verified_owner_id : String
  pub verified_bank_name : String
  pub verified_bank_status : String
  pub verified_provider_status : String
  pub evidence_source : String

-- An entry of a summary: the field, its value and the source.
abbrev entry : String → Value → String → List (Dict Value)
entry field value source =
    (("field", Value.text field) ∷ ("value", value) ∷ ("source", Value.text source) ∷ []) ∷ []

abbrev text_entry : String → String → String → List (Dict Value)
text_entry field value source = if is_empty value then [] else entry field (Value.text value) source

abbrev amount_entry : Option ℤ → String → List (Dict Value)
amount_entry none source = []
amount_entry (some n) source = entry "amount" (Value.num n) source

-- `VerifiedEvidence.to_summary`
unfoldable pub evidence_summary : VerifiedEvidence → List (Dict Value)
evidence_summary e =
    amount_entry e.verified_amount e.evidence_source
    ++ text_entry "status" e.verified_status e.evidence_source
    ++ text_entry "bank_name" e.verified_bank_name e.evidence_source
    ++ text_entry "bank_status" e.verified_bank_status e.evidence_source
    ++ text_entry "provider_status" e.verified_provider_status e.evidence_source
