-- ===== src/Verifier/Contradictions.antt =====
-- src/fintech_agent/api/customer_claims.py: the comparison of claims with verified evidence.
use back_office_fintech.Common.{
  ℕ, zero, suc, ◌-◌, String, Bool, true, false, not, ◌&&◌, ◌||◌, Option, none, some, List, [], ◌∷◌,
  ◌++◌, is_none, is_empty, str_eq, if◌then◌else◌,
}
use Prim.Native.Char.{code}
use Prim.Native.String as Native
use back_office_fintech.Common.Tests.{◌==◌}
use back_office_fintech.Common.Int.{ℤ, pos, eqb_ℤ}
use back_office_fintech.Common.Text.{has_substring, strip, text_length}
use back_office_fintech.Common.Dict.{Dict, lookup}
use back_office_fintech.Common.Value.{Value}
use back_office_fintech.Verifier.{Parsed, VerifierEnv}
use back_office_fintech.Verifier.CustomerClaims.{
  ClaimRecord, CustomerClaims, VerifiedEvidence, value_or_null,
}

pub record Contradiction : Type 0 where
  pub field_name : String  -- `field`
  pub customer_claim : Value
  pub verified_value : Value
  pub severity : String

-- `s.startswith(p)`
unfoldable pub starts_with : String → String → Bool
starts_with String.[] s = true
starts_with (String.◌∷◌ c p) String.[] = false
starts_with (String.◌∷◌ c p) (String.◌∷◌ d s) = (code c == code d) && starts_with p s

-- The rest of a text, where the next characters are skipped.
replace_from : String → String → ℕ → String → String
unfolding starts_with text_length
replace_from old new skip String.[] = ""
replace_from old new (suc skip) (String.◌∷◌ c s) = replace_from old new skip s
replace_from old new zero (String.◌∷◌ c s) =
    let after = replace_from old new (text_length old - 1) s in
    let kept = replace_from old new zero s in
    if starts_with old (String.◌∷◌ c s) then Native.◌++◌ new after else String.◌∷◌ c kept

-- `s.replace(old, new)`, where `old` is not empty.
unfoldable pub replace : String → String → String → String
unfolding replace_from
replace old new s = replace_from old new zero s

-- The text of an amount without its separators and its unit.
unfoldable pub cleaned_amount : String → String
cleaned_amount s = replace "K" "000" (
    replace "k" "000"
      (replace "vnd" "" (replace "đ" "" (replace "," "" (replace "." "" (strip s))))))

-- `ValueError` is caught, `OverflowError` is not.
abbrev pub caught : Parsed → Option (Option ℤ)
caught (Parsed.number n) = some (some n)
caught Parsed.value_error = some none
caught Parsed.overflow_error = none

-- `_normalize_amount`; the outer `none` is its exception.
unfoldable pub normalize_amount : VerifierEnv → Value → Option (Option ℤ)
normalize_amount env Value.null = some none
normalize_amount env (Value.text s) = caught (env.number_of_text (cleaned_amount s))
normalize_amount env (Value.num n) = some (some n)
normalize_amount env (Value.bool b) = some (some (pos (if b then 1 else 0)))
normalize_amount env (Value.dict f) = some none
normalize_amount env (Value.list e) = some none

unfoldable pub amount_contradiction : Option ℤ → Option ℤ → List Contradiction
amount_contradiction none verified = []
amount_contradiction (some n) none = []
amount_contradiction (some n) (some m) =
    if eqb_ℤ n m
    then []
    else record {
      field_name = "amount";
      customer_claim = Value.num n;
      verified_value = Value.num m;
      severity = "medium";
    }
      ∷ []

-- `str(claims.latest.get("bank_name", ""))`
unfoldable pub bank_text : VerifierEnv → Option Value → String
bank_text env none = ""
bank_text env (some (Value.text s)) = s
bank_text env (some Value.null) = "None"
bank_text env (some (Value.bool b)) = env.str_of_value (Value.bool b)
bank_text env (some (Value.num n)) = env.str_of_value (Value.num n)
bank_text env (some (Value.dict f)) = env.str_of_value (Value.dict f)
bank_text env (some (Value.list e)) = env.str_of_value (Value.list e)

-- The names differ, and neither stands in the other.
unfoldable pub banks_differ : String → String → Bool
banks_differ claimed verified =
    not (is_empty claimed)
    && not (is_empty verified)
    && not (str_eq claimed verified)
    && not (has_substring claimed verified)
    && not (has_substring verified claimed)

unfoldable pub bank_contradiction : VerifierEnv → Option Value → String → List Contradiction
bank_contradiction env claim verified =
    if banks_differ (env.lower (strip (bank_text env claim))) (env.lower (strip verified))
    then record {
      field_name = "bank_name";
      customer_claim = value_or_null claim;
      verified_value = Value.text verified;
      severity = "low";
    }
      ∷ []
    else []

abbrev pub contradictions_of :
    VerifierEnv
    → CustomerClaims
    → VerifiedEvidence
    → Option (Option ℤ)
    → Option (List Contradiction)
contradictions_of env claims evidence none = none
contradictions_of env claims evidence (some amount) = some (
    amount_contradiction amount evidence.verified_amount
    ++ bank_contradiction env (lookup "bank_name" claims.latest) evidence.verified_bank_name)

-- `none` is the exception of `_normalize_amount`.
unfoldable pub detect_contradictions :
    VerifierEnv → CustomerClaims → VerifiedEvidence → Option (List Contradiction)
detect_contradictions env claims evidence =
    contradictions_of env claims evidence
      (normalize_amount env (value_or_null (lookup "amount" claims.latest)))

-- The fields for which the evidence has a value.
unfoldable pub is_verified : String → VerifiedEvidence → Bool
is_verified field e =
    str_eq field "amount" && not (is_none e.verified_amount)
    || str_eq field "bank_name" && not (is_empty e.verified_bank_name)
    || str_eq field "transaction_id" && not (is_empty e.resolved_entity_id)

unfoldable pub unverified_fields : Dict Value → VerifiedEvidence → List (Dict Value)
unverified_fields [] e = []
unverified_fields ((field, value) ∷ latest) e =
    if is_verified field e
    then unverified_fields latest e
    else (("field", Value.text field) ∷ ("value", value) ∷ []) ∷ unverified_fields latest e

unfoldable pub get_unverified_claims : CustomerClaims → VerifiedEvidence → List (Dict Value)
get_unverified_claims claims evidence = unverified_fields claims.latest evidence

-- `CustomerClaims.to_summary`, without the time stamps.
unfoldable pub claims_summary : List ClaimRecord → List (Dict Value)
claims_summary [] = []
claims_summary (r ∷ rs) =
    (("field", Value.text r.field_name)
      ∷ ("value", r.value)
      ∷ ("superseded", Value.bool r.superseded)
      ∷ [])
    ∷ claims_summary rs
