-- ===== src/Verifier.antt =====
-- src/fintech_agent/api/customer_claims.py and api/account_verifier.py: what the customer says, against
-- what the system has verified. Time stamps are left out.
pub mod CustomerClaims
pub mod Contradictions
pub mod Account
pub mod Verdicts
pub mod CardDispute
use back_office_fintech.Common.{zero, suc, String, Bool, true, false, not, Option, is_empty}
use back_office_fintech.Common.Int.{ℤ, pos, negsuc}
use back_office_fintech.Common.Value
use back_office_fintech.Common.Value.{Value, no_elements, no_fields, with_element, with_field}

-- What `int`, or `int(float(...))` where a text has other characters than digits, makes of a text: a
-- number, a `ValueError`, or the `OverflowError` of an infinite float.
pub data Parsed : Type 0 where
  number : ℤ → Parsed
  value_error : Parsed
  overflow_error : Parsed

-- What is taken from Python: the number of a cleaned text, `str.lower` with the letters of
-- Vietnamese, and `str` of a value that is no text.
pub record VerifierEnv : Type 0 where
  pub number_of_text : String → Parsed
  pub lower : String → String
  pub str_of_value : Value → String

-- `if value`
unfoldable pub is_true : Value → Bool
is_true Value.null = false
is_true (Value.text s) = not (is_empty s)
is_true (Value.bool b) = b
is_true (Value.num (pos zero)) = false
is_true (Value.num (pos (suc n))) = true
is_true (Value.num (negsuc n)) = true
is_true (Value.dict no_fields) = false
is_true (Value.dict (with_field k v f)) = true
is_true (Value.list no_elements) = false
is_true (Value.list (with_element v e)) = true
