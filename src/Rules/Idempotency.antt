-- ===== src/Rules/Idempotency.antt =====
-- src/fintech_agent/rules/idempotency_rules.py: the key of a draft, and the check for a duplicate.
-- SHA-256 (`hashlib`) is a parameter: only that it is a function is used.
use Prim.Native.String.{slice}
use back_office_fintech.Common.{ℕ, String, Bool, true, false, Option, none, some, [], ◌∷◌}
use back_office_fintech.Common.Text.{concat, show_ℕ}
use back_office_fintech.Schemas.Enums.{ActionType, RefundStatusValue, action_type_value}
use back_office_fintech.Schemas.Evidence.{RefundStatus}

-- The text that is hashed.
unfoldable pub idempotency_source : String → ActionType → ℕ → String
idempotency_source transaction_id action_type amount =
    concat (transaction_id ∷ ":" ∷ action_type_value action_type ∷ ":" ∷ show_ℕ amount ∷ [])

-- The digest is hexadecimal, so its first 16 bytes are its first 16 characters.
unfoldable pub generate_idempotency_key : (String → String) → String → ActionType → ℕ → String
unfolding idempotency_source
generate_idempotency_key sha256_hex transaction_id action_type amount =
    slice (sha256_hex (idempotency_source transaction_id action_type amount)) 0 16

abbrev pub is_blocked_refund : RefundStatusValue → Bool
is_blocked_refund RefundStatusValue.requested = true
is_blocked_refund RefundStatusValue.approved = true
is_blocked_refund RefundStatusValue.executed = true
is_blocked_refund _ = false

abbrev refund_is_blocked : Option RefundStatus → Bool
refund_is_blocked none = false
refund_is_blocked (some refund) = is_blocked_refund refund.refund_status

unfoldable pub is_duplicate_action : String → ActionType → ℕ → Option RefundStatus → Bool
is_duplicate_action transaction_id ActionType.create_refund_request_draft amount refund =
    refund_is_blocked refund
is_duplicate_action transaction_id _ amount refund = false
