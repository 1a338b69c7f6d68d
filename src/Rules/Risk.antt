-- ===== src/Rules/Risk.antt =====
-- src/fintech_agent/rules/risk_rules.py: how risky an action is, and whether it wants an approval.
use back_office_fintech.Common.{ℕ, Bool, true, false, leb, if◌then◌else◌}
use back_office_fintech.Schemas.Enums.{ActionType, RiskLevel}

-- In VND.
abbrev pub high_risk_threshold : ℕ
high_risk_threshold = 2000000

unfoldable pub classify_risk : ActionType → ℕ → RiskLevel
classify_risk ActionType.create_refund_request_draft amount =
    if leb high_risk_threshold amount then RiskLevel.high else RiskLevel.medium
classify_risk ActionType.create_force_success_draft amount = RiskLevel.high
classify_risk ActionType.create_unlock_account_draft amount = RiskLevel.high
classify_risk ActionType.create_request_documents_response_draft amount = RiskLevel.high
classify_risk ActionType.manual_review amount = RiskLevel.high
classify_risk _ amount = RiskLevel.low

abbrev is_above_low : RiskLevel → Bool
is_above_low RiskLevel.medium = true
is_above_low RiskLevel.high = true
is_above_low RiskLevel.critical = true
is_above_low RiskLevel.low = false

unfoldable pub requires_approval : ActionType → ℕ → Bool
unfolding classify_risk
requires_approval action amount = is_above_low (classify_risk action amount)
