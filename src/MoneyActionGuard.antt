-- ===== src/MoneyActionGuard.antt =====
-- src/fintech_agent/safety/money_action_guard.py: the list of actions that are never executed.
pub mod Safe
use back_office_fintech.Common.{
  String, Bool, true, false, not, Option, none, some, List, [], ◌∷◌, is_one_of, if◌then◌else◌,
}
use back_office_fintech.Common.Text.{lower, strip}

abbrev pub forbidden_actions : List String
forbidden_actions =
    "execute_refund" ∷ "update_wallet_balance" ∷ "edit_ledger" ∷ "mark_payment_success"
    ∷ "delete_transaction" ∷ "modify_refund_status" ∷ "execute_unlock_account"
    ∷ "modify_account_status" ∷ []

pub record SafetyViolation : Type 0 where
  pub action : String
  pub context : String

-- `none` is a return without an exception.
unfoldable pub guard_action : String → String → Option SafetyViolation
guard_action action_name context =
    let normalized = lower (strip action_name) in
    if is_one_of normalized forbidden_actions
    then some (record { action = normalized; context = context })
    else none

unfoldable pub guard_tool_call : String → String → Option SafetyViolation
unfolding guard_action
guard_tool_call tool_name context = guard_action tool_name context

unfoldable pub is_safe_action : String → Bool
is_safe_action action_name = not (is_one_of (lower (strip action_name)) forbidden_actions)
