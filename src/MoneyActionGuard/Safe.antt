-- ===== src/MoneyActionGuard/Safe.antt =====
-- What the guard lets through.
use back_office_fintech.Common.{String, true, false, none, some, List, [], ◌∷◌, ◌≡◌, ◌↔◌, arith}
use back_office_fintech.Common.Text.{lower, strip}
use back_office_fintech.MoneyActionGuard.{guard_action, guard_tool_call, is_safe_action}

safe-guard :
    (name context : String) → is_safe_action name ≡ true → guard_tool_call name context ≡ none
unfolding is_safe_action guard_tool_call guard_action
safe-guard name context h = ground arith

guard-safe :
    (name context : String) → guard_tool_call name context ≡ none → is_safe_action name ≡ true
unfolding is_safe_action guard_tool_call guard_action
guard-safe name context h = ground arith

-- The guard of a tool call returns exactly on the names that `is_safe_action` accepts.
pub guard_tool_call-none_iff :
    (name context : String) → (guard_tool_call name context ≡ none) ↔ (is_safe_action name ≡ true)
guard_tool_call-none_iff name context = (guard-safe name context, safe-guard name context)

-- The actions that move money or change the state of an account or of a transaction.
abbrev pub money_actions : List String
money_actions =
    "execute_refund" ∷ "update_wallet_balance" ∷ "edit_ledger" ∷ "mark_payment_success"
    ∷ "delete_transaction" ∷ "modify_refund_status" ∷ "execute_unlock_account"
    ∷ "modify_account_status" ∷ []

-- The guard and the test of a name say the same.
abbrev pub Refuses : String → String → Type 0
Refuses name context =
    (is_safe_action name ≡ false)
    × (guard_tool_call name context
        ≡ some (record { action = lower (strip name); context = context }))

abbrev pub Admits : String → String → Type 0
Admits name context = (is_safe_action name ≡ true) × (guard_tool_call name context ≡ none)
