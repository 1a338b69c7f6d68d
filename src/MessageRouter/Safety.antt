-- ===== src/MessageRouter/Safety.antt =====
-- Messages with sensitive data.
use back_office_fintech.Common.{
  String, Bool, true, false, Option, ◌≡◌, ◌↔◌, refl, sym, ◌∙◌, arith, str_eq, str_eq_iff,
}
use back_office_fintech.Common.Text.{strip}
use back_office_fintech.Common.Dict.{Dict}
use back_office_fintech.Common.Value.{Value}
use back_office_fintech.Conversation.{ConversationState}
use back_office_fintech.MessageRouter.{
  Analysis, context_for, detect_expanded_type, route_customer_message, router_result, scope_of,
}

-- The keyword types and scopes are other texts.
others :
    (str_eq "ask_recheck" "provide_sensitive_info" ≡ false)
    × (str_eq "ask_account_status" "provide_sensitive_info" ≡ false)
    × (str_eq "customer_disagrees" "provide_sensitive_info" ≡ false)
    × (str_eq "customer_frustrated" "provide_sensitive_info" ≡ false)
    × (str_eq "ask_staff_support" "provide_sensitive_info" ≡ false)
unfolding str_eq
others = (refl, refl, refl, refl, refl)

other_scopes :
    (str_eq "in_scope" "unsafe_sensitive_info" ≡ false)
    × (str_eq "unknown" "unsafe_sensitive_info" ≡ false)
    × (str_eq "unsafe_sensitive_info" "unsafe_sensitive_info" ≡ true)
unfolding str_eq
other_scopes = (refl, refl, refl)

expanded_sensitive :
    (message base : String)
    → str_eq (detect_expanded_type message base) "provide_sensitive_info"
      ≡ str_eq base "provide_sensitive_info"
unfolding detect_expanded_type
expanded_sensitive message base = ground (arith, others)

scope_unsafe :
    (t w : String) (b : Bool)
    → str_eq (scope_of t w b) "unsafe_sensitive_info" ≡ str_eq t "provide_sensitive_info"
unfolding scope_of
scope_unsafe t w b = ground (arith, other_scopes)

-- A message is out of scope as unsafe exactly when the analyser finds sensitive data in it: whatever
-- keywords it has, they neither hide such a message nor make another one unsafe.
pub route_customer_message-unsafe_iff :
    (lower : String → String) (analyze : String → Option (Dict Value) → Analysis)
    (conversation : Option ConversationState) (message : String) (context : Option (Dict Value))
    → ((route_customer_message lower analyze conversation message context).scope
        ≡ "unsafe_sensitive_info")
      ↔ ((analyze message (context_for context conversation)).message_type
          ≡ "provide_sensitive_info")
unfolding route_customer_message router_result
route_customer_message-unsafe_iff lower analyze conversation message context =
    let a = analyze message (context_for context conversation) in
    let t = detect_expanded_type (strip (lower message)) a.message_type in
    let same =
      scope_unsafe t _ a.belongs_to_active_case
      ∙ expanded_sensitive (strip (lower message)) a.message_type in
    (
      λ h.
          (str_eq_iff a.message_type "provide_sensitive_info").0
            (sym same ∙ (str_eq_iff _ "unsafe_sensitive_info").1 h),
      λ h.
          (str_eq_iff _ "unsafe_sensitive_info").0
            (same ∙ (str_eq_iff a.message_type "provide_sensitive_info").1 h),
    )
