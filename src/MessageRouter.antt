-- ===== src/MessageRouter.antt =====
-- src/fintech_agent/api/message_router.py: the kind of a customer's message. The message analyser of the
-- language model layer and `str.lower`, with the letters of Vietnamese, are arguments.
pub mod Safety
use back_office_fintech.Common.{
  String, Bool, true, false, not, ◌&&◌, ◌||◌, Option, none, some, List, [], ◌∷◌, is_empty,
  is_one_of, str_eq, if◌then◌else◌,
}
use back_office_fintech.Common.Text.{has_substring, strip}
use back_office_fintech.Common.Dict.{Dict, insert, lookup}
use back_office_fintech.Common.Value
use back_office_fintech.Common.Value.{Value}
use back_office_fintech.Conversation.{ConversationState}
use back_office_fintech.Conversation.Session.{to_active_case_context}

-- What the analyser returns.
pub record Analysis : Type 0 where
  pub message_type : String
  pub workflow_hint : Option String
  pub belongs_to_active_case : Bool
  pub extracted : Option (Dict Value)
  pub is_correction : Bool
  pub customer_emotion : Option String
  pub customer_goal : Option String

pub record RouterResult : Type 0 where
  pub scope : String
  pub message_type : String
  pub workflow_hint : String
  pub belongs_to_active_case : Bool
  pub customer_claims : Dict Value
  pub customer_emotion : String
  pub customer_goal : String
  pub is_correction : Bool

abbrev recheck_keywords : List String
recheck_keywords =
    "kiểm tra lại" ∷ "check lại" ∷ "xem lại" ∷ "chưa được" ∷ "vẫn chưa" ∷ "kiểm tra giúp lại"
    ∷ "thử lại" ∷ "recheck" ∷ []

abbrev account_status_keywords : List String
account_status_keywords =
    "tài khoản tôi bị gì" ∷ "tài khoản đang sao" ∷ "tại sao bị khóa" ∷ "lý do khóa" ∷ "sao bị khóa"
    ∷ "account status" ∷ []

abbrev disagree_keywords : List String
disagree_keywords =
    "không phải" ∷ "sai rồi" ∷ "tôi không đồng ý" ∷ "bạn sai" ∷ "không đúng" ∷ "nhầm rồi" ∷ []

abbrev frustrated_keywords : List String
frustrated_keywords =
    "quá lâu" ∷ "tức quá" ∷ "vô lý" ∷ "không chấp nhận" ∷ "mệt quá" ∷ "tệ quá" ∷ "terrible" ∷ []

abbrev staff_keywords : List String
staff_keywords =
    "gặp nhân viên" ∷ "nối máy" ∷ "chuyển nhân viên" ∷ "human agent" ∷ "speak to agent"
    ∷ "talk to agent" ∷ []

unfoldable pub mentions : List String → String → Bool
mentions [] message = false
mentions (k ∷ ks) message = has_substring k message || mentions ks message

unfoldable pub detect_expanded_type : String → String → String
detect_expanded_type message base_type =
    if str_eq base_type "provide_sensitive_info"
    then base_type
    else if mentions recheck_keywords message
    then "ask_recheck"
    else if mentions account_status_keywords message
    then "ask_account_status"
    else if mentions disagree_keywords message
    then "customer_disagrees"
    else if mentions frustrated_keywords message
    then "customer_frustrated"
    else if mentions staff_keywords message
    then "ask_staff_support"
    else base_type

-- `value or default`
abbrev or_default : Option String → String → String
or_default none d = d
or_default (some s) d = if is_empty s then d else s

unfoldable pub scope_of : String → String → Bool → String
scope_of message_type workflow_hint belongs =
    if str_eq message_type "provide_sensitive_info"
    then "unsafe_sensitive_info"
    else if is_one_of message_type ("greeting" ∷ "thank_you" ∷ [])
    then "in_scope"
    else if str_eq workflow_hint "unknown" && not belongs
    then "unknown"
    else "in_scope"

abbrev claim_attributes : List String
claim_attributes =
    "transaction_id" ∷ "order_id" ∷ "bill_code" ∷ "customer_code" ∷ "amount" ∷ "bank_name"
    ∷ "bank_reference" ∷ "approximate_time_text" ∷ "approximate_date_text" ∷ "service_type"
    ∷ "issue_type" ∷ "payout_id" ∷ "batch_id" ∷ "settlement_date" ∷ "merchant_id" ∷ "merchant_name"
    ∷ "tax_code" ∷ "phone" ∷ "email" ∷ []

-- `val is not None and val != "" and val != "unknown"`
unfoldable pub is_claimed : Value → Bool
is_claimed Value.null = false
is_claimed (Value.text s) = not (is_one_of s ("" ∷ "unknown" ∷ []))
is_claimed (Value.bool _) = true
is_claimed (Value.num _) = true
is_claimed (Value.dict _) = true
is_claimed (Value.list _) = true

abbrev put_claim : String → Option Value → Dict Value → Dict Value
put_claim key none claims = claims
put_claim key (some v) claims = if is_claimed v then insert key v claims else claims

unfoldable pub collect_claims : List String → Dict Value → Dict Value → Dict Value
collect_claims [] extracted claims = claims
collect_claims (k ∷ ks) extracted claims =
    collect_claims ks extracted (put_claim k (lookup k extracted) claims)

abbrev claims_of : Option (Dict Value) → Dict Value
claims_of none = []
claims_of (some extracted) = collect_claims claim_attributes extracted []

-- The context for the analyser: the given one, else that of the conversation.
unfoldable pub context_for : Option (Dict Value) → Option ConversationState → Option (Dict Value)
context_for (some context) conversation = some context
context_for none none = none
context_for none (some s) = some (to_active_case_context s)

unfoldable pub router_result : (String → String) → String → Analysis → RouterResult
router_result lower latest_message a =
    let message_type = detect_expanded_type (strip (lower latest_message)) a.message_type in
    let workflow_hint = or_default a.workflow_hint "unknown" in
    record {
      scope = scope_of message_type workflow_hint a.belongs_to_active_case;
      message_type = message_type;
      workflow_hint = workflow_hint;
      belongs_to_active_case = a.belongs_to_active_case;
      customer_claims = claims_of a.extracted;
      customer_emotion = or_default a.customer_emotion "neutral";
      customer_goal = or_default a.customer_goal "";
      is_correction =
          str_eq message_type "correct_previous_info"
          || str_eq a.message_type "correct_previous_info"
          || a.is_correction;
    }

unfoldable pub route_customer_message :
    (String → String)
    → (String → Option (Dict Value) → Analysis)
    → Option ConversationState
    → String
    → Option (Dict Value)
    → RouterResult
route_customer_message lower analyze conversation latest_message active_case_context =
    router_result lower latest_message
      (analyze latest_message (context_for active_case_context conversation))
