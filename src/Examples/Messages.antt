-- ===== src/Examples/Messages.antt =====
-- The theorems on the message router and on the login, applied.
use back_office_fintech.Common.{
  String, true, false, Option, none, some, [], ◌∷◌, ◌≡◌, ◌↔◌, refl, str_eq,
}
use back_office_fintech.Common.Dict.{Dict, lookup}
use back_office_fintech.Common.Value.{Value}
use back_office_fintech.MessageRouter.{Analysis, context_for, route_customer_message}
use back_office_fintech.MessageRouter.Safety.{route_customer_message-unsafe_iff}
use back_office_fintech.MockAuth.{
  MockSessionPublic, Reply, Response, Row, get_me, has_length_within, mock_login, to_public,
}
use back_office_fintech.MockAuth.Agreement.{known_as, mock_login-get_me_iff}

-- Every message has a password in it.
abbrev sensitive : String → Option (Dict Value) → Analysis
sensitive message context = record {
  message_type = "provide_sensitive_info";
  workflow_hint = some "wallet_topup";
  belongs_to_active_case = false;
  extracted = none;
  is_correction = false;
  customer_emotion = none;
  customer_goal = none;
}

route_customer_message-unsafe_iff_example :
    ((route_customer_message (λ s. s) sensitive none "kiểm tra lại, mã PIN 1234" none).scope
      ≡ "unsafe_sensitive_info")
    ↔ ((sensitive "kiểm tra lại, mã PIN 1234" (context_for none none)).message_type
        ≡ "provide_sensitive_info")
route_customer_message-unsafe_iff_example =
    route_customer_message-unsafe_iff (λ s. s) sensitive none "kiểm tra lại, mã PIN 1234" none

-- A row without a role: it is a customer's.
abbrev session_row : Row
session_row = ("session_id", "S1") ∷ ("subject_type", "wallet_user") ∷ ("display_name", "An") ∷ []

abbrev only_session : String → Reply (Option Row)
only_session i = Reply.answered (some session_row)

abbrev session_s1 : MockSessionPublic
session_s1 = record {
  session_id = "S1";
  subject_type = "wallet_user";
  display_name = "An";
  role = "customer";
}

mock_login-get_me_iff_example : (mock_login only_session "S1" ≡ some (Response.ok session_s1)) ↔ (
    (has_length_within 1 200 "S1" ≡ true)
    × (get_me "server-1" only_session "S1" ≡ some (known_as "server-1" session_s1)))
mock_login-get_me_iff_example = mock_login-get_me_iff "server-1" only_session "S1" session_s1

-- Both sides hold.
session_s1_known : get_me "server-1" only_session "S1" ≡ some (known_as "server-1" session_s1)
unfolding get_me to_public lookup str_eq
session_s1_known = refl
