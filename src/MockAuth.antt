-- ===== src/MockAuth.antt =====
-- src/fintech_agent/api/mock_auth.py: the login of the demo. What the repository of sessions answers is
-- an argument. `none` is a `KeyError` of a session row, which FastAPI answers with 500.
use back_office_fintech.Common.{
  ℕ, String, Bool, true, false, Option, none, some, List, [], ◌∷◌, is_empty, leb, ◌&&◌,
  if◌then◌else◌,
}
use back_office_fintech.Common.Text.{text_length}
use back_office_fintech.Common.Dict.{Dict, lookup}
pub mod Agreement

-- A call of the repository that answers, or raises.
pub data Reply {ℓ} (A : Type ℓ) : Type ℓ where
  answered : A → Reply A
  raised : Reply A

-- A response, an `HTTPException` with its code and detail, or FastAPI's 422 for a request whose fields
-- break the bounds of its model.
pub data Response {ℓ} (A : Type ℓ) : Type ℓ where
  ok : A → Response A
  refused : ℕ → String → Response A
  unprocessable : Response A

abbrev pub Row : Type 0
Row = Dict String

pub record MockSessionPublic : Type 0 where
  pub session_id : String
  pub subject_type : String
  pub display_name : String
  pub role : String

pub record MeResponse : Type 0 where
  pub session : MockSessionPublic
  pub is_authenticated : Bool
  pub server_instance_id : String

pub record CustomerLoginResponse : Type 0 where
  pub session : MockSessionPublic
  pub is_authenticated : Bool
  pub message : String

abbrev pub nobody : MockSessionPublic
nobody = record { session_id = ""; subject_type = ""; display_name = ""; role = "" }

abbrev public_of :
    Option String → Option String → Option String → Option String → Option MockSessionPublic
public_of (some i) (some t) (some n) (some r) =
    some (record { session_id = i; subject_type = t; display_name = n; role = r })
public_of _ _ _ _ = none

abbrev or_customer : Option String → Option String
or_customer none = some "customer"
or_customer (some r) = some r

-- `_to_public`
unfoldable pub to_public : Row → Option MockSessionPublic
to_public row =
    public_of (lookup "session_id" row) (lookup "subject_type" row) (lookup "display_name" row)
      (or_customer (lookup "role" row))

abbrev cons_public :
    Option MockSessionPublic → Option (List MockSessionPublic) → Option (List MockSessionPublic)
cons_public none rest = none
cons_public (some s) none = none
cons_public (some s) (some ss) = some (s ∷ ss)

unfoldable pub all_public : List Row → Option (List MockSessionPublic)
all_public [] = some []
all_public (row ∷ rows) = cons_public (to_public row) (all_public rows)

abbrev pub as_ok {ℓ} : {A : Type ℓ} → Option A → Option (Response A)
as_ok none = none
as_ok (some x) = some (Response.ok x)

unfoldable pub list_mock_sessions : Reply (List Row) → Option (Response (List MockSessionPublic))
list_mock_sessions Reply.raised = some (Response.refused 503 "Service unavailable")
list_mock_sessions (Reply.answered rows) = as_ok (all_public rows)

-- `min_length` and `max_length` of a field.
unfoldable pub has_length_within : ℕ → ℕ → String → Bool
has_length_within least most s = leb least (text_length s) && leb (text_length s) most

unfoldable pub login_by : Reply (Option Row) → Option (Response MockSessionPublic)
login_by Reply.raised = some (Response.refused 503 "Service unavailable")
login_by (Reply.answered none) =
    some (Response.refused 401 "Phiên đăng nhập không hợp lệ hoặc đã hết hạn.")
login_by (Reply.answered (some row)) = as_ok (to_public row)

-- The repository is a function of the session's identifier.
unfoldable pub mock_login :
    (String → Reply (Option Row)) → String → Option (Response MockSessionPublic)
mock_login get_session session_id =
    if has_length_within 1 200 session_id
    then login_by (get_session session_id)
    else some Response.unprocessable

abbrev not_me : String → MeResponse
not_me server = record { session = nobody; is_authenticated = false; server_instance_id = server }

abbrev pub me : String → Option MockSessionPublic → Option MeResponse
me server none = none
me server (some s) =
    some (record { session = s; is_authenticated = true; server_instance_id = server })

abbrev pub me_by : String → Reply (Option Row) → Option MeResponse
me_by server Reply.raised = some (not_me server)
me_by server (Reply.answered none) = some (not_me server)
me_by server (Reply.answered (some row)) = me server (to_public row)

unfoldable pub get_me : String → (String → Reply (Option Row)) → String → Option MeResponse
get_me server get_session session_id =
    if is_empty session_id then some (not_me server) else me_by server (get_session session_id)

abbrev login_failed : String → CustomerLoginResponse
login_failed message = record { session = nobody; is_authenticated = false; message = message }

abbrev logged_in : Option MockSessionPublic → Option (Response CustomerLoginResponse)
logged_in none = none
logged_in (some s) =
    some (Response.ok (record { session = s; is_authenticated = true; message = "" }))

-- Here the role must be in the row.
abbrev customer_by : Reply (Option Row) → Option (Response CustomerLoginResponse)
customer_by Reply.raised =
    some (Response.ok (login_failed "Hệ thống đang bận. Vui lòng thử lại sau."))
customer_by (Reply.answered none) =
    some (Response.ok (login_failed "Số điện thoại hoặc mã PIN không đúng."))
customer_by (Reply.answered (some row)) = logged_in (
    public_of (lookup "session_id" row) (lookup "subject_type" row) (lookup "display_name" row)
      (lookup "role" row))

-- The repository is a function of the phone and the PIN.
unfoldable pub customer_login :
    (String → String → Reply (Option Row))
    → String
    → String
    → Option (Response CustomerLoginResponse)
customer_login verify_pin phone pin =
    if has_length_within 4 20 phone && has_length_within 4 10 pin
    then customer_by (verify_pin phone pin)
    else some Response.unprocessable
