-- ===== src/MockAuth/Agreement.antt =====
-- A session that one endpoint accepts is accepted by the other.
use back_office_fintech.Common.{
  String, true, false, Option, none, some, ◌≡◌, ◌↔◌, refl, ap, arith, str_eq_iff, Bool-cases, inl,
  inr, is_empty,
}
use back_office_fintech.Common.Text.{text_length}
use back_office_fintech.MockAuth.{
  MeResponse, MockSessionPublic, Reply, Response, Row, as_ok, get_me, has_length_within, login_by,
  me, me_by, mock_login, to_public,
}

-- What `get_me` answers for a session that it knows.
abbrev pub known_as : String → MockSessionPublic → MeResponse
known_as server s = record { session = s; is_authenticated = true; server_instance_id = server }

rows_agree :
    (server : String) (o : Option MockSessionPublic) (s : MockSessionPublic)
    → (me server o ≡ some (known_as server s)) ↔ (as_ok o ≡ some (Response.ok s))
rows_agree server none s = ((λ h. absurd (ground arith)), λ h. absurd (ground arith))
rows_agree server (some t) s = ((λ h. ground arith), λ h. ground arith)

replies_agree :
    (server : String) (r : Reply (Option Row)) (s : MockSessionPublic)
    → (me_by server r ≡ some (known_as server s)) ↔ (login_by r ≡ some (Response.ok s))
unfolding login_by
replies_agree server Reply.raised s = ((λ h. absurd (ground arith)), λ h. absurd (ground arith))
replies_agree server (Reply.answered none) s =
    ((λ h. absurd (ground arith)), λ h. absurd (ground arith))
replies_agree server (Reply.answered (some row)) s = rows_agree server (to_public row) s

empty_outside : has_length_within 1 200 "" ≡ false
unfolding has_length_within text_length
empty_outside = refl

within-named : (i : String) → has_length_within 1 200 i ≡ true → is_empty i ≡ false
within-named i h = elim (Bool-cases (is_empty i)) [
  | inr named ↦ named
  | inl empty ↦
      let same : i ≡ "" = (str_eq_iff i "").0 empty in
      absurd (ground (arith, h, ap (has_length_within 1 200) same, empty_outside))
]

-- `mock_login` accepts an identifier with a session exactly when the identifier has from 1 to 200
-- characters and `get_me` answers with that very session as authenticated. The repository is the
-- same in both.
pub mock_login-get_me_iff :
    (server : String) (get_session : String → Reply (Option Row)) (i : String)
    (s : MockSessionPublic)
    → (mock_login get_session i ≡ some (Response.ok s)) ↔ (
        (has_length_within 1 200 i ≡ true)
        × (get_me server get_session i ≡ some (known_as server s)))
unfolding get_me mock_login
mock_login-get_me_iff server get_session i s = elim (Bool-cases (has_length_within 1 200 i)) [
  | inr outside ↦ rw outside ((λ h. absurd (ground arith)), λ h. absurd (ground (arith, h)))
  | inl within ↦
      let (to, back) = replies_agree server (get_session i) s in
      rw (within, within-named i within) ((λ h. (refl, back h)), λ h. to h.1)
]
