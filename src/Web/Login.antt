-- ===== src/Web/Login.antt =====
-- cpp/webmanager_base.hh: `require_role`, `handle_login_post`, `handle_logout_post` and
-- `handle_webmanager_get`. `now` is esp_timer_get_time() where the handler reads it.
use espidf_component_webmana.Prelude.{
  ℕ, not, Option, none, some, List, [], ◌∷◌, ◌==◌, if◌then◌else◌,
}
use espidf_component_webmana.Prelude.Text.{Bytes, codes, c_str}
use espidf_component_webmana.Esp.{esp_ok, esp_fail}
use espidf_component_webmana.Sessions.{
  Session, create_session, extract_session_token, validate_session_token,
  invalidate_session_by_token,
}
use espidf_component_webmana.Users.Record.{StoredUser, has_role}
use espidf_component_webmana.Users.Form.{find_field}
use espidf_component_webmana.Users.Platform.{Platform}
use espidf_component_webmana.Users.Store.{validate_credentials_and_load}
use espidf_component_webmana.Web.Http.{
  Request, Reply, error, see_other, login_form, login_failed, web_app, Answer, Server,
  set_session_cookies,
}

-- `outUsername`, or the answer that was sent where `require_role` is false.
pub data Access : Type 0 where
  granted : Bytes → Access
  denied : Reply → Access

unfoldable pub require_role : Request → ℕ → ℕ → List Session → Access × List Session
unfolding c_str has_role
require_role req required now ss =
    let (err, cookie) = req.cookie in
    if not (err == esp_ok)
    then (denied (error 401 "Authentication required"), ss)
    else (let (found, ss') = validate_session_token (c_str cookie) now ss in
        elim found [
          | none ↦ (denied (error 401 "Authentication required"), ss')
          | some (username, roles) ↦
              if not (has_role roles required)
              then (denied (error 403 "Forbidden"), ss')
              else (granted username, ss')
        ])

-- The fields of the login form.
pub data LoginForm : Type 0 where
  invalid_request missing_credentials : LoginForm
  credentials : (username password : Bytes) → LoginForm

unfoldable pub read_login_form : Request → LoginForm
unfolding c_str find_field
read_login_form req =
    let (recv_len, received) = req.body 255 in
    let buf = c_str received in
    if recv_len == 0 then invalid_request else elim (find_field (codes "username=") buf) [
      | none ↦ missing_credentials
      | some username ↦ elim (find_field (codes "password=") buf) [
        | none ↦ missing_credentials
        | some password ↦ credentials username password
      ]
    ]

-- The session that the cookie names is ended.
unfoldable pub end_session : Request → List Session → List Session
unfolding c_str extract_session_token invalidate_session_by_token
end_session req ss =
    let (err, cookie) = req.cookie in
    if not (err == esp_ok) then ss else elim (extract_session_token (c_str cookie)) [
      | none ↦ ss
      | some token ↦ invalidate_session_by_token token ss
    ]

-- The cookie's text, that of `extract_session_token` where there is a token.
abbrev token_of : Bytes → Bytes
token_of cookie = elim (extract_session_token cookie) [ none ↦ [] | some token ↦ token ]

module _ {p : Platform} where
  -- The branches on the answer of `validate_credentials_and_load`. The token's bytes are those of
  -- esp_fill_random.
  unfoldable pub log_in : Option StoredUser → ℕ → Server p → Answer × Server p
  unfolding set_session_cookies create_session
  log_in none now s = (record { ret = esp_ok; reply = login_failed }, s)
  log_in (some user) now s =
      let (random, w) = p.fill_random s.world in
      let (token, ss) = create_session user random now s.sessions in
      (
        record { ret = esp_ok; reply = see_other (set_session_cookies token user.username) },
        record s { sessions = ss; world = w },
      )

  unfoldable pub handle_login_post : Request → ℕ → Server p → Answer × Server p
  unfolding read_login_form log_in validate_credentials_and_load
  handle_login_post req now s = elim (read_login_form req) [
    | invalid_request ↦ (record { ret = esp_fail; reply = error 400 "Invalid request" }, s)
    | missing_credentials ↦ (record { ret = esp_fail; reply = error 400 "Missing credentials" }, s)
    | credentials username password ↦
        log_in (validate_credentials_and_load p username password s.world) now s
  ]

  unfoldable pub handle_logout_post : Request → Server p → Answer × Server p
  unfolding end_session
  handle_logout_post req s = (
    record {
      ret = esp_ok;
      reply = see_other (
          codes
            "session=; Path=/; HttpOnly; Secure; SameSite=Strict; Expires=Thu, 01 Jan 1970 00:00:00 GMT"
          ∷ codes
              "username=; Path=/; Secure; SameSite=Strict; Expires=Thu, 01 Jan 1970 00:00:00 GMT"
          ∷ []);
    },
    record s { sessions = end_session req s.sessions },
  )

  unfoldable pub handle_webmanager_get : Request → ℕ → Server p → Answer × Server p
  unfolding c_str set_session_cookies validate_session_token
  handle_webmanager_get req now s =
      let (err, cookie) = req.cookie in
      if not (err == esp_ok)
      then (record { ret = esp_ok; reply = login_form }, s)
      else (let (found, ss) = validate_session_token (c_str cookie) now s.sessions in
          elim found [
            | none ↦ (record { ret = esp_ok; reply = login_form }, record s { sessions = ss })
            | some (username, roles) ↦ (
              record {
                ret = esp_ok;
                reply = web_app (set_session_cookies (token_of (c_str cookie)) username);
              },
              record s { sessions = ss },
            )
          ])
