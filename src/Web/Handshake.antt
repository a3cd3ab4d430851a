-- ===== src/Web/Handshake.antt =====
-- Who opens a websocket, and with which roles.
use espidf_component_webmana.Prelude.{
  ℕ, ◌+◌, ◌<◌, ◌^◌, ◌≡◌, ◌⊎◌, refl, inl, inr, true, Option, some, List, All, Option-cases,
  Bool-cases, ◌==◌, not,
}
use espidf_component_webmana.Prelude.Text.{Bytes, c_str}
use espidf_component_webmana.Esp.{esp_ok, esp_fail}
use espidf_component_webmana.Constants.{session_max_age_us}
use espidf_component_webmana.Sessions.{extract_session_token, validate_session_token}
use espidf_component_webmana.Sessions.Slots.{IsClocked}
use espidf_component_webmana.Web.Http.{Reply, error}
use espidf_component_webmana.Web.Access.{Holder, validate_session_token-Holder}
use espidf_component_webmana.Web.Socket.{
  Httpd, Link, Plugin, SocketRequest, open_websocket, handle_webmanager_ws,
}

-- The request's token is that of a session that has not expired, whose user and roles the websocket
-- has from then on; or the handshake is refused, and both stay as they were.
abbrev pub Opens : {h : Httpd} → SocketRequest → ℕ → Link h → ℕ × Option Reply × Link h → Type 0
Opens req now s (ret, reply, s') =
    ((ret ≡ esp_ok)
      × (token : Bytes) × (extract_session_token (c_str req.cookie.1) ≡ some token)
      × Holder token now s.sessions s'.current_ws_username s'.current_ws_roles)
    ⊎ ((ret ≡ esp_fail)
        × (reply ≡ some (error 401 "Authentication required"))
        × (s'.current_ws_username ≡ s.current_ws_username)
        × (s'.current_ws_roles ≡ s.current_ws_roles))

open_websocket-Opens :
    (h : Httpd) (req : SocketRequest) (now : ℕ) (s : Link h)
    → now + session_max_age_us < 2 ^ 63
    → All IsClocked s.sessions
    → Opens req now s (open_websocket req now s)
unfolding open_websocket
open_websocket-Opens h req now s t c = elim (Bool-cases (not (req.cookie.0 == esp_ok))) [
  | inl absent ↦ rw absent (inr (refl, refl, refl, refl))
  | inr present ↦
      elim (Option-cases ((validate_session_token (c_str req.cookie.1) now s.sessions).0)) [
        | inl refused ↦ rw (present, refused) (inr (refl, refl, refl, refl))
        | inr ((username, roles), found) ↦
            let (token, sent, holder) =
              validate_session_token-Holder (c_str req.cookie.1) now s.sessions username roles t c
                found in
            rw (present, found) (inl (refl, token, sent, holder))
      ]
]

-- A websocket is opened only with the token of a session that has not expired, and then acts with
-- the user and the roles of that session. A handshake that is refused is answered with 401 and
-- changes neither. The clock and the expiries are times of an int64_t.
pub handle_webmanager_ws-Opens :
    (h : Httpd) (own : Plugin h) (plugins : List (Plugin h)) (req : SocketRequest) (now : ℕ)
    (s : Link h)
    → req.is_get ≡ true
    → now + session_max_age_us < 2 ^ 63
    → All IsClocked s.sessions
    → Opens req now s (handle_webmanager_ws own plugins req now s)
unfolding handle_webmanager_ws
handle_webmanager_ws-Opens h own plugins req now s g t c =
    rw g (open_websocket-Opens h req now s t c)
