-- ===== src/Web/Access.antt =====
-- Who may call the pages that administrate the users.
use espidf_component_webmana.Prelude.{
  ℕ, ◌+◌, ◌<◌, ◌^◌, ◌≡◌, ◌⊎◌, refl, inl, inr, true, Option, none, some, List, arith, All, get_elem?,
  Option-cases,
}
use espidf_component_webmana.Prelude.Text.{Bytes, c_str}
use espidf_component_webmana.Esp.{esp_fail}
use espidf_component_webmana.Constants.{session_max_age_us}
use espidf_component_webmana.Sessions.{
  Session, extract_session_token, validate_session_token, validate_loop,
}
use espidf_component_webmana.Sessions.Slots.{IsClocked}
use espidf_component_webmana.Sessions.Validate.{IsLive, Admits, validate_loop-Admits}
use espidf_component_webmana.Users.Record.{admin, has_role}
use espidf_component_webmana.Users.Platform.{Platform}
use espidf_component_webmana.Web.Http.{Request, Reply, error, Answer, Server}
use espidf_component_webmana.Web.Login.{Access, granted, denied, require_role}
use espidf_component_webmana.Web.Admin.{
  handle_admin_users_get, handle_admin_users_post, handle_admin_users_delete_post,
}

-- The request carries the token of a session that has not expired and holds the role.
pub record IsAuthorised (req : Request) (role now : ℕ) (ss : List Session) : Type 0 where
  pub token : Bytes
  pub slot : ℕ
  pub session : Session
  pub sent : extract_session_token (c_str req.cookie.1) ≡ some token
  pub here : get_elem? ss slot ≡ some session
  pub live : IsLive token now session
  pub permitted : has_role session.roles role ≡ true

-- A live session behind an answer.
abbrev pub Holder : Bytes → ℕ → List Session → Bytes → ℕ → Type 0
Holder token now ss username roles =
    (i : ℕ) × (s : Session) × (get_elem? ss i ≡ some s)
    × IsLive token now s
    × (s.username ≡ username)
    × (s.roles ≡ roles)

Admits-Holder :
    (token : Bytes) (now : ℕ) (ss : List Session) (r : Option (Bytes × ℕ) × List Session)
    (username : Bytes) (roles : ℕ)
    → Admits token now ss r
    → r.0 ≡ some (username, roles)
    → Holder token now ss username roles
Admits-Holder token now ss (none, ss') username roles a e = absurd (cc)
Admits-Holder token now ss (some (u, r), ss') username roles (i, s, g, l, eu, er, q) e =
    (i, s, g, l, cc, cc)

pub validate_session_token-Holder :
    (header : Bytes) (now : ℕ) (ss : List Session) (username : Bytes) (roles : ℕ)
    → now + session_max_age_us < 2 ^ 63
    → All IsClocked ss
    → (validate_session_token header now ss).0 ≡ some (username, roles)
    → (token : Bytes) × (extract_session_token header ≡ some token)
      × Holder token now ss username roles
unfolding validate_session_token
validate_session_token-Holder header now ss username roles h c e =
    elim (Option-cases (extract_session_token header)) [
      | inl missing ↦ ground arith
      | inr (token, found) ↦ (
        token,
        found,
        Admits-Holder token now ss (validate_loop token now ss) username roles
            (validate_loop-Admits token now ss h c) (ground arith),
      )
    ]

-- What is granted is granted to an authorised request.
require_role-IsAuthorised :
    (req : Request) (role now : ℕ) (ss : List Session) {username : Bytes}
    → now + session_max_age_us < 2 ^ 63
    → All IsClocked ss
    → (require_role req role now ss).0 ≡ granted username
    → IsAuthorised req role now ss
unfolding require_role
require_role-IsAuthorised req role now ss h c e =
    elim (Option-cases ((validate_session_token (c_str req.cookie.1) now ss).0)) [
      | inl missing ↦ ground arith
      | inr ((u, roles), found) ↦
          let (token, sent, (i, s, here, live, same_name, same)) =
            validate_session_token-Holder (c_str req.cookie.1) now ss u roles h c found in
          record {
            token = token;
            slot = i;
            session = s;
            sent = sent;
            here = here;
            live = live;
            permitted = ground arith;
          }
    ]

Access-cases : (a : Access) → ((r : Reply) × (a ≡ denied r)) ⊎ ((u : Bytes) × (a ≡ granted u))
Access-cases (denied r) = inl (r, refl)
Access-cases (granted u) = inr (u, refl)

-- The two error pages of a refusal, and nothing else.
abbrev pub IsRefusal : Answer → Type 0
IsRefusal answer =
    (answer ≡ record { ret = esp_fail; reply = error 401 "Authentication required" })
    ⊎ (answer ≡ record { ret = esp_fail; reply = error 403 "Forbidden" })

-- The request is authorised, or it is refused and no user record changes.
abbrev pub Guards : {p : Platform} → Request → ℕ → Server p → Answer × Server p → Type 0
Guards req now s (answer, s') =
    IsAuthorised req admin now s.sessions ⊎ (IsRefusal answer × (s'.world ≡ s.world))

-- Each page that shows, creates, changes or deletes users does so only for a request with the token
-- of a session that has not expired and holds the role Admin. All that any other request is answered
-- with is the error 401 or 403, with ESP_FAIL, so it shows no user, and it changes no file. The clock
-- and the expiries are times of an int64_t.
pub admin_pages-Guards :
    (p : Platform) (req : Request) (now : ℕ) (s : Server p)
    → now + session_max_age_us < 2 ^ 63
    → All IsClocked s.sessions
    → Guards req now s (handle_admin_users_get req now s)
      × (Guards req now s (handle_admin_users_post req now s)
          × Guards req now s (handle_admin_users_delete_post req now s))
unfolding handle_admin_users_get handle_admin_users_post handle_admin_users_delete_post
admin_pages-Guards p req now s h c =
    elim (Access-cases ((require_role req admin now s.sessions).0)) [
      | inl (r, refused) ↦ (inr (ground arith), (inr (ground arith), inr (ground arith)))
      | inr (u, allowed) ↦
          let ok = require_role-IsAuthorised req admin now s.sessions h c allowed in
          (inl ok, (inl ok, inl ok))
    ]
