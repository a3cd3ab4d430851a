-- ===== src/Web/Http.antt =====
-- What the pages read of a request and send back, and the state they share: the part of
-- aWebmanagerBase that holds the sessions, the user records and the bootstrap credentials.
use espidf_component_webmana.CLib.{decimal}
use espidf_component_webmana.Prelude.{ℕ, ◌/◌, List, [], ◌∷◌, ◌++◌, take}
use espidf_component_webmana.Prelude.Text.{Bytes, codes}
use espidf_component_webmana.Constants.{session_max_age_us}
use espidf_component_webmana.Sessions.{Session}
use espidf_component_webmana.Users.Platform.{Platform}
use Prim.Native.String.{String}

-- The error code of httpd_req_get_hdr_value_str for "Cookie", with its buffer of 256 bytes; and the
-- result of httpd_req_recv as a size_t, with the buffer of that capacity, which held zeros before.
pub record Request : Type 0 where
  pub cookie : ℕ × Bytes
  pub body : ℕ → ℕ × Bytes

pub data Reply : Type 0 where
  -- httpd_resp_send_err
  error : (status : ℕ) (message : String) → Reply
  -- 303 See Other to "/", with the values of its Set-Cookie headers
  see_other : (set_cookies : List Bytes) → Reply
  text : Bytes → Reply
  login_form login_failed : Reply
  -- webmanager_html_br, with its Set-Cookie headers
  web_app : (set_cookies : List Bytes) → Reply

-- What a handler returns to the web server, and what it has sent.
pub record Answer : Type 0 where
  pub ret : ℕ
  pub reply : Reply

pub record Server (p : Platform) : Type 0 where
  pub sessions : List Session
  pub world : p.World
  pub bootstrap_admin_username : Bytes
  pub bootstrap_admin_password : Bytes

-- `maxAgeSeconds`, printed.
unfoldable pub max_age : Bytes
unfolding decimal
max_age = decimal 20 (session_max_age_us / 1_000_000)

-- The two cookie headers, each cut to its buffer of 160 bytes.
unfoldable pub set_session_cookies : Bytes → Bytes → List Bytes
unfolding max_age
set_session_cookies token username =
    take 159 (
      codes "session="
      ++ token
      ++ codes "; Path=/; Max-Age="
      ++ max_age
      ++ codes "; HttpOnly; Secure; SameSite=Strict")
    ∷ take 159 (
        codes "username="
        ++ username
        ++ codes "; Path=/; Max-Age="
        ++ max_age
        ++ codes "; Secure; SameSite=Strict")
    ∷ []
