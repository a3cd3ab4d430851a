-- ===== src/Web/Admin.antt =====
-- cpp/webmanager_base.hh: `handle_admin_users_get`, `handle_admin_users_post` and
-- `handle_admin_users_delete_post`.
use Prim.Native.String.{String}
use espidf_component_webmana.Prelude.{
  ℕ, ◌/◌, ◌%◌, Bool, true, false, not, ◌&&◌, Option, none, some, List, [], ◌∷◌, ◌++◌, ◌==◌, leb,
  ltb, if◌then◌else◌, length, take,
}
use espidf_component_webmana.Prelude.Text.{Bytes, codes, c_str}
use espidf_component_webmana.Prelude.Word.{add32}
use espidf_component_webmana.Esp.{esp_ok, esp_fail}
use espidf_component_webmana.Hex.{hex_digit}
use espidf_component_webmana.Sessions.{invalidate_all_sessions_for_user}
use espidf_component_webmana.Users.Record.{StoredUser, admin, has_role}
use espidf_component_webmana.Users.Form.{find_field}
use espidf_component_webmana.Users.Secrets.{parse_roles_csv}
use espidf_component_webmana.Users.Platform.{Platform}
use espidf_component_webmana.Users.Store.{
  is_valid_username, load_user, save_user, delete_user, list_usernames, is_admin, count_admins,
  new_user,
}
use espidf_component_webmana.Web.Http.{Request, error, text, Answer, Server}
use espidf_component_webmana.Web.Login.{granted, denied, require_role}

-- snprintf(line, 128, "%s\troles=0x%02x\n", …)
unfoldable pub user_line : StoredUser → Bytes
unfolding hex_digit
user_line u = take 127 (
    u.username
    ++ codes "\troles=0x"
    ++ (hex_digit (u.roles / 16) ∷ hex_digit (u.roles % 16) ∷ codes "\n"))

-- The fields of the form that creates or updates a user.
pub data UserForm : Type 0 where
  rejected : String → UserForm
  fields : (username password roles_str : Bytes) → UserForm

unfoldable pub read_user_form : Request → UserForm
unfolding c_str find_field
read_user_form req =
    let (recv_len, received) = req.body 255 in
    let buf = c_str received in
    if recv_len == 0
    then rejected "Invalid request"
    else elim (find_field (codes "username=") buf) [
      | none ↦ rejected "Missing username/password"
      | some username ↦ elim (find_field (codes "password=") buf) [
        | none ↦ rejected "Missing username/password"
        | some password ↦
            fields username password
              (elim (find_field (codes "roles=") buf) [ none ↦ [] | some r ↦ r ])
      ]
    ]

pub data DeleteForm : Type 0 where
  refused : String → DeleteForm
  target : Bytes → DeleteForm

unfoldable pub read_delete_form : Request → DeleteForm
unfolding c_str find_field
read_delete_form req =
    let (recv_len, received) = req.body 127 in
    if recv_len == 0
    then refused "Invalid request"
    else elim (find_field (codes "username=") (c_str received)) [
      | none ↦ refused "Missing username"
      | some username ↦ target username
    ]

unfoldable pub user_lines : (p : Platform) → List Bytes → p.World → Bytes
unfolding user_line load_user
user_lines p [] w = []
user_lines p (name ∷ names) w =
    let rest = user_lines p names w in
    elim (load_user p name w) [ none ↦ rest | some u ↦ user_line u ++ rest ]

-- An ESP_FAIL, with a 400 that is already sent.
abbrev pub bad_request : String → Answer
bad_request message = record { ret = esp_fail; reply = error 400 message }

-- `epoch`: a uint32_t that wraps.
unfoldable pub next_epoch : Option StoredUser → ℕ
unfolding add32
next_epoch none = 0
next_epoch (some existing) = add32 existing.epoch 1

abbrev pub exists : Option StoredUser → Bool
exists none = false
exists (some existing) = true

module _ {p : Platform} where
  unfoldable pub handle_admin_users_get : Request → ℕ → Server p → Answer × Server p
  unfolding require_role user_lines list_usernames
  handle_admin_users_get req now s =
      let (access, ss) = require_role req admin now s.sessions in
      elim access [
        | denied reply ↦ (record { ret = esp_fail; reply = reply }, record s { sessions = ss })
        | granted admin_username ↦ (
          record { ret = esp_ok; reply = text (user_lines p (list_usernames p s.world) s.world) },
          record s { sessions = ss },
        )
      ]

  -- From `StoredUser user;` on: the record is built and saved, and its sessions are revoked.
  unfoldable pub store_user :
      Option StoredUser → (username password : Bytes) (roles : ℕ) → Server p → Answer × Server p
  unfolding next_epoch new_user save_user
  store_user existing username password roles s =
      let (user, w₁) = new_user p username password roles (next_epoch existing) s.world in
      let (saved, w₂) = save_user p user w₁ in
      if not saved
      then (
        record { ret = esp_fail; reply = error 500 "Failed to save user" },
        record s { world = w₂ },
      )
      else (
        record { ret = esp_ok; reply = text (codes "OK") },
        record s {
          world = w₂;
          sessions =
              if exists existing
              then invalidate_all_sessions_for_user username s.sessions
              else s.sessions;
        },
      )

  -- From the checks of the fields on.
  unfoldable pub update_user : (username password roles_str : Bytes) → Server p → Answer × Server p
  unfolding store_user parse_roles_csv count_admins has_role
  update_user username password roles_str s =
      let roles = parse_roles_csv roles_str in
      if not (is_valid_username username)
      then (bad_request "Invalid username (only a-zA-Z0-9_- allowed)", s)
      else if ltb (length password) 8
      then (bad_request "Password too short (min. 8 characters)", s)
      else if is_admin p username s.world
          && not (has_role roles admin)
          && leb (count_admins p s.world) 1
      then (bad_request "Cannot remove the Admin role from the last remaining admin user", s)
      else store_user (load_user p username s.world) username password roles s

  unfoldable pub handle_admin_users_post : Request → ℕ → Server p → Answer × Server p
  unfolding require_role read_user_form update_user
  handle_admin_users_post req now s =
      let (access, ss) = require_role req admin now s.sessions in
      let s₁ = record s { sessions = ss } in
      elim access [
        | denied reply ↦ (record { ret = esp_fail; reply = reply }, s₁)
        | granted admin_username ↦ elim (read_user_form req) [
          | rejected message ↦ (bad_request message, s₁)
          | fields username password roles_str ↦ update_user username password roles_str s₁
        ]
      ]

  -- From `StoredUser target;` on.
  unfoldable pub remove_user : Bytes → Server p → Answer × Server p
  unfolding count_admins delete_user
  remove_user username s =
      if is_admin p username s.world && leb (count_admins p s.world) 1
      then (bad_request "Cannot delete the last remaining admin user", s)
      else (let (deleted, w) = delete_user p username s.world in
          if not deleted
          then (
            record { ret = esp_fail; reply = error 404 "User not found" },
            record s { world = w },
          )
          else (
            record { ret = esp_ok; reply = text (codes "OK") },
            record s { world = w; sessions = invalidate_all_sessions_for_user username s.sessions },
          ))

  unfoldable pub handle_admin_users_delete_post : Request → ℕ → Server p → Answer × Server p
  unfolding require_role read_delete_form remove_user
  handle_admin_users_delete_post req now s =
      let (access, ss) = require_role req admin now s.sessions in
      let s₁ = record s { sessions = ss } in
      elim access [
        | denied reply ↦ (record { ret = esp_fail; reply = reply }, s₁)
        | granted admin_username ↦ elim (read_delete_form req) [
          | refused message ↦ (bad_request message, s₁)
          | target username ↦ remove_user username s₁
        ]
      ]
