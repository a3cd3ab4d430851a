-- ===== src/Web/Tests.antt =====
-- The theorems on the pages at a server with one administrator, and at a fresh one.
use espidf_component_webmana.Prelude.{
  inr, ℕ, ◌≡◌, ◌⊎◌, zero, suc, refl, true, none, some, [], ◌∷◌, arith, replicate,
}
use espidf_component_webmana.Prelude.Text.{Bytes, codes, same_text, c_str}
use espidf_component_webmana.Esp.{esp_ok}
use espidf_component_webmana.CLib.{is_alnum, is_digit}
use espidf_component_webmana.Hex.{bytes_to_hex, hex_digit, generate_salt_hex, generate_random_token}
use espidf_component_webmana.Sessions.{Session, validate_loop}
use espidf_component_webmana.Sessions.RoundTrip.{IsFresh}
use espidf_component_webmana.Sessions.Revoke.{Excludes}
use espidf_component_webmana.Users.Record.{StoredUser, admin, has_role}
use espidf_component_webmana.Users.Form.Encoding.{url_encode, encode_byte, is_safe}
use espidf_component_webmana.Users.Secrets.{parse_roles_csv}
use espidf_component_webmana.Users.Memory.{Files, memory, memory-KeepsFiles, memory-KeepsUsers}
use espidf_component_webmana.Users.Store.{
  load_user, save_user, delete_user, hash_password, validate_credentials_and_load,
  is_valid_username, valid_chars, user_file_path, write_record, decode_record, new_user,
  user_store_is_empty, is_admin, bootstrap_default_admin_if_user_store_empty, count_admins,
  count_among, list_usernames, record_names, is_record_name,
}
use espidf_component_webmana.Web.Http.{Request, Server}
use espidf_component_webmana.Web.Login.{handle_login_post}
use espidf_component_webmana.Web.Admin.{
  handle_admin_users_get, handle_admin_users_post, handle_admin_users_delete_post, update_user,
  remove_user, store_user,
}
use espidf_component_webmana.Web.Access.{Guards, admin_pages-Guards}
use espidf_component_webmana.Web.LastAdmin.{HasAdmin, KeepsAdmin, admin_pages-HasAdmin}
use espidf_component_webmana.Web.SignIn.{
  IsSubmitted, IsDrawn, Welcomes, OnlyWithPassword, handle_login_post-Welcomes,
  handle_login_post-OnlyWithPassword,
}
use espidf_component_webmana.Web.Accounts.{validate-bootstrap, update_user_lem, remove_user_lem}

abbrev empty : Files
empty path = none

abbrev root : StoredUser
root = record {
  username = codes "root";
  salt = codes "0a";
  password_hash = bytes_to_hex (codes "0asecret42");
  roles = admin;
  epoch = 0;
}

abbrev held : Session
held = record { token = codes "ab"; username = codes "root"; roles = admin; expiry_us = 9 }

abbrev server : Server memory
server = record {
  sessions = held ∷ record held { token = [] } ∷ [];
  world = (save_user memory root empty).1;
  bootstrap_admin_username = codes "root";
  bootstrap_admin_password = codes "password";
}

-- A request with the session's cookie.
abbrev request : Request
request = record { cookie = (esp_ok, codes "session=ab"); body = λ n. (13, codes "username=root") }

admin_pages-Guards_example :
    Guards request 3 server (handle_admin_users_get request 3 server)
    × (Guards request 3 server (handle_admin_users_post request 3 server)
        × Guards request 3 server (handle_admin_users_delete_post request 3 server))
admin_pages-Guards_example =
    admin_pages-Guards memory request 3 server (omega arith) (omega arith, (omega arith, tt))

server-HasAdmin : is_admin memory (codes "root") server.world ≡ true
unfolding is_admin load_user save_user is_valid_username valid_chars is_alnum is_digit write_record
    decode_record user_file_path bytes_to_hex hex_digit has_role same_text
server-HasAdmin = refl

admin_pages-HasAdmin_example :
    HasAdmin memory (handle_admin_users_delete_post request 3 server).1.world
    × KeepsAdmin memory (handle_admin_users_post request 3 server)
admin_pages-HasAdmin_example =
    admin_pages-HasAdmin memory memory-KeepsFiles memory-KeepsUsers request 3 server
      (codes "root", server-HasAdmin)

-- The login form of `root`.
abbrev login : Request
login = record { cookie = (1, []); body = λ n. (31, codes "username=root&password=secret42") }

login-IsSubmitted : IsSubmitted (codes "root") (codes "secret42") login
unfolding c_str url_encode encode_byte is_safe is_alnum is_digit
login-IsSubmitted = record {
  name = record { bytes = ground arith; text = ground arith; short = omega arith };
  word = record { bytes = ground arith; text = ground arith; short = omega arith };
  received = refl;
  counted = omega arith;
}

load_root : load_user memory (codes "root") server.world ≡ some root
unfolding load_user save_user is_valid_username valid_chars is_alnum is_digit write_record
    decode_record user_file_path bytes_to_hex hex_digit same_text
load_root = refl

root_hash : hash_password memory root.salt (codes "secret42") ≡ root.password_hash
unfolding hash_password
root_hash = refl

abbrev drawn : Bytes
drawn = replicate 16 7

server-IsFresh : IsFresh (generate_random_token drawn) server.sessions
unfolding generate_random_token bytes_to_hex hex_digit
server-IsFresh zero t e q = cc
server-IsFresh (suc zero) t e q = cc
server-IsFresh (suc (suc j)) t e q = cc

server-IsDrawn : IsDrawn memory server
server-IsDrawn = record { size = refl; bytes = ground arith; fresh = server-IsFresh }

handle_login_post-Welcomes_example : Welcomes root [] 7 (handle_login_post login 5 server)
handle_login_post-Welcomes_example =
    handle_login_post-Welcomes memory login 5 7 server (codes "root") (codes "secret42") [] root
      login-IsSubmitted load_root root_hash (omega arith) (omega arith, (omega arith, tt))
      server-IsDrawn (omega arith) (omega arith)

handle_login_post-OnlyWithPassword_example :
    OnlyWithPassword login 5 server (handle_login_post login 5 server).1
handle_login_post-OnlyWithPassword_example =
    handle_login_post-OnlyWithPassword memory login 5 server

validate-bootstrap_example :
    let (u, w₁) = new_user memory (codes "root") (codes "password") admin 0 empty in
    (validate_credentials_and_load memory
        (codes "root")
        (codes "password")
        (bootstrap_default_admin_if_user_store_empty memory (codes "root") (codes "password") empty)
      ≡ some u)
    × (u.roles ≡ admin)
unfolding user_store_is_empty save_user is_valid_username valid_chars is_alnum is_digit write_record
    new_user
validate-bootstrap_example =
    validate-bootstrap memory memory-KeepsFiles memory-KeepsUsers (codes "root") (codes "password")
      empty (inr ([], refl, tt)) refl

abbrev changed : Server memory
changed = (update_user (codes "bob") (codes "password") (codes "Viewer") server).1

update_user_lem_example :
    (u : StoredUser) × (validate_credentials_and_load memory
        (codes "bob")
        (codes "password")
        changed.world
      ≡ some u)
    × (u.roles ≡ parse_roles_csv (codes "Viewer"))
    × ((load_user memory (codes "bob") server.world ≡ none)
        ⊎ ((token : Bytes) (now : ℕ)
            → Excludes (codes "bob") (validate_loop token now changed.sessions).0))
unfolding update_user store_user save_user is_valid_username valid_chars is_alnum is_digit
    write_record new_user is_admin load_user decode_record user_file_path bytes_to_hex hex_digit
    same_text generate_salt_hex hash_password
update_user_lem_example =
    update_user_lem memory memory-KeepsFiles memory-KeepsUsers (codes "bob") (codes "password")
      (codes "Viewer") server refl

abbrev both : Server memory
both = record server {
  world = (save_user memory (record root { username = codes "bob" }) server.world).1;
}

abbrev removed : Server memory
removed = (remove_user (codes "bob") both).1

remove_user_lem_example :
    ((password : Bytes)
      → validate_credentials_and_load memory (codes "bob") password removed.world ≡ none)
    × ((token : Bytes) (now : ℕ)
        → Excludes (codes "bob") (validate_loop token now removed.sessions).0)
unfolding remove_user save_user delete_user is_valid_username valid_chars is_alnum is_digit
    write_record new_user is_admin load_user decode_record user_file_path bytes_to_hex hex_digit
    same_text count_admins count_among list_usernames record_names is_record_name has_role
remove_user_lem_example = remove_user_lem memory memory-KeepsFiles (codes "bob") both refl
