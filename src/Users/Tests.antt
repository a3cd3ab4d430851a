-- ===== src/Users/Tests.antt =====
-- The theorems on forms, texts and records at concrete data.
use espidf_component_webmana.Prelude.{[], ◌∷◌, ◌≡◌, refl, true, none, some, arith}
use espidf_component_webmana.Prelude.Text.{Bytes, codes, same_text}
use espidf_component_webmana.CLib.{is_alnum, is_digit, is_xdigit, xdigit_value}
use espidf_component_webmana.Users.Record.{StoredUser, has_role}
use espidf_component_webmana.Users.Form.{url_decode, find_field}
use espidf_component_webmana.Users.Form.Encoding.{
  url_encode, encode_byte, is_safe, url_decode-url_encode,
}
use espidf_component_webmana.Users.Form.Fields.{IsEntry, login_body, find_field-login_body}
use espidf_component_webmana.Users.Secrets.{parse_roles_csv, tokens, add_roles, add_role}
use espidf_component_webmana.Users.Secrets.Roles.{contains, parse_roles_csv-contains}
use espidf_component_webmana.Users.Memory.{Files, memory, memory-KeepsFiles, memory-KeepsUsers}
use espidf_component_webmana.Users.Store.{
  load_user, save_user, is_valid_username, valid_chars, write_record,
}
use espidf_component_webmana.Users.Store.Files.{load_user-save_user, load_user-save_user_ne}

abbrev word : Bytes
word = codes "a&b ü"

run_parse_roles : parse_roles_csv (codes "Admin,Viewer") ≡ 5
unfolding parse_roles_csv add_role same_text tokens add_roles
run_parse_roles = refl

run_url_decode : url_decode (codes "a%26b+c%4") ≡ codes "a&b c%4"
unfolding url_decode is_xdigit xdigit_value is_digit
run_url_decode = refl

url_decode-url_encode_example : url_decode (url_encode word) ≡ word
url_decode-url_encode_example = url_decode-url_encode word (ground arith)

bob-IsEntry : IsEntry (codes "bob")
unfolding url_encode encode_byte is_safe is_alnum is_digit
bob-IsEntry = record { bytes = ground arith; text = ground arith; short = omega arith }

find_field-login_body_example :
    (find_field (codes "username=") (login_body (codes "bob") (codes "bob")) ≡ some (codes "bob"))
    × (find_field (codes "password=") (login_body (codes "bob") (codes "bob")) ≡ some (codes "bob"))
find_field-login_body_example =
    find_field-login_body (codes "bob") (codes "bob") bob-IsEntry bob-IsEntry

abbrev bob : StoredUser
bob = record {
  username = codes "bob";
  salt = codes "aa";
  password_hash = codes "1";
  roles = 4;
  epoch = 0;
}

abbrev nothing : Files
nothing path = none

abbrev stored : Files
stored = (save_user memory bob nothing).1

run_save : save_user memory bob nothing ≡ (true, stored)
unfolding save_user is_valid_username valid_chars is_alnum is_digit write_record
run_save = refl

load_user-save_user_example : load_user memory (codes "bob") stored ≡ some bob
load_user-save_user_example =
    load_user-save_user memory memory-KeepsFiles memory-KeepsUsers bob nothing stored run_save

load_user-save_user_ne_example :
    load_user memory (codes "root") stored ≡ load_user memory (codes "root") nothing
load_user-save_user_ne_example =
    load_user-save_user_ne memory memory-KeepsFiles bob (codes "root") nothing (λ e. cc)

parse_roles_csv-contains_example :
    (has_role (parse_roles_csv (codes "Operator,admin")) 1
      ≡ contains (codes "Admin") (codes "Operator" ∷ codes "admin" ∷ []))
    × (has_role (parse_roles_csv (codes "Operator,admin")) 2
        ≡ contains (codes "Operator") (codes "Operator" ∷ codes "admin" ∷ []))
parse_roles_csv-contains_example =
    parse_roles_csv-contains (codes "Operator") (codes "admin" ∷ []) (omega arith) (omega arith, tt)
