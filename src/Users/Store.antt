-- ===== src/Users/Store.antt =====
-- cpp/webmanager_base.hh: the user records, one file each under /spiffs/users. A `std::string` that
-- was made from a C string is the list of its bytes, and holds no NUL.
pub mod Files
pub mod Count
use espidf_component_webmana.Prelude.{
  ℕ, ◌+◌, ◌-◌, Bool, true, false, not, ◌&&◌, ◌||◌, Option, none, some, List, [], ◌∷◌, ◌++◌, ◌==◌,
  ltb, if◌then◌else◌, length, take, drop,
}
use espidf_component_webmana.Prelude.Text.{Bytes, codes, same_text}
use espidf_component_webmana.CLib.{is_alnum}
use espidf_component_webmana.Hex.{bytes_to_hex, generate_salt_hex}
use espidf_component_webmana.Users.Record.{StoredUser, admin, has_role}
use espidf_component_webmana.Users.Secrets.{constant_time_equals}
use espidf_component_webmana.Users.Platform.{Entry, Platform, u16_at}

unfoldable pub valid_chars : Bytes → Bool
unfolding is_alnum
valid_chars [] = true
valid_chars (c ∷ s) = (is_alnum c || c == b'_' || c == b'-') && valid_chars s

unfoldable pub is_valid_username : Bytes → Bool
unfolding valid_chars
is_valid_username username =
    if length username == 0 || ltb 32 (length username) then false else valid_chars username

unfoldable pub user_file_path : Bytes → Bytes
user_file_path username = codes "/spiffs/users/" ++ (username ++ codes ".bin")

-- Does the name end in ".bin", with something before it?
unfoldable pub is_record_name : Bytes → Bool
unfolding same_text
is_record_name name = ltb 4 (length name) && same_text (drop (length name - 4) name) (codes ".bin")

unfoldable pub record_names : List Entry → List Bytes
unfolding is_record_name
record_names [] = []
record_names (e ∷ es) =
    let rest = record_names es in
    if e.is_directory
    then rest
    else if is_record_name e.name
    then take (length e.name - 4) e.name ∷ rest
    else rest

unfoldable pub only_directories : List Entry → Bool
only_directories [] = true
only_directories (e ∷ es) = e.is_directory && only_directories es

module _ (p : Platform) where
  -- The salted hash, printed.
  unfoldable pub hash_password : Bytes → Bytes → Bytes
  unfolding bytes_to_hex
  hash_password salt_hex password = bytes_to_hex (p.sha256 (salt_hex ++ password))

  -- The checks on the file's content, and Decode.
  unfoldable pub decode_record : Bytes → Option StoredUser
  decode_record buf =
      if ltb (length buf) 4
      then none
      else if not (u16_at 0 buf == p.namespace_id && u16_at 2 buf == p.type_id)
      then none
      else p.decode buf

  -- `none` for false, else `out`.
  unfoldable pub load_user : Bytes → p.World → Option StoredUser
  unfolding is_valid_username user_file_path decode_record
  load_user username w =
      if not (is_valid_username username)
      then none
      else elim (p.fopen_rb (user_file_path username) w) [
        | none ↦ none
        | some content ↦ decode_record (take 512 content)
      ]

  -- fopen, fwrite and fclose.
  unfoldable pub write_record : Bytes → Bytes → p.World → Bool × p.World
  write_record path bytes w =
      let (opened, w₁) = p.fopen_wb path w in
      if not opened
      then (false, w₁)
      else (let (ret, w₂) = p.fwrite path bytes w₁ in (ret == length bytes, w₂))

  unfoldable pub save_user : StoredUser → p.World → Bool × p.World
  unfolding is_valid_username user_file_path write_record
  save_user user w =
      if not (is_valid_username user.username)
      then (false, w)
      else (let made = p.mkdir (codes "/spiffs/users") w in
          elim (p.encode user) [
            | none ↦ (false, made)
            | some bytes ↦ write_record (user_file_path user.username) bytes made
          ])

  unfoldable pub delete_user : Bytes → p.World → Bool × p.World
  unfolding is_valid_username user_file_path
  delete_user username w =
      if not (is_valid_username username) then (false, w) else p.unlink (user_file_path username) w

  unfoldable pub list_usernames : p.World → List Bytes
  unfolding record_names
  list_usernames w = elim (p.opendir (codes "/spiffs/users") w) [
    | none ↦ []
    | some es ↦ record_names es
  ]

  unfoldable pub user_store_is_empty : p.World → Bool
  unfolding only_directories
  user_store_is_empty w = elim (p.opendir (codes "/spiffs/users") w) [
    | none ↦ true
    | some es ↦ only_directories es
  ]

  unfoldable pub is_admin : Bytes → p.World → Bool
  unfolding load_user has_role
  is_admin name w = elim (load_user name w) [ none ↦ false | some u ↦ has_role u.roles admin ]

  unfoldable pub count_among : List Bytes → p.World → ℕ
  unfolding is_admin
  count_among [] w = 0
  count_among (name ∷ names) w =
      let rest = count_among names w in if is_admin name w then 1 + rest else rest

  unfoldable pub count_admins : p.World → ℕ
  unfolding list_usernames count_among
  count_admins w = count_among (list_usernames w) w

  -- A salt, then the hash, of a new record.
  unfoldable pub new_user : Bytes → Bytes → (roles epoch : ℕ) → p.World → StoredUser × p.World
  unfolding generate_salt_hex hash_password
  new_user username password roles epoch w =
      let (random, w₁) = p.fill_random w in
      let salt = generate_salt_hex random in
      (
        record {
          username = username;
          salt = salt;
          password_hash = hash_password salt password;
          roles = roles;
          epoch = epoch;
        },
        w₁,
      )

  -- A failure to save is only logged.
  unfoldable pub bootstrap_default_admin_if_user_store_empty : Bytes → Bytes → p.World → p.World
  unfolding user_store_is_empty new_user save_user
  bootstrap_default_admin_if_user_store_empty username password w =
      if not (user_store_is_empty w)
      then w
      else (let (user, w₁) = new_user username password admin 0 w in (save_user user w₁).1)

  -- `none` for false, else `outUser`.
  unfoldable pub validate_credentials_and_load : Bytes → Bytes → p.World → Option StoredUser
  unfolding is_valid_username load_user hash_password constant_time_equals
  validate_credentials_and_load username password w =
      if not (is_valid_username username) then none else elim (load_user username w) [
        | none ↦ none
        | some user ↦
            if constant_time_equals (hash_password user.salt password) user.password_hash
            then some user
            else none
      ]
