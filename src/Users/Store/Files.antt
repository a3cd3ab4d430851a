-- ===== src/Users/Store/Files.antt =====
-- The records in their files: what is saved is loaded again, and no other record changes.
use espidf_component_webmana.Prelude.{
  take_all, ◌≡◌, ◌≢◌, ◌↔◌, refl, true, false, Option, none, some, arith, take, Option-cases, inl,
  inr,
}
use mathlib.Core.List.{append_cancel_left, append_cancel_right}
use espidf_component_webmana.Prelude.Text.{Bytes, codes}
use espidf_component_webmana.Users.Record.{StoredUser}
use espidf_component_webmana.Users.Secrets.Compare.{constant_time_equals_iff}
use espidf_component_webmana.Users.Platform.{Platform, KeepsFiles, KeepsUsers}
use espidf_component_webmana.Users.Store.{
  user_file_path, decode_record, load_user, write_record, save_user, delete_user, hash_password,
  validate_credentials_and_load,
}

pub user_file_path-injective : (a b : Bytes) → user_file_path a ≡ user_file_path b → a ≡ b
unfolding user_file_path
user_file_path-injective a b e =
    append_cancel_right a b (codes ".bin") (append_cancel_left (codes "/spiffs/users/") _ _ e)

module _ (p : Platform) where
  pub load-same_file :
      (name : Bytes) (w w' : p.World)
      → p.fopen_rb (user_file_path name) w' ≡ p.fopen_rb (user_file_path name) w
      → load_user p name w' ≡ load_user p name w
  unfolding load_user
  load-same_file name w w' e = rw e refl

  write_record_ne :
      KeepsFiles p
      → (path other bytes : Bytes) (w : p.World) → path ≢ other
      → p.fopen_rb other (write_record p path bytes w).1 ≡ p.fopen_rb other w
  unfolding write_record
  write_record_ne k path other bytes w ne = ground (
    arith,
    k.read-fopen_wb_ne path other w ne,
    k.read-fwrite_ne path other bytes (p.fopen_wb path w).1 ne,
  )

  -- Saving a record, successful or not, leaves the other users' records alone.
  pub load_user-save_user_ne :
      KeepsFiles p
      → (u : StoredUser) (name : Bytes) (w : p.World) → u.username ≢ name
      → load_user p name (save_user p u w).1 ≡ load_user p name w
  unfolding save_user
  load_user-save_user_ne k u name w ne =
      load-same_file name w (save_user p u w).1 (same (p.encode u) refl)
    where
      path_ne : user_file_path u.username ≢ user_file_path name
      path_ne e = ne (user_file_path-injective u.username name e)

      same :
          (o : Option Bytes)
          → p.encode u ≡ o
          → p.fopen_rb (user_file_path name) (save_user p u w).1
            ≡ p.fopen_rb (user_file_path name) w
      same none e = ground (arith, k.read-mkdir (codes "/spiffs/users") (user_file_path name) w)
      same (some bytes) e = ground (
        arith,
        k.read-mkdir (codes "/spiffs/users") (user_file_path name) w,
        write_record_ne k (user_file_path u.username) (user_file_path name) bytes
            (p.mkdir (codes "/spiffs/users") w) path_ne,
      )

  write_record_lem :
      KeepsFiles p
      → (path bytes : Bytes) (w w' : p.World) → write_record p path bytes w ≡ (true, w')
      → p.fopen_rb path w' ≡ some bytes
  unfolding write_record
  write_record_lem k path bytes w w' e =
      ground (arith, k.read-fwrite path bytes w (p.fopen_wb path w).1 w')

  decode_record-encode :
      KeepsUsers p
      → (u : StoredUser) (bytes : Bytes) → p.encode u ≡ some bytes
      → decode_record p (take 512 bytes) ≡ some u
  unfolding decode_record
  decode_record-encode k u bytes e = rw (take_all 512 bytes ((k.length-encode u bytes e).1)) (
      ground
        (arith, k.length-encode u bytes e, k.header-encode u bytes e, k.decode-encode u bytes e))

  -- A record that was saved without an error is loaded again as it was, if the file system and the
  -- codec keep their promises.
  pub load_user-save_user :
      KeepsFiles p
      → KeepsUsers p
      → (u : StoredUser) (w w' : p.World) → save_user p u w ≡ (true, w')
      → load_user p u.username w' ≡ some u
  unfolding save_user load_user
  load_user-save_user k c u w w' e = go (p.encode u) refl
    where
      go : (o : Option Bytes) → p.encode u ≡ o → load_user p u.username w' ≡ some u
      go none q = ground arith
      go (some bytes) q = ground (
        arith,
        write_record_lem k (user_file_path u.username) bytes (p.mkdir (codes "/spiffs/users") w) w',
        decode_record-encode c u bytes q,
      )

  -- Deleting a user leaves the other users' records alone, and a deletion that fails leaves all.
  pub load_user-delete_user_ne :
      KeepsFiles p
      → (username name : Bytes) (w : p.World) → username ≢ name
      → load_user p name (delete_user p username w).1 ≡ load_user p name w
  unfolding delete_user
  load_user-delete_user_ne k username name w ne =
      load-same_file name w (delete_user p username w).1 same
    where
      same :
          p.fopen_rb (user_file_path name) (delete_user p username w).1
          ≡ p.fopen_rb (user_file_path name) w
      same = ground (
        arith,
        k.read-unlink_ne (user_file_path username) (user_file_path name) w
            (λ e. ne (user_file_path-injective username name e)),
      )

  pub load_user-delete_user_failed :
      KeepsFiles p
      → (username name : Bytes) (w w' : p.World) → delete_user p username w ≡ (false, w')
      → load_user p name w' ≡ load_user p name w
  unfolding delete_user
  load_user-delete_user_failed k username name w w' e = load-same_file name w w' same
    where
      same : p.fopen_rb (user_file_path name) w' ≡ p.fopen_rb (user_file_path name) w
      same =
          ground (arith, k.read-unlink_failed (user_file_path username) (user_file_path name) w w')

  -- A login is accepted exactly if the user's record is there, and holds the hash of the password
  -- under its salt.
  pub validate_credentials_and_load_iff :
      (username password : Bytes) (w : p.World) (u : StoredUser)
      → (validate_credentials_and_load p username password w ≡ some u)
        ↔ ((load_user p username w ≡ some u) × (hash_password p u.salt password ≡ u.password_hash))
  unfolding validate_credentials_and_load load_user
  validate_credentials_and_load_iff username password w u = (there, back)
    where
      there :
          validate_credentials_and_load p username password w ≡ some u
          → (load_user p username w ≡ some u) × (hash_password p u.salt password ≡ u.password_hash)
      there e = elim (Option-cases (load_user p username w)) [
        | inl missing ↦ ground arith
        | inr (v, found) ↦
            ground
              (arith, constant_time_equals_iff (hash_password p v.salt password) v.password_hash)
      ]

      back :
          ((load_user p username w ≡ some u) × (hash_password p u.salt password ≡ u.password_hash))
          → validate_credentials_and_load p username password w ≡ some u
      back (l, h) =
          ground (arith, constant_time_equals_iff (hash_password p u.salt password) u.password_hash)

  -- A user who was deleted has no record.
  pub load_user-delete_user :
      KeepsFiles p
      → (username : Bytes) (w w' : p.World) → delete_user p username w ≡ (true, w')
      → load_user p username w' ≡ none
  unfolding delete_user load_user
  load_user-delete_user k username w w' e =
      ground (arith, k.read-unlink (user_file_path username) w w')
