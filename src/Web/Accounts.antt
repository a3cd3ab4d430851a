-- ===== src/Web/Accounts.antt =====
-- What becomes of an account: created, changed, deleted, or made at the first start.
use espidf_component_webmana.Prelude.{
  ℕ, ◌≡◌, ◌≢◌, ◌⊎◌, refl, sym, ◌∙◌, ap, inl, inr, Bool, true, false, not, ◌&&◌, Option, none, some,
  arith, leb, ltb, length, List, [], ◌∷◌, All,
}
use espidf_component_webmana.Prelude.Text.{Bytes, codes}
use espidf_component_webmana.Esp.{esp_ok, esp_fail}
use espidf_component_webmana.Sessions.{validate_loop, invalidate_all_sessions_for_user}
use espidf_component_webmana.Sessions.Revoke.{
  Excludes, validate_loop-invalidate_all_sessions_for_user,
}
use espidf_component_webmana.Users.Record.{StoredUser, admin, has_role}
use espidf_component_webmana.Users.Secrets.{parse_roles_csv}
use espidf_component_webmana.Users.Platform.{Entry, Platform, KeepsFiles, KeepsUsers}
use espidf_component_webmana.Users.Store.{
  load_user, save_user, delete_user, new_user, is_admin, count_admins, is_valid_username,
  validate_credentials_and_load, only_directories, user_store_is_empty,
  bootstrap_default_admin_if_user_store_empty,
}
use espidf_component_webmana.Users.Store.Files.{
  load_user-save_user, load_user-delete_user, validate_credentials_and_load_iff,
}
use espidf_component_webmana.Web.Http.{Answer, Server}
use espidf_component_webmana.Web.Cases.{three_checks}
use espidf_component_webmana.Web.Admin.{
  bad_request, next_epoch, store_user, update_user, remove_user,
}

-- A record that was made for a password and saved lets its user in with that password.
saved_login :
    (p : Platform)
    → KeepsFiles p
    → KeepsUsers p
    → (username password : Bytes) (roles epoch : ℕ) (w w' : p.World)
    → let (u, w₁) = new_user p username password roles epoch w in
      save_user p u w₁ ≡ (true, w') → validate_credentials_and_load p username password w' ≡ some u
unfolding new_user
saved_login p k c username password roles epoch w w' e =
    (validate_credentials_and_load_iff p username password w' _).1
      (load_user-save_user p k c _ _ w' e, refl)

first_true {ℓ} : {W : Type ℓ} (r : Bool × W) → r.0 ≡ true → r ≡ (true, r.1)
first_true (true, w) e = refl
first_true (false, w) e = absurd (cc)

bootstrap_empty :
    (p : Platform) (username password : Bytes) (w : p.World)
    → user_store_is_empty p w ≡ true
    → let (u, w₁) = new_user p username password admin 0 w in
      bootstrap_default_admin_if_user_store_empty p username password w ≡ (save_user p u w₁).1
unfolding bootstrap_default_admin_if_user_store_empty
bootstrap_empty p username password w e = rw (e, bootstrap_default_admin_if_user_store_empty) refl

-- There is no directory of user records, or nothing but directories is in it.
abbrev pub HasNoRecord : (p : Platform) → p.World → Type 0
HasNoRecord p w =
    (p.opendir (codes "/spiffs/users") w ≡ none)
    ⊎ ((es : List Entry) × (p.opendir (codes "/spiffs/users") w ≡ some es)
        × All (λ e. e.is_directory ≡ true) es)

only_directories-All :
    (es : List Entry) → All (λ e. e.is_directory ≡ true) es → only_directories es ≡ true
unfolding only_directories
only_directories-All [] a = refl
only_directories-All (e ∷ es) a = rw (a.0, only_directories-All es a.1) refl

HasNoRecord-empty : (p : Platform) (w : p.World) → HasNoRecord p w → user_store_is_empty p w ≡ true
unfolding user_store_is_empty
HasNoRecord-empty p w (inl no_directory) = rw (no_directory, user_store_is_empty) refl
HasNoRecord-empty p w (inr (es, listed, a)) =
    rw (listed, user_store_is_empty) (only_directories-All es a)

-- At the first start, when the directory of user records is not there or has no file in it, the
-- administrator of the parameters of Begin can log in afterwards, with the role Admin, if the record
-- could be saved and the file system and the codec keep their promises.
pub validate-bootstrap :
    (p : Platform)
    → KeepsFiles p
    → KeepsUsers p
    → (username password : Bytes) (w : p.World) → HasNoRecord p w
    → let (u, w₁) = new_user p username password admin 0 w in
      let w' = bootstrap_default_admin_if_user_store_empty p username password w in
      (save_user p u w₁).0 ≡ true
      → (validate_credentials_and_load p username password w' ≡ some u) × (u.roles ≡ admin)
validate-bootstrap p k c username password w first saved =
    let (u, w₁) = new_user p username password admin 0 w in
    (
      rw (bootstrap_empty p username password w (HasNoRecord-empty p w first))
          (saved_login p k c username password admin 0 w _ (first_true (save_user p u w₁) saved)),
      unfold new_user in refl,
    )

fails : esp_fail ≢ esp_ok
fails e = omega arith

update_user_ok :
    (p : Platform) (username password roles_str : Bytes) (s : Server p)
    → (update_user username password roles_str s).0.ret ≡ esp_ok
    → update_user username password roles_str s
      ≡ store_user (load_user p username s.world) username password (parse_roles_csv roles_str) s
unfolding update_user
update_user_ok p username password roles_str s =
    three_checks
      (λ (r : Answer × Server p).
        r.0.ret ≡ esp_ok
        → r
          ≡ store_user (load_user p username s.world) username password (parse_roles_csv roles_str)
              s)
      (not (is_valid_username username)) (ltb (length password) 8)
      (is_admin p username s.world
        && not (has_role (parse_roles_csv roles_str) admin)
        && leb (count_admins p s.world) 1)
      {x = (bad_request "Invalid username (only a-zA-Z0-9_- allowed)", s)}
      {y = (bad_request "Password too short (min. 8 characters)", s)}
      {z = (bad_request "Cannot remove the Admin role from the last remaining admin user", s)}
      (λ e. absurd (fails e)) (λ e. absurd (fails e)) (λ e. absurd (fails e)) λ spares e. refl

-- A user who is there counts after the change: no session from before is left.
store_user_ok :
    (p : Platform) (existing : Option StoredUser) (username password : Bytes) (roles : ℕ)
    (s : Server p)
    → let (u, w₁) = new_user p username password roles (next_epoch existing) s.world in
      let (answer, s') = store_user existing username password roles s in
      answer.ret ≡ esp_ok
      → (save_user p u w₁ ≡ (true, s'.world))
        × ((existing ≡ none) ⊎ (s'.sessions ≡ invalidate_all_sessions_for_user username s.sessions))
unfolding store_user
store_user_ok p none username password roles s e = (ground arith, inl refl)
store_user_ok p (some existing) username password roles s e = (ground arith, inr (ground arith))

-- An administrator's change of a user that is answered with ESP_OK counts from then on: the new
-- password is accepted, with the roles of the form; and the user is new, or no session from before
-- lets a user of that name in. The file system and the codec keep their promises.
pub update_user_lem :
    (p : Platform)
    → KeepsFiles p
    → KeepsUsers p
    → (username password roles_str : Bytes) (s : Server p)
    → let (answer, s') = update_user username password roles_str s in
      answer.ret ≡ esp_ok
      → (u : StoredUser) × (validate_credentials_and_load p username password s'.world ≡ some u)
        × (u.roles ≡ parse_roles_csv roles_str)
        × ((load_user p username s.world ≡ none)
            ⊎ ((token : Bytes) (now : ℕ)
                → Excludes username (validate_loop token now s'.sessions).0))
update_user_lem p k c username password roles_str s e =
    let roles = parse_roles_csv roles_str in
    let existing = load_user p username s.world in
    let same = update_user_ok p username password roles_str s e in
    let (u, w₁) = new_user p username password roles (next_epoch existing) s.world in
    let (saved, revoked) =
      store_user_ok p existing username password roles s (ap (λ r. r.0.ret) (sym same) ∙ e) in
    rw same (
      u,
      saved_login p k c username password roles (next_epoch existing) s.world _ saved,
      unfold new_user in refl,
      elim revoked [
        | inl fresh ↦ inl fresh
        | inr cleared ↦ inr (λ token now.
            rw cleared
              (validate_loop-invalidate_all_sessions_for_user username token now s.sessions).0)
      ],
    )

no_record :
    (p : Platform) (username password : Bytes) (w : p.World)
    → load_user p username w ≡ none
    → validate_credentials_and_load p username password w ≡ none
unfolding validate_credentials_and_load
no_record p username password w e = ground arith

remove_user_ok :
    (p : Platform) (username : Bytes) (s : Server p)
    → let (answer, s') = remove_user username s in
      answer.ret ≡ esp_ok
      → (delete_user p username s.world ≡ (true, s'.world))
        × (s'.sessions ≡ invalidate_all_sessions_for_user username s.sessions)
unfolding remove_user
remove_user_ok p username s e = (ground arith, ground arith)

-- A deletion that is answered with ESP_OK counts at once: no password is accepted for the user any
-- more, and no session lets a user of that name in. The file system keeps its promises.
pub remove_user_lem :
    (p : Platform)
    → KeepsFiles p
    → (username : Bytes) (s : Server p)
    → let (answer, s') = remove_user username s in
      answer.ret ≡ esp_ok
      → ((password : Bytes) → validate_credentials_and_load p username password s'.world ≡ none)
        × ((token : Bytes) (now : ℕ) → Excludes username (validate_loop token now s'.sessions).0)
remove_user_lem p k username s e =
    let (deleted, revoked) = remove_user_ok p username s e in
    (
      λ password.
          no_record p username password _ (load_user-delete_user p k username s.world _ deleted),
      λ token now.
          rw revoked
            (validate_loop-invalidate_all_sessions_for_user username token now s.sessions).0,
    )
