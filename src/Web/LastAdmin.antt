-- ===== src/Web/LastAdmin.antt =====
-- The device keeps an administrator: the pages that change and delete users never take the last one.
use espidf_component_webmana.Prelude.{
  ℕ, ◌≡◌, ◌≢◌, ◌⊎◌, refl, sym, ◌∙◌, ap, inl, inr, true, false, not, ◌&&◌, Option, none, some, arith,
  leb, ltb, Bool-cases, if◌then◌else◌, length,
}
use mathlib.Core.Path.{subst}
use espidf_component_webmana.Prelude.Text.{Bytes}
use espidf_component_webmana.Users.Record.{StoredUser, admin, has_role}
use espidf_component_webmana.Users.Secrets.{parse_roles_csv}
use espidf_component_webmana.Users.Platform.{Platform, KeepsFiles, KeepsUsers}
use espidf_component_webmana.Users.Store.{
  load_user, save_user, delete_user, is_admin, count_admins, new_user, is_valid_username,
}
use espidf_component_webmana.Users.Store.Files.{
  load_user-save_user, load_user-save_user_ne, load_user-delete_user_ne, load-same_file,
}
use espidf_component_webmana.Users.Store.Count.{count_admins-other}
use espidf_component_webmana.Web.Http.{Request, error, Answer, Server}
use espidf_component_webmana.Web.Login.{require_role}
use espidf_component_webmana.Web.Cases.{three_checks, on_access, on_delete_form, on_user_form}
use espidf_component_webmana.Web.Admin.{
  next_epoch, store_user, update_user, remove_user, handle_admin_users_post,
  handle_admin_users_delete_post, read_user_form, read_delete_form,
}

-- Some user's record is there and holds the role Admin.
abbrev pub HasAdmin : (p : Platform) → p.World → Type 0
HasAdmin p w = (name : Bytes) × (is_admin p name w ≡ true)

-- The answer is "Failed to save user", or an administrator is left.
abbrev pub KeepsAdmin : (p : Platform) → Answer × Server p → Type 0
KeepsAdmin p (answer, s) = (answer.reply ≡ error 500 "Failed to save user") ⊎ HasAdmin p s.world

module _ (p : Platform) (k : KeepsFiles p) where
  is_admin-same :
      (name : Bytes) (w w' : p.World)
      → load_user p name w' ≡ load_user p name w
      → is_admin p name w ≡ true
      → is_admin p name w' ≡ true
  unfolding is_admin
  is_admin-same name w w' e h =
      ap (λ o. elim o [ none ↦ false | some u ↦ has_role u.roles admin ]) e ∙ h

  -- An administrator of another name than the user in question.
  another :
      (username : Bytes) (w : p.World)
      → HasAdmin p w
      → (is_admin p username w && leb (count_admins p w) 1) ≡ false
      → (m : Bytes) × (is_admin p m w ≡ true) × (username ≢ m)
  another username w (name, holds) e = elim (Bool-cases (is_admin p username w)) [
    | inl yes_admin ↦ count_admins-other p k w username (ground arith)
    | inr no_admin ↦ (name, holds, λ q. cc (q, holds, no_admin))
  ]

  delete_user-HasAdmin :
      (username : Bytes) (w : p.World)
      → HasAdmin p w
      → (is_admin p username w && leb (count_admins p w) 1) ≡ false
      → HasAdmin p (delete_user p username w).1
  delete_user-HasAdmin username w h e =
      let (m, holds, ne) = another username w h e in
      (m, is_admin-same m w _ (load_user-delete_user_ne p k username m w ne) holds)

  remove_user-world :
      (username : Bytes) (s : Server p)
      → (remove_user username s).1.world ≡ (
          if is_admin p username s.world && leb (count_admins p s.world) 1
          then s.world
          else (delete_user p username s.world).1)
  unfolding remove_user
  remove_user-world username s = ground arith

  remove_user-HasAdmin :
      (username : Bytes) (s : Server p)
      → HasAdmin p s.world
      → HasAdmin p (remove_user username s).1.world
  remove_user-HasAdmin username s h =
      elim (Bool-cases (is_admin p username s.world && leb (count_admins p s.world) 1)) [
        | inl last ↦ subst (HasAdmin p) (sym (remove_user-world username s ∙ rw last refl)) h
        | inr spare ↦
            subst (HasAdmin p) (sym (remove_user-world username s ∙ rw spare refl))
              (delete_user-HasAdmin username s.world h spare)
      ]

  save_user-HasAdmin :
      (u : StoredUser) (w : p.World)
      → HasAdmin p w
      → (is_admin p u.username w && leb (count_admins p w) 1) ≡ false
      → HasAdmin p (save_user p u w).1
  save_user-HasAdmin u w h e =
      let (m, holds, ne) = another u.username w h e in
      (m, is_admin-same m w _ (load_user-save_user_ne p k u m w ne) holds)

  saved-HasAdmin :
      KeepsUsers p
      → (u : StoredUser) (w w' : p.World) → save_user p u w ≡ (true, w')
      → has_role u.roles admin ≡ true
      → HasAdmin p w'
  unfolding is_admin
  saved-HasAdmin c u w w' e h = (
    u.username,
    ap (λ o. elim o [ none ↦ false | some v ↦ has_role v.roles admin ])
          (load_user-save_user p k c u w w' e)
        ∙ h,
  )

  load_user-new_user :
      (name username password : Bytes) (roles epoch : ℕ) (w : p.World)
      → load_user p name (new_user p username password roles epoch w).1 ≡ load_user p name w
  unfolding new_user
  load_user-new_user name username password roles epoch w =
      load-same_file p name w _ (k.read-fill_random _ w)

  store_user-saved :
      (existing : Option StoredUser) (username password : Bytes) (roles : ℕ) (s : Server p)
      → let (u, w₁) = new_user p username password roles (next_epoch existing) s.world in
        let (answer, s') = store_user existing username password roles s in
        (s'.world ≡ (save_user p u w₁).1)
        × ((answer.reply ≡ error 500 "Failed to save user") ⊎ (save_user p u w₁ ≡ (true, s'.world)))
  unfolding store_user
  store_user-saved existing username password roles s = ground arith

  -- What `update_user` has checked when it stores the record.
  abbrev Spares : (username : Bytes) (roles : ℕ) → p.World → Type 0
  Spares username roles w =
      (is_admin p username w && not (has_role roles admin) && leb (count_admins p w) 1) ≡ false

  store_user-HasAdmin :
      KeepsUsers p
      → (existing : Option StoredUser) (username password : Bytes) (roles : ℕ) (s : Server p)
      → HasAdmin p s.world
      → Spares username roles s.world
      → KeepsAdmin p (store_user existing username password roles s)
  store_user-HasAdmin c existing username password roles s h e =
      let (u, w₁) = new_user p username password roles (next_epoch existing) s.world in
      let (world, outcome) = store_user-saved existing username password roles s in
      elim (Bool-cases (has_role roles admin)) [
        | inl grants ↦ elim outcome [
          | inl failed ↦ inl failed
          | inr saved ↦ inr (saved-HasAdmin c u w₁ _ saved (unfold new_user in grants))
        ]
        | inr lacks ↦
            let (m, holds, ne) = another username s.world h (ground arith) in
            let kept =
              is_admin-same m s.world w₁
                (load_user-new_user m username password roles (next_epoch existing) s.world)
                holds in
            inr (
              subst (HasAdmin p) (sym world) (
                m,
                is_admin-same m w₁ _ (load_user-save_user_ne p k u m w₁ (unfold new_user in ne))
                    kept,
              ))
      ]

  update_user-HasAdmin :
      KeepsUsers p
      → (username password roles_str : Bytes) (s : Server p) → HasAdmin p s.world
      → KeepsAdmin p (update_user username password roles_str s)
  unfolding update_user
  update_user-HasAdmin c username password roles_str s h =
      three_checks (KeepsAdmin p) (not (is_valid_username username)) (ltb (length password) 8)
        (is_admin p username s.world
          && not (has_role (parse_roles_csv roles_str) admin)
          && leb (count_admins p s.world) 1)
        (inr h) (inr h) (inr h)
        (store_user-HasAdmin c (load_user p username s.world) username password
          (parse_roles_csv roles_str) s h)

-- An administrator is left after every deletion, whether it succeeds or not, if there was one
-- before. So it is after every change of a user, except for the one answer "Failed to save user".
-- The file system and the codec keep their promises.
pub admin_pages-HasAdmin :
    (p : Platform)
    → KeepsFiles p
    → KeepsUsers p
    → (req : Request) (now : ℕ) (s : Server p) → HasAdmin p s.world
    → HasAdmin p (handle_admin_users_delete_post req now s).1.world
      × KeepsAdmin p (handle_admin_users_post req now s)
unfolding handle_admin_users_delete_post handle_admin_users_post
admin_pages-HasAdmin p k c req now s h =
    let s₁ = record s { sessions = (require_role req admin now s.sessions).1 } in
    (
      on_access (λ (r : Answer × Server p). HasAdmin p r.1.world)
          ((require_role req admin now s.sessions).0) (λ reply. h)
          λ u.
            on_delete_form (λ (r : Answer × Server p). HasAdmin p r.1.world) (read_delete_form req)
              (λ message. h) λ username. remove_user-HasAdmin p k username s₁ h,
      on_access (KeepsAdmin p) ((require_role req admin now s.sessions).0) (λ reply. inr h)
          λ u.
            on_user_form (KeepsAdmin p) (read_user_form req) (λ message. inr h)
              λ username password roles_str.
                update_user-HasAdmin p k c username password roles_str s₁ h,
    )
