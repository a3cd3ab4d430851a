-- ===== src/Wifi/Storage.antt =====
-- What `create_or_update_sta_config` stores is what `read_sta_config` reads.
use espidf_component_webmana.Prelude.{
  ℕ, ◌<◌, ◌≡◌, refl, sym, ap, ◌∙◌, ◌⊎◌, ◌≢◌, inl, inr, Bool, true, false, arith, length, Bool-cases,
  ◌==◌, ◌&&◌, ◌||◌, not, [],
}
use mathlib.Core.Path.{subst}
use espidf_component_webmana.Prelude.Text.{Bytes, same_text, same_text_iff, is_empty}
use espidf_component_webmana.Esp.{esp_ok, esp_err_nvs_not_found}
use espidf_component_webmana.Wifi.Device.{
  Device, KeepsStrings, Key, ssid_key, password_key, Credentials,
}
use espidf_component_webmana.Wifi.Config.{
  Saved, failed, saved, tmp_size, or_error, save_string, finish, create_or_update_sta_config,
  read_sta_config,
}

module _ (d : Device) (law : KeepsStrings d) where
  open law use {
    get-open, get-set, get-set_ne, get-grow, restart, restart-commit, restart-open, restart-close,
  }

  -- nvs_get_str finds the key or says that it is not there.
  abbrev pub IsReadable : Key → d.World → Type 0
  IsReadable k w =
      ((d.nvs_get_str k (tmp_size d k) w).0 ≡ esp_ok)
      ⊎ ((d.nvs_get_str k (tmp_size d k) w).0 ≡ esp_err_nvs_not_found)

  abbrev Holds : Key → Bytes → d.World → Type 0
  Holds k s w = (n : ℕ) → length s < n → d.nvs_get_str k n w ≡ (esp_ok, s)

  -- What is read would be read after a restart.
  abbrev pub IsCommitted : d.World → Type 0
  IsCommitted w = (k : Key) (n : ℕ) → d.nvs_get_str k n (restart w) ≡ d.nvs_get_str k n w

  -- The string is stored, the other key reads as before, and nothing was written if nothing changed.
  abbrev Stores : Key → Bytes → d.World → Saved d.World → Type 0
  Stores k s w (failed err w') = Unit
  Stores k s w (saved changed ret w') =
      Holds k s w'
      × ((j : Key) (n : ℕ) → k ≢ j → d.nvs_get_str j n w' ≡ d.nvs_get_str j n w)
      × ((changed ≡ true) ⊎ (w' ≡ w))

  unchanged :
      (k : Key) (s : Bytes) (w : d.World)
      → (d.nvs_get_str k (tmp_size d k) w).0 ≡ esp_ok
      → same_text (d.nvs_get_str k (tmp_size d k) w).1 s ≡ true
      → Holds k s w
  unchanged k s w e same n h =
      get-grow k n (tmp_size d k) s w h
        (ground (arith, same_text_iff (d.nvs_get_str k (tmp_size d k) w).1 s))

  written :
      (k : Key) (s : Bytes) (w : d.World)
      → (d.nvs_set_str k s w).0 ≡ esp_ok
      → Holds k s (d.nvs_set_str k s w).1
  written k s w e n h = get-set k n s w (d.nvs_set_str k s w).1 h (ground arith)

  abbrev is_needed : Key → Bytes → d.World → Bool
  is_needed k s w =
      let (ret, old) = d.nvs_get_str k (tmp_size d k) w in
      ret == esp_ok && not (same_text old s) || ret == esp_err_nvs_not_found

  save_string-Stores :
      (k : Key) (s : Bytes) (w : d.World) → IsReadable k w → Stores k s w (save_string d k s w)
  unfolding save_string
  save_string-Stores k s w r = elim (Bool-cases (is_needed k s w)) [
    | inl needed ↦ rw needed (elim (Bool-cases ((d.nvs_set_str k s w).0 == esp_ok)) [
      | inl done ↦
          rw done (written k s w (ground arith), (λ j n ne. get-set_ne k j n s w ne), inl refl)
      | inr bad ↦ rw bad tt
    ])
    | inr same ↦ rw same (unchanged k s w (ground arith) (ground arith), (λ j n ne. refl), inr refl)
  ]

  not_both : (b : Bool) → b ≡ true → b ≢ false
  not_both b e f = cc (e, f)

  -- What is read before the last step is read after a restart, if something was written, and so is
  -- committed, or if all was committed already.
  finish-restart :
      (a b : Bool) (ret : ℕ) (w w' : d.World) (k : Key) (n : ℕ)
      → finish d a b ret w ≡ (esp_ok, w')
      → ((a || b) ≡ true) ⊎ IsCommitted w
      → d.nvs_get_str k n (restart w') ≡ d.nvs_get_str k n w
  unfolding finish
  finish-restart a b ret w w' k n e h = elim (Bool-cases (a || b)) [
    | inl changed ↦
        let e' : ((d.nvs_commit w).0, d.nvs_close (d.nvs_commit w).1) ≡ (esp_ok, w') =
          rw changed at e in
        ap (λ (q : ℕ × d.World). d.nvs_get_str k n (restart q.1)) (sym e')
        ∙ restart-close k n (d.nvs_commit w).1
        ∙ restart-commit k n w (ap (λ (q : ℕ × d.World). q.0) e')
    | inr same ↦
        let e' : (ret, d.nvs_close w) ≡ (esp_ok, w') = rw same at e in
        ap (λ (q : ℕ × d.World). d.nvs_get_str k n (restart q.1)) (sym e')
        ∙ restart-close k n w
        ∙ elim h [
          | inl changed ↦ absurd (not_both (a || b) changed same)
          | inr committed ↦ committed k n
        ]
  ]

  -- Nothing was written, or something changed.
  changed_or_IsCommitted :
      (a b : Bool) (w w₁ w₂ w₃ : d.World)
      → IsCommitted w₁
      → (a ≡ true) ⊎ (w₂ ≡ w₁)
      → (b ≡ true) ⊎ (w₃ ≡ w₂)
      → ((a || b) ≡ true) ⊎ IsCommitted w₃
  changed_or_IsCommitted a b w w₁ w₂ w₃ h (inl changed) y = inl (rw changed refl)
  changed_or_IsCommitted a b w w₁ w₂ w₃ h (inr same) (inl changed) = inl (ground arith)
  changed_or_IsCommitted a b w w₁ w₂ w₃ h (inr same) (inr same') =
      inr (subst IsCommitted (sym (same' ∙ same)) h)

  ne-failed_ok : (k : Key) (s : Bytes) (w w' : d.World) → save_string d k s w ≢ failed esp_ok w'
  unfolding save_string
  ne-failed_ok k s w w' e = ground arith

  -- A call that went on has stored its string.
  or_error-ok :
      (k : Key) (s : Bytes) (w : d.World) (next : Bool → ℕ → d.World → ℕ × d.World) (w' : d.World)
      → IsReadable k w
      → or_error d (save_string d k s w) next ≡ (esp_ok, w')
      → (changed : Bool) × (ret : ℕ) × (w₂ : d.World) × Stores k s w (saved changed ret w₂)
        × (next changed ret w₂ ≡ (esp_ok, w'))
  or_error-ok k s w next w' r = go (save_string d k s w) refl
    where
      go :
          (x : Saved d.World)
          → save_string d k s w ≡ x
          → or_error d x next ≡ (esp_ok, w')
          → (changed : Bool) × (ret : ℕ) × (w₂ : d.World) × Stores k s w (saved changed ret w₂)
            × (next changed ret w₂ ≡ (esp_ok, w'))
      go (failed err w₂) e h = absurd (ne-failed_ok k s w w₂ (cc))
      go (saved changed ret w₂) e h = (changed, ret, w₂, rw e at (save_string-Stores k s w r), h)

  -- Both strings are read after a restart that follows a call that returns ESP_OK.
  create_or_update-Holds :
      (sta : Credentials) (w w' : d.World)
      → IsCommitted w
      → IsReadable ssid_key w
      → IsReadable password_key w
      → create_or_update_sta_config d sta w ≡ (esp_ok, w')
      → Holds ssid_key sta.ssid (restart w') × Holds password_key sta.password (restart w')
  unfolding create_or_update_sta_config
  create_or_update-Holds sta w w' committed rs rp e =
      let w₁ = (d.nvs_open w).1 in
      let next_password = λ (change_ssid : Bool) (ret : ℕ) (w₂ : d.World).
        or_error d (save_string d password_key sta.password w₂)
          λ change_password ret' w₃. finish d change_ssid change_password ret' w₃ in
      let body : or_error d (save_string d ssid_key sta.ssid w₁) next_password ≡ (esp_ok, w') =
        ground arith in
      let (c, r, w₂, (hs, others, kept), e₂) =
        or_error-ok ssid_key sta.ssid w₁ next_password w'
          (rw (get-open ssid_key (tmp_size d ssid_key) w) rs) body in
      let (c', r', w₃, (hp, others', kept'), e₃) =
        or_error-ok password_key sta.password w₂ (λ c' r' w₃. finish d c c' r' w₃) w'
          (rw
            (
              others password_key (tmp_size d password_key) (λ q. cc),
              get-open password_key (tmp_size d password_key) w,
            )
            rp)
          e₂ in
      let opened : IsCommitted w₁ =
        λ k n. restart-open k n w ∙ committed k n ∙ sym (get-open k n w) in
      let at_end : (k : Key) (n : ℕ) → d.nvs_get_str k n (restart w') ≡ d.nvs_get_str k n w₃ =
        λ k n.
          finish-restart c c' r' w₃ w' k n e₃
            (changed_or_IsCommitted c c' w w₁ w₂ w₃ opened kept kept') in
      (
        λ n h. at_end ssid_key n ∙ others' ssid_key n (λ q. cc) ∙ hs n h,
        λ n h. at_end password_key n ∙ hp n h,
      )

  -- A configuration that was stored without an error is the one that the next start reads, after a
  -- restart of the device of which only what was committed is sure to be left, whatever was stored
  -- and committed before, provided that its ssid is not empty, both texts fit their buffers, both
  -- keys could be read or did not exist, the namespace can be opened again, and the storage keeps
  -- what is written.
  pub read_sta_config-create_or_update_sta_config :
      (sta old : Credentials) (w w' : d.World)
      → sta.ssid ≢ []
      → length sta.ssid < 32
      → length sta.password < 64
      → IsCommitted w
      → IsReadable ssid_key w
      → IsReadable password_key w
      → create_or_update_sta_config d sta w ≡ (esp_ok, w')
      → (d.nvs_open (restart w')).0 ≡ esp_ok
      → ((read_sta_config d old (restart w')).0 ≡ esp_ok)
        × ((read_sta_config d old (restart w')).1 ≡ sta)
  unfolding read_sta_config is_empty
  read_sta_config-create_or_update_sta_config sta old w w' ne hs hp committed rs rp e o =
      let (s, p) = create_or_update-Holds sta w w' committed rs rp e in
      ground (
        arith,
        get-open ssid_key 32 (restart w'),
        get-open password_key 64 (restart w'),
        s 32,
        p 64,
      )
