-- ===== src/Wifi/Config.antt =====
-- cpp/webmanager.hh: the stored station credentials (`delete_sta_config`,
-- `create_or_update_sta_config`, `read_sta_config`). GOTO_ERROR_ON_ERROR leaves for `error:`, which
-- closes the namespace, with `ret` set to the code of the failed call.
use espidf_component_webmana.Prelude.{ℕ, Bool, true, false, not, ◌&&◌, ◌||◌, ◌==◌, if◌then◌else◌}
use espidf_component_webmana.Prelude.Text.{Bytes, same_text, is_empty}
use espidf_component_webmana.Esp.{esp_ok, esp_fail, esp_err_nvs_not_found}
use espidf_component_webmana.Wifi.Device.{Device, Key, ssid_key, password_key, Credentials}

-- The outcome of one half of `create_or_update_sta_config`: it left by `goto error` with a code, or
-- it went on with `changeSsid` or `changePassword`, and the value of `ret`.
pub data Saved (W : Type 0) : Type 0 where
  failed : (err : ℕ) (world : W) → Saved W
  saved : (changed : Bool) (ret : ℕ) (world : W) → Saved W

module _ (d : Device) where
  -- sizeof(tmp_ssid), sizeof(tmp_password)
  abbrev pub tmp_size : Key → ℕ
  tmp_size ssid_key = 33
  tmp_size password_key = 64

  -- sizeof(wifi_config_sta.sta.ssid), sizeof(wifi_config_sta.sta.password)
  abbrev sta_size : Key → ℕ
  sta_size ssid_key = 32
  sta_size password_key = 64

  unfoldable pub delete_sta_config : d.World → ℕ × d.World
  delete_sta_config w =
      let (opened, w₁) = d.nvs_open w in
      if not (opened == esp_ok)
      then (opened, d.nvs_close w₁)
      else (let (no_ssid, w₂) = d.nvs_erase_key ssid_key w₁ in
          if not (no_ssid == esp_ok)
          then (no_ssid, d.nvs_close w₂)
          else (let (no_password, w₃) = d.nvs_erase_key password_key w₂ in
              if not (no_password == esp_ok)
              then (no_password, d.nvs_close w₃)
              else (let (ret, w₄) = d.nvs_commit w₃ in (ret, d.nvs_close w₄))))

  -- The string is written if it differs from what is stored, or if nothing is stored.
  unfoldable pub save_string : Key → Bytes → d.World → Saved d.World
  save_string k value w =
      let (ret, old) = d.nvs_get_str k (tmp_size k) w in
      if (ret == esp_ok && not (same_text old value)) || ret == esp_err_nvs_not_found
      then (let (err, w') = d.nvs_set_str k value w in
          if err == esp_ok then saved true esp_ok w' else failed err w')
      else saved false ret w

  -- nvs_commit only if a string was written.
  unfoldable pub finish : Bool → Bool → ℕ → d.World → ℕ × d.World
  finish change_ssid change_password ret w =
      if change_ssid || change_password
      then (let (err, w') = d.nvs_commit w in (err, d.nvs_close w'))
      else (ret, d.nvs_close w)

  -- `goto error` with the code of the failed call, or on with the next statement.
  abbrev pub or_error : Saved d.World → (Bool → ℕ → d.World → ℕ × d.World) → ℕ × d.World
  or_error (failed err w) next = (err, d.nvs_close w)
  or_error (saved changed ret w) next = next changed ret w

  unfoldable pub create_or_update_sta_config : Credentials → d.World → ℕ × d.World
  unfolding save_string finish
  create_or_update_sta_config sta w =
      let (opened, w₁) = d.nvs_open w in
      if not (opened == esp_ok)
      then (opened, d.nvs_close w₁)
      else (or_error (save_string ssid_key sta.ssid w₁) λ change_ssid _ w₂.
          or_error (save_string password_key sta.password w₂)
            λ change_password ret w₃. finish change_ssid change_password ret w₃)

  -- The code, the credentials as far as they were read, and the world. A string that cannot be read
  -- leaves its field alone.
  unfoldable pub read_sta_config : Credentials → d.World → ℕ × Credentials × d.World
  read_sta_config sta w =
      let (opened, w₁) = d.nvs_open w in
      if not (opened == esp_ok)
      then (opened, sta, d.nvs_close w₁)
      else (let (ssid_err, ssid) = d.nvs_get_str ssid_key (sta_size ssid_key) w₁ in
          if not (ssid_err == esp_ok)
          then (esp_fail, sta, d.nvs_close w₁)
          else (let (password_err, password) =
                d.nvs_get_str password_key (sta_size password_key) w₁ in
              if not (password_err == esp_ok)
              then (esp_fail, record sta { ssid = ssid }, d.nvs_close w₁)
              else (
                if is_empty ssid then esp_fail else esp_ok,
                record { ssid = ssid; password = password },
                d.nvs_close w₁,
              )))
