-- ===== src/Fingers.antt =====
-- cpp/r503pro_manager.hh: what is stored of the fingers, by name and by index.
-- GOTO_ERROR_ON_ERROR and RETURN_ERRORCODE_ON_ERROR leave the function unless the call is ESP_OK.
pub mod Storage
pub mod Manager
pub mod Laws
pub mod Undo
pub mod Detect
pub mod Memory
pub mod R503
pub mod Misread
pub mod Adopt
mod Tests
use espidf_component_webmana.Prelude.{
  ℕ, ◌+◌, Bool, not, ◌||◌, Option, none, some, List, [], ◌∷◌, ltb, ◌==◌, if◌then◌else◌, length,
}
use espidf_component_webmana.Prelude.Text.{Bytes, codes}
use espidf_component_webmana.Esp.{esp_ok, esp_err_nvs_not_found}
use espidf_component_webmana.CLib.{decimal}
use espidf_component_webmana.Fingerprint.Ret
use espidf_component_webmana.Fingerprint.Port.{Port}
use espidf_component_webmana.Fingerprint.Frame.{Reader}
use espidf_component_webmana.Fingerprint.Commands.{delete_char, empty_library, auto_enroll}
use espidf_component_webmana.Fingers.Storage.{Nvs, names, schedulers, actions}

-- The further values of RET that the manager gives.
abbrev pub x_nvs_name_already_exists : ℕ
x_nvs_name_already_exists = 0x107

abbrev pub x_nvs_name_unknown : ℕ
x_nvs_name_unknown = 0x108

abbrev pub x_nvs_name_too_long : ℕ
x_nvs_name_too_long = 0x109

abbrev pub x_cannot_get_mutex : ℕ
x_cannot_get_mutex = 0x10A

abbrev pub x_nvs_not_available : ℕ
x_nvs_not_available = 0x10B

abbrev pub x_name_is_null : ℕ
x_name_is_null = 0x10C

-- NVS_KEY_NAME_MAX_SIZE is 16.
abbrev pub max_fingername_len : ℕ
max_fingername_len = 15

-- `fingerIndexAsString`, of a uint16_t
unfoldable pub index_key : ℕ → Bytes
unfolding decimal
index_key finger_index = decimal 5 finger_index

-- On with the next call, or out with an error.
unfoldable pub or_error {ℓ} : {W : Type ℓ} → ℕ × W → (W → ℕ × W) → ℕ × W
or_error (err, w) next = if err == esp_ok then next w else (err, w)

unfoldable pub or_return {ℓ} : {W : Type ℓ} → ℕ → ℕ × W → (W → ℕ × W) → ℕ × W
or_return code (err, w) next = if err == esp_ok then next w else (code, w)

module _ (n : Nvs) where
  -- The six calls of HandleEnrollmentUpdate.
  unfoldable pub store_finger : Bytes → (finger_index : ℕ) → n.World → ℕ × n.World
  unfolding index_key
  store_finger finger_name finger_index w =
      let key = index_key finger_index in
      or_error (n.set_u16 names finger_name finger_index w) λ w₁.
        or_error (n.set_u16 actions key 0 w₁) λ w₂.
          or_error (n.set_str schedulers key (codes "ALWAYS") w₂) λ w₃.
            or_error (n.commit names w₃)
              λ w₄. or_error (n.commit actions w₄) λ w₅. n.commit schedulers w₅

  -- The index and the schedule as far as they are stored: `actionIndex` stays 0, and `schedulerName`
  -- what is in its uninitialised buffer.
  unfoldable pub stored_action : (finger_index : ℕ) → n.World → ℕ
  unfolding index_key
  stored_action finger_index w =
      let (err, v) = n.get_u16 actions (index_key finger_index) w in if err == esp_ok then v else 0

  unfoldable pub stored_scheduler : (uninitialised : Bytes) (finger_index : ℕ) → n.World → Bytes
  unfolding index_key
  stored_scheduler uninitialised finger_index w =
      let (err, s) = n.get_str schedulers (index_key finger_index) w in
      if err == esp_ok then s else uninitialised

  -- TryRename behind its test of the handle.
  unfoldable pub rename : (old_name new_name : Bytes) → n.World → ℕ × n.World
  rename old_name new_name w =
      let (taken, other) = n.get_u16 names new_name w in
      let (known, finger_index) = n.get_u16 names old_name w in
      if not (taken == esp_err_nvs_not_found)
      then (x_nvs_name_already_exists, w)
      else if not (known == esp_ok)
      then (x_nvs_name_unknown, w)
      else (let (erased, w₁) = n.erase_key names old_name w in
          or_return x_nvs_not_available (n.set_u16 names new_name finger_index w₁)
            λ w₂. or_return x_nvs_not_available (n.commit names w₂) λ w₃. (Ret.ok, w₃))

  -- What TryDelete does once the reader has deleted the finger.
  unfoldable pub forget : (name : Bytes) (finger_index : ℕ) → n.World → ℕ × n.World
  unfolding index_key
  forget name finger_index w =
      let key = index_key finger_index in
      or_return x_nvs_not_available (n.erase_key names name w) λ w₁.
        or_return x_nvs_not_available (n.commit names w₁) λ w₂.
          (let (no_action, w₃) = n.erase_key actions key w₂ in
            or_return x_nvs_not_available (n.commit actions w₃) λ w₄.
              (let (no_scheduler, w₅) = n.erase_key schedulers key w₄ in
                or_return x_nvs_not_available (n.commit schedulers w₅) λ w₆. (Ret.ok, w₆)))

  unfoldable pub forget_all : n.World → ℕ × n.World
  forget_all w = or_return x_nvs_not_available (n.erase_all names w) λ w₁.
      or_return x_nvs_not_available (n.commit names w₁) λ w₂.
        or_return x_nvs_not_available (n.erase_all actions w₂) λ w₃.
          or_return x_nvs_not_available (n.commit actions w₃) λ w₄.
            or_return x_nvs_not_available (n.erase_all schedulers w₄)
              λ w₅. or_return x_nvs_not_available (n.commit schedulers w₅) λ w₆. (Ret.ok, w₆)
