-- ===== src/Fingers/Manager.antt =====
-- cpp/r503pro_manager.hh: the operations of the class R503ProManager, and its calls of the handler.
use espidf_component_webmana.Prelude.{
  ℕ, Bool, true, false, not, ◌||◌, Option, none, some, List, ◌∷◌, ltb, ◌==◌, if◌then◌else◌, length,
}
use espidf_component_webmana.Prelude.Text.{Bytes}
use espidf_component_webmana.Esp.{esp_ok, esp_err_nvs_not_found}
use espidf_component_webmana.Fingerprint.Ret
use espidf_component_webmana.Fingerprint.Port.{Port}
use espidf_component_webmana.Fingerprint.Frame.{Reader}
use espidf_component_webmana.Fingerprint.Commands.{delete_char, empty_library, auto_enroll}
use espidf_component_webmana.Fingers.Storage.{Nvs, names, schedulers, actions}
use espidf_component_webmana.Fingers.{
  x_nvs_name_already_exists, x_nvs_name_unknown, x_nvs_name_too_long, x_cannot_get_mutex,
  x_nvs_not_available, x_name_is_null, max_fingername_len, index_key, or_return, store_finger,
  stored_action, stored_scheduler, rename, forget, forget_all,
}

-- The calls of the iFingerprintActionHandler.
pub data Call : Type 0 where
  detected : (error_code finger_index score : ℕ) → Call
  enrollment : (error_code step finger_index : ℕ) → Bytes → Call
  action : (finger_index action_index : ℕ) → Call

-- `name` is fingerName, and `calls` are the calls of the handler, the last one first; without a handler
-- there are none.
pub record Manager (d : Port) (n : Nvs) : Type 0 where
  pub reader : Reader d
  pub world : n.World
  pub has_handler : Bool
  pub has_names : Bool
  pub is_in_enrollment : Bool
  pub previous_irq_line_value : Bool
  pub name : Bytes
  pub calls : List Call

module _ {d : Port} {n : Nvs} where
  unfoldable pub notify : Call → Manager d n → Manager d n
  notify c m = if m.has_handler then record m { calls = c ∷ m.calls } else m

  -- `scheduler` is GetCurrentValueOfSchedule of the scheduler.
  unfoldable pub handle_fingerprint_detected :
      (scheduler : Bytes → ℕ) (uninitialised : Bytes)
      → (error_code finger_index score : ℕ) → Manager d n
      → Manager d n
  unfolding notify stored_action stored_scheduler
  handle_fingerprint_detected scheduler uninitialised error_code finger_index score m =
      let m' = notify (detected error_code finger_index score) m in
      if not (error_code == 0) || not m.has_handler
      then m'
      else if ltb 0 (scheduler (stored_scheduler n uninitialised finger_index m'.world))
      then notify (action finger_index (stored_action n finger_index m'.world)) m'
      else m'

  unfoldable pub handle_enrollment_update :
      (error_code step finger_index : ℕ) → Bytes → Manager d n → Manager d n
  unfolding notify store_finger
  handle_enrollment_update error_code step finger_index finger_name m =
      if not (step == 0x0F)
      then notify (enrollment error_code step finger_index finger_name) m
      else (let (ret, w) = store_finger n finger_name finger_index m.world in
          notify (enrollment error_code step finger_index finger_name) (record m { world = w }))

  -- A change of the storage alone, if the namespace of the names is there.
  abbrev on_world : Manager d n → ℕ × n.World → ℕ × Manager d n
  on_world m (ret, w) = (ret, record m { world = w })

  unfoldable pub try_rename : (old_name new_name : Bytes) → Manager d n → ℕ × Manager d n
  unfolding rename
  try_rename old_name new_name m =
      if not m.has_names
      then (x_nvs_not_available, m)
      else on_world m (rename n old_name new_name m.world)

  -- DeleteChar, and then the storage.
  unfoldable pub delete_finger : (name : Bytes) (finger_index : ℕ) → Manager d n → ℕ × Manager d n
  unfolding forget delete_char
  delete_finger name finger_index m =
      let (ret, r) = delete_char finger_index 1 m.reader in
      let m' = record m { reader = r } in
      if not (ret == Ret.ok) then (ret, m') else on_world m' (forget n name finger_index m.world)

  unfoldable pub try_delete : (name : Bytes) → Manager d n → ℕ × Manager d n
  unfolding delete_finger
  try_delete name m =
      let (known, finger_index) = n.get_u16 names name m.world in
      if not m.has_names
      then (x_nvs_not_available, m)
      else if not (known == esp_ok)
      then (x_nvs_name_unknown, m)
      else delete_finger name finger_index m

  unfoldable pub try_delete_all : Manager d n → ℕ × Manager d n
  unfolding forget_all empty_library
  try_delete_all m =
      let (ret, r) = empty_library m.reader in
      let m' = record m { reader = r } in
      if not m.has_names
      then (x_nvs_not_available, m)
      else if not (ret == Ret.ok)
      then (ret, m')
      else on_world m' (forget_all n m.world)

  unfoldable pub try_store_finger_action :
      (finger_index action_index : ℕ) → Manager d n → ℕ × Manager d n
  unfolding index_key
  try_store_finger_action finger_index action_index m = on_world m (
      or_return x_nvs_not_available
        (n.set_u16 actions (index_key finger_index) action_index m.world)
        λ w₁. or_return x_nvs_not_available (n.commit actions w₁) λ w₂. (Ret.ok, w₂))

  unfoldable pub try_store_finger_scheduler :
      (finger_index : ℕ) (scheduler_name : Bytes) → Manager d n → ℕ × Manager d n
  unfolding index_key
  try_store_finger_scheduler finger_index scheduler_name m = on_world m (
      or_return x_nvs_not_available
        (n.set_str schedulers (index_key finger_index) scheduler_name m.world)
        λ w₁. or_return x_nvs_not_available (n.commit schedulers w₁) λ w₂. (Ret.ok, w₂))

  -- R503Pro::AutoEnroll
  unfoldable pub r503_auto_enroll :
      ℕ
      → (overwrite_existing duplicate_allowed return_status has_to_leave : Bool) → Manager d n
      → ℕ × Manager d n
  unfolding auto_enroll
  r503_auto_enroll finger_index overwrite_existing duplicate_allowed return_status has_to_leave m =
      let (ret, r) =
        auto_enroll finger_index overwrite_existing duplicate_allowed return_status has_to_leave
          m.reader in
      (Ret.ok, record m { reader = r; is_in_enrollment = true })

  -- The mutex is free within three seconds or not. strncpy copies a name of at most 15 bytes
  -- and pads it with NULs.
  unfoldable pub try_enroll_and_store :
      (mutex_free : Bool) → Option Bytes → Manager d n → ℕ × Manager d n
  unfolding r503_auto_enroll
  try_enroll_and_store mutex_free none m = (x_name_is_null, m)
  try_enroll_and_store mutex_free (some finger_name) m =
      let (found, other) = n.get_u16 names finger_name m.world in
      let named = record m { name = finger_name } in
      if ltb max_fingername_len (length finger_name)
      then (x_nvs_name_too_long, m)
      else if not (found == esp_err_nvs_not_found)
      then (x_nvs_name_already_exists, m)
      else if not mutex_free
      then (x_cannot_get_mutex, named)
      else r503_auto_enroll 0x05DC false true true true named
