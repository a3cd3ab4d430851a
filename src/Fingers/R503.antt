-- ===== src/Fingers/R503.antt =====
-- cpp/r503pro.hh: the task of the reader R503Pro, and its start. Its ReadAllSysPara and AutoIdentify
-- are those of cpp/grow_fingerprint_serial_protocol.hh, written again.
use espidf_component_webmana.Prelude.{
  ℕ, zero, suc, ◌%◌, ◌^◌, Bool, true, false, not, ◌&&◌, Option, some, ◌==◌, if◌then◌else◌, get_or,
}
use espidf_component_webmana.Prelude.Text.{Bytes}
use espidf_component_webmana.Esp.{◌>>=◌}
use espidf_component_webmana.Fingerprint.Ret
use espidf_component_webmana.Fingerprint.Port.{Port}
use espidf_component_webmana.Fingerprint.Frame.{Reader, check_package}
use espidf_component_webmana.Fingerprint.Commands.{verify_password}
use espidf_component_webmana.Fingerprint.System.{SystemParameter, read_all_sys_para}
use espidf_component_webmana.Fingerprint.Identify.{Match, auto_identify}
use espidf_component_webmana.Fingers.Storage.{Nvs}
use espidf_component_webmana.Fingers.Manager.{
  Manager, handle_fingerprint_detected, handle_enrollment_update,
}

-- RET::WRONG_PASSWORD and RET::HARDWARE_ERROR
abbrev pub wrong_password : ℕ
wrong_password = 0x13

abbrev pub hardware_error : ℕ
hardware_error = 0xfd

-- SYSTEM_IDENFIFIER_CODE
abbrev pub system_identifier_code : ℕ
system_identifier_code = 600

-- PARAM_SECURITY::_3
abbrev pub security_3 : ℕ
security_3 = 3

module _ {d : Port} where
  -- receiveAndCheckPackage with a time-out of its own.
  unfoldable pub receive_within : (ticks buf_len : ℕ) → Reader d → ℕ × Bytes × Reader d
  unfolding check_package
  receive_within ticks buf_len r =
      let (buf, w) = d.read_bytes buf_len ticks r.world in
      (check_package d r.target_address buf_len buf, buf, record r { world = w })

  -- The search for the password: `left` numbers from `password` on, of which the source tries all
  -- below UINT32_MAX. `ret` is the answer to the last one.
  unfoldable pub crack : (left password ret : ℕ) → Reader d → ℕ × Reader d
  unfolding verify_password
  crack zero password ret r = (ret, r)
  crack (suc left) password ret r =
      let (ret', r') = verify_password password r in
      let rest = crack left (suc password) ret' r' in if ret' == Ret.ok then (Ret.ok, r') else rest

  -- Begin behind the set-up of the UART: the password, and the parameters of the reader.
  unfoldable pub read_parameters : SystemParameter → Reader d → ℕ × SystemParameter × Reader d
  unfolding read_all_sys_para
  read_parameters params r =
      let (ret, params', r') = read_all_sys_para params system_identifier_code r in
      (if not (ret == Ret.ok) then hardware_error else Ret.ok, params', r')

  unfoldable pub begin : (left : ℕ) → SystemParameter → Reader d → ℕ × SystemParameter × Reader d
  unfolding crack read_parameters
  begin left params r =
      let (ret, r') = verify_password 0 r in
      if ret == wrong_password
      then read_parameters params (crack left 0 ret r').1
      else if ret == Ret.ok
      then read_parameters params r'
      else (hardware_error, params, r')

module _ {d : Port} {n : Nvs} where
  -- task_enroll: one package of an enrolment under way. `ticks` are pdMS_TO_TICKS(20000).
  unfoldable pub task_enroll : (ticks : ℕ) → Manager d n → Manager d n
  unfolding receive_within handle_enrollment_update
  task_enroll ticks m =
      let (ret, buffer, r) = receive_within ticks 15 m.reader in
      let step = get_or buffer 10 0 in
      if not (ret == Ret.ok)
      then record (handle_enrollment_update (ret % 2 ^ 8) 0 0 m.name (record m { reader = r })) {
        is_in_enrollment = false;
      }
      else handle_enrollment_update (get_or buffer 9 0) step (d.parse_u16 buffer 11) m.name
          (record m {
            reader = r;
            is_in_enrollment = if step == 0x0F then false else m.is_in_enrollment;
          })

  -- What task_detect tells the manager of an identification.
  unfoldable pub report :
      (scheduler : Bytes → ℕ) (uninitialised : Bytes)
      → ℕ × Match × Reader d
      → Manager d n
      → Manager d n
  unfolding handle_fingerprint_detected
  report scheduler uninitialised (ret, found, r) m =
      let m' = record m { reader = r } in
      if ret == Ret.ok
      then handle_fingerprint_detected scheduler uninitialised 0 found.finger_index found.score m'
      else handle_fingerprint_detected scheduler uninitialised (ret % 2 ^ 8) 0 0 m'

  -- task_detect, with the level of the interrupt line, and with fuel for AutoIdentify.
  unfoldable pub task_detect :
      (fuel : ℕ) (new_irq_value : Bool) (scheduler : Bytes → ℕ) (uninitialised : Bytes)
      → Manager d n
      → Option (Manager d n)
  unfolding report auto_identify
  task_detect fuel new_irq_value scheduler uninitialised m =
      let identified =
        auto_identify fuel (record { finger_index = 0; score = 0 }) security_3 true 1 m.reader in
      let seen = λ (k : Manager d n). record k { previous_irq_line_value = new_irq_value } in
      if m.previous_irq_line_value && not new_irq_value
      then (identified >>= λ x. some (seen (report scheduler uninitialised x m)))
      else some (seen m)
