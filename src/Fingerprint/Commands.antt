-- ===== src/Fingerprint/Commands.antt =====
-- cpp/grow_fingerprint_serial_protocol.hh: the commands that are answered with one byte or one number.
use espidf_component_webmana.Prelude.{ℕ, Bool, if◌then◌else◌, [], ◌∷◌, ◌++◌}
use espidf_component_webmana.Fingerprint.Port.{Port}
use espidf_component_webmana.Fingerprint.Frame.{
  Reader, receive_and_check, receive_and_check_u16, receive_and_check_u32,
}
use espidf_component_webmana.Fingerprint.Ret
use espidf_component_webmana.Fingerprint.Instructions.{
  i_gen_img, i_gen_char, i_reg_model, i_store, i_delete_char, i_empty, i_set_sys_para, i_set_pwd,
  i_vfy_pwd, i_get_random_code, i_set_addr, i_hi_speed_search, i_template_num, i_cancel,
  i_auto_enroll, send_instruction, create_and_send_instruction_packet,
  create_and_send_instruction_packet_u8, create_and_send_instruction_packet_u8_u8,
  create_and_send_instruction_packet_u16, create_and_send_instruction_packet_u16_u16,
  create_and_send_instruction_packet_u32,
}

-- The numbers of a `bool` argument.
abbrev pub flag : Bool → ℕ
flag b = if b then 1 else 0

module _ {d : Port} where
  unfoldable pub verify_password : (pwd : ℕ) → Reader d → ℕ × Reader d
  unfolding create_and_send_instruction_packet_u32 receive_and_check
  verify_password pwd r = receive_and_check (create_and_send_instruction_packet_u32 i_vfy_pwd pwd r)

  unfoldable pub set_password : (pwd : ℕ) → Reader d → ℕ × Reader d
  unfolding create_and_send_instruction_packet_u32 receive_and_check
  set_password pwd r = receive_and_check (create_and_send_instruction_packet_u32 i_set_pwd pwd r)

  unfoldable pub set_sys_para : (param value : ℕ) → Reader d → ℕ × Reader d
  unfolding create_and_send_instruction_packet_u8_u8 receive_and_check
  set_sys_para param value r =
      receive_and_check (create_and_send_instruction_packet_u8_u8 i_set_sys_para param value r)

  unfoldable pub gen_img : Reader d → ℕ × Reader d
  unfolding create_and_send_instruction_packet receive_and_check
  gen_img r = receive_and_check (create_and_send_instruction_packet i_gen_img r)

  unfoldable pub gen_char : (buffer_number : ℕ) → Reader d → ℕ × Reader d
  unfolding create_and_send_instruction_packet_u8 receive_and_check
  gen_char buffer_number r =
      receive_and_check (create_and_send_instruction_packet_u8 i_gen_char buffer_number r)

  unfoldable pub reg_model : Reader d → ℕ × Reader d
  unfolding create_and_send_instruction_packet receive_and_check
  reg_model r = receive_and_check (create_and_send_instruction_packet i_reg_model r)

  unfoldable pub store_template : (location_number : ℕ) → Reader d → ℕ × Reader d
  unfolding create_and_send_instruction_packet_u16 receive_and_check
  store_template location_number r =
      receive_and_check (create_and_send_instruction_packet_u16 i_store location_number r)

  unfoldable pub delete_char : (start_index count : ℕ) → Reader d → ℕ × Reader d
  unfolding create_and_send_instruction_packet_u16_u16 receive_and_check
  delete_char start_index count r =
      receive_and_check
        (create_and_send_instruction_packet_u16_u16 i_delete_char start_index count r)

  unfoldable pub empty_library : Reader d → ℕ × Reader d
  unfolding create_and_send_instruction_packet receive_and_check
  empty_library r = receive_and_check (create_and_send_instruction_packet i_empty r)

  unfoldable pub cancel_instruction : Reader d → ℕ × Reader d
  unfolding create_and_send_instruction_packet receive_and_check
  cancel_instruction r = receive_and_check (create_and_send_instruction_packet i_cancel r)

  unfoldable pub get_random_code : ℕ → Reader d → ℕ × ℕ × Reader d
  unfolding create_and_send_instruction_packet receive_and_check_u32
  get_random_code random_code r =
      receive_and_check_u32 random_code (create_and_send_instruction_packet i_get_random_code r)

  -- The answer is expected from the new address.
  unfoldable pub set_address : ℕ → Reader d → ℕ × Reader d
  unfolding create_and_send_instruction_packet_u32 receive_and_check
  set_address address r =
      receive_and_check (record (create_and_send_instruction_packet_u32 i_set_addr address r) {
        target_address = address;
      })

  unfoldable pub port_control_usb : Bool → Reader d → ℕ × Reader d
  unfolding create_and_send_instruction_packet_u8 receive_and_check
  port_control_usb activate_usb r =
      receive_and_check (create_and_send_instruction_packet_u8 i_set_sys_para (flag activate_usb) r)

  unfoldable pub get_template_number : ℕ → Reader d → ℕ × ℕ × Reader d
  unfolding create_and_send_instruction_packet receive_and_check_u16
  get_template_number num r =
      receive_and_check_u16 num (create_and_send_instruction_packet i_template_num r)

  -- These two only send; the answers are read elsewhere.
  unfoldable pub high_speed_search : (buffer start_page page_count : ℕ) → Reader d → ℕ × Reader d
  unfolding send_instruction
  high_speed_search buffer start_page page_count r = (
    Ret.ok,
    send_instruction i_hi_speed_search (buffer ∷ (d.u16_bytes start_page ++ d.u16_bytes page_count))
        r,
  )

  unfoldable pub auto_enroll :
      ℕ
      → (overwrite_existing duplicate_allowed return_status has_to_leave : Bool) → Reader d
      → ℕ × Reader d
  unfolding send_instruction
  auto_enroll finger_index overwrite_existing duplicate_allowed return_status has_to_leave r = (
    Ret.ok,
    send_instruction i_auto_enroll
        (d.u16_bytes finger_index
          ++ (flag overwrite_existing
              ∷ flag duplicate_allowed
              ∷ flag return_status
              ∷ flag has_to_leave
              ∷ []))
        r,
  )
