-- ===== src/Fingerprint/Instructions.antt =====
-- cpp/grow_fingerprint_serial_protocol.hh: the instructions that the protocol's functions send, and the
-- `createAndSendInstructionPacket` functions.
use espidf_component_webmana.Prelude.{ℕ, [], ◌∷◌, ◌++◌}
use espidf_component_webmana.Prelude.Text.{Bytes}
use espidf_component_webmana.Fingerprint.Port.{Port}
use espidf_component_webmana.Fingerprint.Frame.{Reader, commandpacket, create_and_send_data_package}

pub data Instruction : Type 0 where
  i_gen_img i_gen_char i_reg_model i_store i_delete_char i_empty : Instruction
  i_set_sys_para i_read_sys_para i_set_pwd i_vfy_pwd i_get_random_code i_set_addr : Instruction
  i_hi_speed_search i_template_num i_read_index_table i_cancel i_get_alg_ver i_get_fw_ver :
      Instruction
  i_auto_enroll i_auto_identify : Instruction

-- The byte on the wire.
unfoldable pub instruction_code : Instruction → ℕ
instruction_code i_gen_img = 0x1
instruction_code i_gen_char = 0x2
instruction_code i_reg_model = 0x5
instruction_code i_store = 0x6
instruction_code i_delete_char = 0xc
instruction_code i_empty = 0xd
instruction_code i_set_sys_para = 0xe
instruction_code i_read_sys_para = 0xf
instruction_code i_set_pwd = 0x12
instruction_code i_vfy_pwd = 0x13
instruction_code i_get_random_code = 0x14
instruction_code i_set_addr = 0x15
instruction_code i_hi_speed_search = 0x1b
instruction_code i_template_num = 0x1d
instruction_code i_read_index_table = 0x1f
instruction_code i_cancel = 0x30
instruction_code i_get_alg_ver = 0x39
instruction_code i_get_fw_ver = 0x3a
instruction_code i_auto_enroll = 0x31
instruction_code i_auto_identify = 0x32

module _ {d : Port} where
  unfoldable pub send_instruction : Instruction → Bytes → Reader d → Reader d
  unfolding create_and_send_data_package instruction_code
  send_instruction i payload =
      create_and_send_data_package commandpacket (instruction_code i ∷ payload)

  unfoldable pub create_and_send_instruction_packet : Instruction → Reader d → Reader d
  unfolding send_instruction
  create_and_send_instruction_packet i = send_instruction i []

  unfoldable pub create_and_send_instruction_packet_u8 : Instruction → ℕ → Reader d → Reader d
  unfolding send_instruction
  create_and_send_instruction_packet_u8 i payload = send_instruction i (payload ∷ [])

  unfoldable pub create_and_send_instruction_packet_u8_u8 :
      Instruction → ℕ → ℕ → Reader d → Reader d
  unfolding send_instruction
  create_and_send_instruction_packet_u8_u8 i payload1 payload2 =
      send_instruction i (payload1 ∷ payload2 ∷ [])

  unfoldable pub create_and_send_instruction_packet_u16 : Instruction → ℕ → Reader d → Reader d
  unfolding send_instruction
  create_and_send_instruction_packet_u16 i payload = send_instruction i (d.u16_bytes payload)

  unfoldable pub create_and_send_instruction_packet_u16_u16 :
      Instruction → ℕ → ℕ → Reader d → Reader d
  unfolding send_instruction
  create_and_send_instruction_packet_u16_u16 i payload1 payload2 =
      send_instruction i (d.u16_bytes payload1 ++ d.u16_bytes payload2)

  unfoldable pub create_and_send_instruction_packet_u32 : Instruction → ℕ → Reader d → Reader d
  unfolding send_instruction
  create_and_send_instruction_packet_u32 i payload = send_instruction i (d.u32_bytes payload)
