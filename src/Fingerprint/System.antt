-- ===== src/Fingerprint/System.antt =====
-- cpp/grow_fingerprint_serial_protocol.hh: the commands that are answered with a block of data.
use espidf_component_webmana.Prelude.{
  ℕ, ◌%◌, not, Option, some, [], ◌==◌, if◌then◌else◌, get_or, take, drop,
}
use espidf_component_webmana.Prelude.Text.{Bytes, c_str}
use espidf_component_webmana.Fingerprint.Port.{Port}
use espidf_component_webmana.Fingerprint.Ret
use espidf_component_webmana.Fingerprint.Frame.{Reader, receive_and_check_package}
use espidf_component_webmana.Fingerprint.Instructions.{
  Instruction, i_read_sys_para, i_get_alg_ver, i_get_fw_ver, i_read_index_table,
  create_and_send_instruction_packet, create_and_send_instruction_packet_u8, send_instruction,
}
use espidf_component_webmana.Fingerprint.Commands.{get_template_number}

-- The two texts are `none` before they are read.
pub record SystemParameter : Type 0 where
  pub status : ℕ
  pub library_size_max : ℕ
  pub library_size_used : ℕ
  pub library_indices_used : Bytes
  pub security_level : ℕ
  pub device_address : ℕ
  pub data_packet_size_code : ℕ
  pub baud_rate_times9600 : ℕ
  pub alg_ver : Option Bytes
  pub fw_ver : Option Bytes

-- From `outParams.status = …` on. Three of the numbers go into a uint8_t.
unfoldable pub fill_parameters :
    (d : Port) → SystemParameter → (expected : ℕ) → Bytes → ℕ × SystemParameter
fill_parameters d out expected buffer =
    let seen = record out { status = d.parse_u16 buffer 10 } in
    if not (d.parse_u16 buffer 12 == expected) then (Ret.wrong_system_identifier_code, seen) else (
      Ret.ok,
      record seen {
        library_size_max = d.parse_u16 buffer 14;
        security_level = d.parse_u16 buffer 16 % 256;
        device_address = d.parse_u32 buffer 18;
        data_packet_size_code = d.parse_u16 buffer 22 % 256;
        baud_rate_times9600 = d.parse_u16 buffer 24 % 256;
      },
    )

module _ {d : Port} where
  unfoldable pub read_sys_para : SystemParameter → ℕ → Reader d → ℕ × SystemParameter × Reader d
  unfolding create_and_send_instruction_packet receive_and_check_package fill_parameters
  read_sys_para out expected r =
      let (ret, buffer, r') =
        receive_and_check_package 28 (create_and_send_instruction_packet i_read_sys_para r) in
      if not (ret == Ret.ok)
      then (ret, out, r')
      else if not (get_or buffer 9 0 == 0)
      then (get_or buffer 9 0, out, r')
      else (let (answer, filled) = fill_parameters d out expected buffer in (answer, filled, r'))

  unfoldable pub get32_byte_string :
      Instruction → Option Bytes → Reader d → ℕ × Option Bytes × Reader d
  unfolding send_instruction receive_and_check_package c_str
  get32_byte_string instr string r =
      let (ret, buffer, r') = receive_and_check_package 44 (send_instruction instr [] r) in
      if not (ret == Ret.ok)
      then (ret, string, r')
      else if not (get_or buffer 9 0 == 0)
      then (get_or buffer 9 0, string, r')
      else (Ret.ok, some (c_str (take 32 (drop 10 buffer))), r')

  unfoldable pub get_alg_ver : Option Bytes → Reader d → ℕ × Option Bytes × Reader d
  unfolding get32_byte_string
  get_alg_ver = get32_byte_string i_get_alg_ver

  unfoldable pub get_fw_ver : Option Bytes → Reader d → ℕ × Option Bytes × Reader d
  unfolding get32_byte_string
  get_fw_ver = get32_byte_string i_get_fw_ver

  unfoldable pub get_template_index_table : ℕ → Bytes → Reader d → ℕ × Bytes × Reader d
  unfolding create_and_send_instruction_packet_u8 receive_and_check_package
  get_template_index_table page buf r =
      let (ret, buffer, r') =
        receive_and_check_package 44
          (create_and_send_instruction_packet_u8 i_read_index_table (page % 4) r) in
      if not (ret == Ret.ok)
      then (ret, buf, r')
      else if not (get_or buffer 9 0 == 0)
      then (get_or buffer 9 0, buf, r')
      else (Ret.ok, take 32 (drop 10 buffer), r')

  -- The four parts of `ReadAllSysPara` behind the first, each of which ends it on an error.
  unfoldable pub read_indices : SystemParameter → Reader d → ℕ × SystemParameter × Reader d
  unfolding get_template_index_table
  read_indices p r =
      let (ret, table, r') = get_template_index_table 0 p.library_indices_used r in
      (ret, record p { library_indices_used = table }, r')

  unfoldable pub read_used : SystemParameter → Reader d → ℕ × SystemParameter × Reader d
  unfolding get_template_number read_indices
  read_used p r =
      let (ret, num, r') = get_template_number p.library_size_used r in
      let counted = record p { library_size_used = num } in
      if not (ret == Ret.ok) then (ret, counted, r') else read_indices counted r'

  unfoldable pub read_firmware : SystemParameter → Reader d → ℕ × SystemParameter × Reader d
  unfolding get_fw_ver read_used
  read_firmware p r =
      let (ret, version, r') = get_fw_ver p.fw_ver r in
      let known = record p { fw_ver = version } in
      if not (ret == Ret.ok) then (ret, known, r') else read_used known r'

  unfoldable pub read_algorithm : SystemParameter → Reader d → ℕ × SystemParameter × Reader d
  unfolding get_alg_ver read_firmware
  read_algorithm p r =
      let (ret, version, r') = get_alg_ver p.alg_ver r in
      let known = record p { alg_ver = version } in
      if not (ret == Ret.ok) then (ret, known, r') else read_firmware known r'

  unfoldable pub read_all_sys_para : SystemParameter → ℕ → Reader d → ℕ × SystemParameter × Reader d
  unfolding read_sys_para read_algorithm
  read_all_sys_para out expected r =
      let (ret, p, r') = read_sys_para out expected r in
      if not (ret == Ret.ok) then (ret, p, r') else read_algorithm p r'
