-- ===== src/Fingerprint/Ret.antt =====
-- cpp/grow_fingerprint_serial_protocol.hh: the values of RET that its functions give themselves.
use espidf_component_webmana.Prelude.{ℕ}

abbrev pub ok : ℕ
ok = 0

abbrev pub cannot_find_startcode : ℕ
cannot_find_startcode = 0x100

abbrev pub wrong_module_address : ℕ
wrong_module_address = 0x101

abbrev pub acknowledge_packet_expected : ℕ
acknowledge_packet_expected = 0x102

abbrev pub unexpected_length : ℕ
unexpected_length = 0x103

abbrev pub checksum_error : ℕ
checksum_error = 0x104

abbrev pub timeout : ℕ
timeout = 0x105

abbrev pub wrong_system_identifier_code : ℕ
wrong_system_identifier_code = 0x10D
