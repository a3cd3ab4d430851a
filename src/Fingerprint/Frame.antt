-- ===== src/Fingerprint/Frame.antt =====
-- cpp/grow_fingerprint_serial_protocol.hh: `createAndSendDataPackage`, `receiveAndCheckPackage` and the
-- three functions that take a value out of a package. A RET is its number.
use espidf_component_webmana.Prelude.{
  ℕ, ◌+◌, ◌-◌, ◌%◌, ◌^◌, not, [], ◌∷◌, ◌++◌, ◌==◌, if◌then◌else◌, length, take, drop, get_or,
}
use espidf_component_webmana.Prelude.Text.{Bytes}
use espidf_component_webmana.Fingerprint.Port.{Port}
use espidf_component_webmana.Fingerprint.Ret

-- pdMS_TO_TICKS(1000) at a tick rate of 1000 Hz.
abbrev pub default_timeout_ticks : ℕ
default_timeout_ticks = 1000

abbrev pub startcode : ℕ
startcode = 0xEF01

-- PacketIdentifier
abbrev pub commandpacket : ℕ
commandpacket = 1

abbrev pub ackpacket : ℕ
ackpacket = 7

-- `sum` is a uint16_t.
unfoldable pub sum_bytes : Bytes → ℕ → ℕ
sum_bytes [] sum = sum
sum_bytes (b ∷ bs) sum = sum_bytes bs ((sum + b) % 2 ^ 16)

-- The state of PackageCreatorAndParser.
pub record Reader (d : Port) : Type 0 where
  pub target_address : ℕ
  pub world : d.World

module _ (d : Port) where
  -- The buffer before the checksum is stored.
  unfoldable pub frame_front : (address pid : ℕ) → Bytes → Bytes
  frame_front address pid contents =
      d.u16_bytes startcode
      ++ (d.u32_bytes address ++ (pid ∷ (d.u16_bytes (length contents + 2) ++ contents)))

  -- At most 64 bytes of the contents are sent.
  unfoldable pub make_frame : (address pid : ℕ) → Bytes → Bytes
  unfolding frame_front sum_bytes
  make_frame address pid contents =
      let front = frame_front address pid (take 64 contents) in
      front ++ d.u16_bytes (sum_bytes (drop 6 front) 0)

  -- The tests on the buffer, in their order.
  unfoldable pub check_package : (target_address buf_len : ℕ) → Bytes → ℕ
  unfolding sum_bytes
  check_package target_address buf_len buf =
      if not (length buf == buf_len)
      then Ret.timeout
      else if not (d.parse_u16 buf 0 == startcode)
      then Ret.cannot_find_startcode
      else if not (d.parse_u32 buf 2 == target_address)
      then Ret.wrong_module_address
      else if not (get_or buf 6 0 == ackpacket)
      then Ret.acknowledge_packet_expected
      else if not (d.parse_u16 buf 7 == buf_len - 9)
      then Ret.unexpected_length
      else if not (d.parse_u16 buf (buf_len - 2) == sum_bytes (take (buf_len - 8) (drop 6 buf)) 0)
      then Ret.checksum_error
      else Ret.ok

module _ {d : Port} where
  unfoldable pub create_and_send_data_package : ℕ → Bytes → Reader d → Reader d
  unfolding make_frame
  create_and_send_data_package pid contents r = record r {
    world = d.write_bytes (make_frame d r.target_address pid contents) (d.flush_input r.world);
  }

  -- The answer, the buffer, and the reader.
  unfoldable pub receive_and_check_package : ℕ → Reader d → ℕ × Bytes × Reader d
  unfolding check_package
  receive_and_check_package buf_len r =
      let (buf, w) = d.read_bytes buf_len default_timeout_ticks r.world in
      (check_package d r.target_address buf_len buf, buf, record r { world = w })

  -- The answer's own byte, if the package is well formed.
  unfoldable pub receive_and_check : Reader d → ℕ × Reader d
  unfolding receive_and_check_package
  receive_and_check r =
      let (ret, buf, r') = receive_and_check_package 12 r in
      (if not (ret == Ret.ok) then ret else get_or buf 9 0, r')

  -- `val` is left as it was, if the package is not well formed.
  unfoldable pub receive_and_check_u16 : ℕ → Reader d → ℕ × ℕ × Reader d
  unfolding receive_and_check_package
  receive_and_check_u16 val r =
      let (ret, buf, r') = receive_and_check_package 14 r in
      if not (ret == Ret.ok) then (ret, val, r') else (get_or buf 9 0, d.parse_u16 buf 10, r')

  unfoldable pub receive_and_check_u32 : ℕ → Reader d → ℕ × ℕ × Reader d
  unfolding receive_and_check_package
  receive_and_check_u32 val r =
      let (ret, buf, r') = receive_and_check_package 16 r in
      if not (ret == Ret.ok) then (ret, val, r') else (get_or buf 9 0, d.parse_u32 buf 10, r')
