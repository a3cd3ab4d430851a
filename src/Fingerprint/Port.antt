-- ===== src/Fingerprint/Port.antt =====
-- What cpp/grow_fingerprint_serial_protocol.hh calls and does not define: the UART driver, and the
-- big-endian access functions of common.hh.
use espidf_component_webmana.Prelude.{ℕ, ◌+◌, ◌≤◌, ◌<◌, ◌^◌, ◌≡◌, length, take, drop, All}
use espidf_component_webmana.Prelude.Text.{Bytes}
use espidf_component_webmana.Hex.{IsByte}

pub record Port : Type 1 where
  pub World : Type 0
  -- uart_flush_input
  pub flush_input : World → World
  -- uart_write_bytes
  pub write_bytes : Bytes → World → World
  -- uart_read_bytes(buf, n, ticks): the bytes that were received, none of them on an error
  pub read_bytes : (n ticks : ℕ) → World → Bytes × World
  -- The bytes that WriteU16_BigEndian and WriteU32_BigEndian store.
  pub u16_bytes : ℕ → Bytes
  pub u32_bytes : ℕ → Bytes
  -- ParseU16_BigEndian and ParseU32_BigEndian at a position of a buffer
  pub parse_u16 : Bytes → ℕ → ℕ
  pub parse_u32 : Bytes → ℕ → ℕ

-- A number of 16 or 32 bits is stored in two or four bytes, different numbers differently, and parsing
-- reads the number that is stored at the position.
pub record IsBigEndian (d : Port) : Type 0 where
  pub length-u16_bytes : (n : ℕ) → length (d.u16_bytes n) ≡ 2
  pub length-u32_bytes : (n : ℕ) → length (d.u32_bytes n) ≡ 4
  pub u16_bytes-IsByte : (n : ℕ) → All IsByte (d.u16_bytes n)
  pub u16_bytes-injective :
      (m n : ℕ) → m < 2 ^ 16 → n < 2 ^ 16 → d.u16_bytes m ≡ d.u16_bytes n → m ≡ n
  pub u32_bytes-IsByte : (n : ℕ) → All IsByte (d.u32_bytes n)
  pub u32_bytes-injective :
      (m n : ℕ) → m < 2 ^ 32 → n < 2 ^ 32 → d.u32_bytes m ≡ d.u32_bytes n → m ≡ n
  pub parse_u16_bound : (buf : Bytes) (i : ℕ) → All IsByte buf → d.parse_u16 buf i < 2 ^ 16
  pub parse_u32_bound : (buf : Bytes) (i : ℕ) → All IsByte buf → d.parse_u32 buf i < 2 ^ 32
  pub u16_bytes-parse_u16 :
      (buf : Bytes) (i : ℕ)
      → All IsByte buf
      → i + 2 ≤ length buf
      → d.u16_bytes (d.parse_u16 buf i) ≡ take 2 (drop i buf)
  pub u32_bytes-parse_u32 :
      (buf : Bytes) (i : ℕ)
      → All IsByte buf
      → i + 4 ≤ length buf
      → d.u32_bytes (d.parse_u32 buf i) ≡ take 4 (drop i buf)
