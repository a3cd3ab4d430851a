-- ===== src/Hex.antt =====
-- cpp/webmanager_base.hh: `bytes_to_hex`, and the tokens and salts that it prints.
use espidf_component_webmana.Prelude.{
  ℕ, ◌+◌, ◌-◌, ◌*◌, ◌/◌, ◌%◌, ◌≤◌, ◌<◌, ◌≡◌, refl, ◌⊎◌, [], ◌∷◌, arith, ltb, if◌then◌else◌, length,
  All,
}
use espidf_component_webmana.Prelude.Text.{Bytes}

-- `hexdigits[n]`
unfoldable pub hex_digit : ℕ → ℕ
hex_digit n = if ltb n 10 then b'0' + n else b'a' + n - 10

-- `data[i] >> 4` and `data[i] & 0x0F` of a byte.
unfoldable pub bytes_to_hex : Bytes → Bytes
unfolding hex_digit
bytes_to_hex [] = []
bytes_to_hex (b ∷ bs) = hex_digit (b / 16) ∷ hex_digit (b % 16) ∷ bytes_to_hex bs

-- The 16 bytes are those of esp_fill_random. "%02x" prints a byte as `bytes_to_hex` does.
unfoldable pub generate_random_token : Bytes → Bytes
unfolding bytes_to_hex
generate_random_token random_bytes = bytes_to_hex random_bytes

unfoldable pub generate_salt_hex : Bytes → Bytes
unfolding bytes_to_hex
generate_salt_hex salt = bytes_to_hex salt

abbrev pub IsByte : ℕ → Type 0
IsByte b = b < 256

pub length-bytes_to_hex : (bs : Bytes) → length (bytes_to_hex bs) ≡ 2 * length bs
unfolding bytes_to_hex
length-bytes_to_hex [] = refl
length-bytes_to_hex (b ∷ bs) = omega (arith, length-bytes_to_hex bs)

abbrev pub IsHex : ℕ → Type 0
IsHex c = ((48 ≤ c) × (c ≤ 57)) ⊎ ((97 ≤ c) × (c ≤ 102))

pub bytes_to_hex-IsHex : (bs : Bytes) → All IsByte bs → All IsHex (bytes_to_hex bs)
unfolding bytes_to_hex
bytes_to_hex-IsHex [] h = tt
bytes_to_hex-IsHex (b ∷ bs) h = ground (arith, bytes_to_hex-IsHex bs h.1)

hex_digit-injective : (m n : ℕ) → m < 16 → n < 16 → hex_digit m ≡ hex_digit n → m ≡ n
unfolding hex_digit
hex_digit-injective m n h k e = ground arith

-- Different byte strings give different tokens and salts.
bytes_to_hex-injective :
    (as' bs : Bytes)
    → All IsByte as'
    → All IsByte bs
    → bytes_to_hex as' ≡ bytes_to_hex bs
    → as' ≡ bs
unfolding bytes_to_hex
bytes_to_hex-injective [] [] h k e = refl
bytes_to_hex-injective [] (b ∷ bs) h k e = cc
bytes_to_hex-injective (a ∷ as') [] h k e = cc
bytes_to_hex-injective (a ∷ as') (b ∷ bs) h k e = ground (
  arith,
  hex_digit-injective (a / 16) (b / 16),
  hex_digit-injective (a % 16) (b % 16),
  bytes_to_hex-injective as' bs h.1 k.1,
)
