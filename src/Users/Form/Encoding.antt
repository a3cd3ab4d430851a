-- ===== src/Users/Form/Encoding.antt =====
-- `url_decode` against the encoder of the URL standard, application/x-www-form-urlencoded.
use espidf_component_webmana.Prelude.{
  ℕ, ◌+◌, ◌*◌, ◌/◌, ◌%◌, ◌≤◌, ◌<◌, ◌≡◌, ◌≢◌, refl, ◌∙◌, Bool, true, ◌||◌, [], ◌∷◌, arith, ltb, ◌==◌,
  if◌then◌else◌, All, length, ◌++◌, ap,
}
use espidf_component_webmana.Prelude.Text.{Bytes}
use espidf_component_webmana.CLib.{is_digit, is_alnum, is_xdigit, xdigit_value}
use espidf_component_webmana.Users.Form.{plain, url_decode}

-- A hexadecimal digit, in capitals.
unfoldable pub escape_digit : ℕ → ℕ
escape_digit n = if ltb n 10 then b'0' + n else 55 + n

-- The bytes that the standard does not escape.
unfoldable pub is_safe : ℕ → Bool
unfolding is_alnum
is_safe c = is_alnum c || c == b'*' || c == b'-' || c == b'.' || c == b'_'

unfoldable pub encode_byte : ℕ → Bytes
unfolding is_safe escape_digit
encode_byte c =
    if is_safe c
    then c ∷ []
    else if c == 32
    then b'+' ∷ []
    else b'%' ∷ escape_digit (c / 16) ∷ escape_digit (c % 16) ∷ []

unfoldable pub url_encode : Bytes → Bytes
unfolding encode_byte
url_encode [] = []
url_encode (c ∷ s) = encode_byte c ++ url_encode s

-- The decoded text fits the buffer that held the encoded one, so that decoding in place is safe.
pub length-url_decode : (s : Bytes) → length (url_decode s) ≤ length s
unfolding url_decode
length-url_decode [] = omega arith
length-url_decode (c ∷ []) = omega arith
length-url_decode (c ∷ h ∷ []) = omega (arith, length-url_decode (h ∷ []))
length-url_decode (c ∷ h ∷ l ∷ s) =
    ground (arith, length-url_decode s, length-url_decode (h ∷ l ∷ s))

url_decode-cons : (c : ℕ) (s : Bytes) → c ≢ 37 → url_decode (c ∷ s) ≡ plain c ∷ url_decode s
unfolding url_decode plain
url_decode-cons c [] ne = refl
url_decode-cons c (h ∷ []) ne = refl
url_decode-cons c (h ∷ l ∷ s) ne = ground arith

escape_digit_lem :
    (n : ℕ) → n < 16 → (is_xdigit (escape_digit n) ≡ true) × (xdigit_value (escape_digit n) ≡ n)
unfolding escape_digit is_xdigit xdigit_value is_digit
escape_digit_lem n h = ground arith

escape :
    (h l : ℕ) (s : Bytes)
    → is_xdigit h ≡ true
    → is_xdigit l ≡ true
    → url_decode (37 ∷ h ∷ l ∷ s) ≡ (16 * xdigit_value h + xdigit_value l) ∷ url_decode s
unfolding url_decode
escape h l s hh hl = ground arith

url_decode-escape :
    (h l : ℕ) (s : Bytes)
    → h < 16
    → l < 16
    → url_decode (37 ∷ escape_digit h ∷ escape_digit l ∷ s) ≡ (16 * h + l) ∷ url_decode s
url_decode-escape h l s hh hl =
    let (digit_h, value_h) = escape_digit_lem h hh in
    let (digit_l, value_l) = escape_digit_lem l hl in
    escape (escape_digit h) (escape_digit l) s digit_h digit_l ∙ rw (value_h, value_l) refl

url_decode-encode_byte :
    (c : ℕ) (s : Bytes) → c < 256 → url_decode (encode_byte c ++ s) ≡ c ∷ url_decode s
unfolding encode_byte is_safe is_alnum is_digit plain
url_decode-encode_byte c s h =
    ground (arith, url_decode-cons c s, url_decode-cons 43 s, url_decode-escape (c / 16) (c % 16) s)

-- Decoding gives back every text of bytes that the standard's encoder wrote.
pub url_decode-url_encode : (s : Bytes) → All (λ c. c < 256) s → url_decode (url_encode s) ≡ s
unfolding url_encode url_decode
url_decode-url_encode [] h = refl
url_decode-url_encode (c ∷ s) h =
    rw (url_decode-encode_byte c (url_encode s) h.0) (ap (◌∷◌ c) (url_decode-url_encode s h.1))
