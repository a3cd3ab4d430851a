-- ===== src/CLib.antt =====
-- The C library functions that the sources call on text, for the "C" locale.
use espidf_component_webmana.Prelude.{
  ℕ, zero, suc, ◌+◌, ◌-◌, ◌/◌, ◌%◌, ◌++◌, ltb, Bool, true, false, not, ◌&&◌, ◌||◌, Option, none,
  some, [], ◌∷◌, ◌==◌, leb, if◌then◌else◌,
}
use espidf_component_webmana.Prelude.Text.{Bytes}

unfoldable pub is_digit : ℕ → Bool
is_digit c = leb b'0' c && leb c b'9'

-- isalnum
unfoldable pub is_alnum : ℕ → Bool
unfolding is_digit
is_alnum c = is_digit c || leb b'A' c && leb c b'Z' || leb b'a' c && leb c b'z'

-- isxdigit
unfoldable pub is_xdigit : ℕ → Bool
unfolding is_digit
is_xdigit c = is_digit c || leb b'A' c && leb c b'F' || leb b'a' c && leb c b'f'

-- isspace
unfoldable pub is_space : ℕ → Bool
is_space c = c == 32 || leb 9 c && leb c 13

-- The value of a digit that isxdigit accepts, as strtol(…, 16) takes it.
unfoldable pub xdigit_value : ℕ → ℕ
unfolding is_digit
xdigit_value c =
    if is_digit c then c - b'0' else if leb c b'F' then c - b'A' + 10 else c - b'a' + 10

-- Does the text begin with the needle?
unfoldable pub begins : Bytes → Bytes → Bool
begins [] s = true
begins (n ∷ ns) [] = false
begins (n ∷ ns) (c ∷ s) = n == c && begins ns s

-- strstr(s, needle): the text from the first occurrence on, `none` for NULL.
unfoldable pub strstr : Bytes → Bytes → Option Bytes
unfolding begins
strstr needle [] = if begins needle [] then some [] else none
strstr needle (c ∷ s) =
    let later = strstr needle s in if begins needle (c ∷ s) then some (c ∷ s) else later

-- The longest beginning of at most `n` bytes that pass the test.
unfoldable pub scan_while : (ℕ → Bool) → ℕ → Bytes → Bytes
scan_while test zero s = []
scan_while test (suc n) [] = []
scan_while test (suc n) (c ∷ s) = let rest = scan_while test n s in if test c then c ∷ rest else []

unfoldable pub skip_space : Bytes → Bytes
unfolding is_space
skip_space [] = []
skip_space (c ∷ s) = let rest = skip_space s in if is_space c then rest else c ∷ s

-- sscanf(s, "%<n>s", out): `out` where it was empty before.
unfoldable pub scan_word : ℕ → Bytes → Bytes
unfolding scan_while skip_space
scan_word n s = scan_while (λ c. not (is_space c)) n (skip_space s)

-- sscanf(s, "%<n>[^&]", out): `out` where it was empty before.
unfoldable pub scan_field : ℕ → Bytes → Bytes
unfolding scan_while
scan_field n s = scan_while (λ c. not (c == b'&')) n s

-- "%d" and "%lld" of a number that has at most `fuel` digits.
unfoldable pub decimal : ℕ → ℕ → Bytes
decimal zero n = []
decimal (suc fuel) n =
    let front = decimal fuel (n / 10) in
    if ltb n 10 then (b'0' + n) ∷ [] else front ++ ((b'0' + n % 10) ∷ [])
