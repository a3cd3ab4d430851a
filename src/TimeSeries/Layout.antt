-- ===== src/TimeSeries/Layout.antt =====
-- How the numbers of cpp/timeseries.hh lie in memory: the lowest byte first.
use espidf_component_webmana.Prelude.{
  ℕ, zero, suc, ◌+◌, ◌*◌, ◌/◌, ◌%◌, ◌^◌, ◌<◌, ◌≤◌, ◌-◌, ◌≢◌, ◌∙◌, ◌≡◌, refl, List, [], ◌∷◌, arith,
  length, All, ap,
}
use espidf_component_webmana.Prelude.Text.{Bytes}
use mathlib.Core.Path.{ap₂}
use espidf_component_webmana.Hex.{IsByte}
use espidf_component_webmana.TimeSeries.Flash.{blank}

-- A number of two, or of eight bytes.
abbrev pub u16_le : ℕ → Bytes
u16_le n = n % 256 ∷ n / 256 % 256 ∷ []

abbrev pub u64_le : ℕ → Bytes
u64_le n =
    n % 256
    ∷ n / 2 ^ 8 % 256
    ∷ n / 2 ^ 16 % 256
    ∷ n / 2 ^ 24 % 256
    ∷ n / 2 ^ 32 % 256
    ∷ n / 2 ^ 40 % 256
    ∷ n / 2 ^ 48 % 256
    ∷ n / 2 ^ 56 % 256
    ∷ []

abbrev pub word_le : Bytes → ℕ
word_le [] = 0
word_le (b ∷ bs) = b + 256 * word_le bs

-- The `int16_t values[4]` of a FourSignals in memory, and back.
unfoldable pub signal_bytes : List ℕ → Bytes
signal_bytes [] = []
signal_bytes (v ∷ vs) = v % 256 ∷ v / 256 % 256 ∷ signal_bytes vs

unfoldable pub signals_of : Bytes → List ℕ
signals_of [] = []
signals_of (a ∷ []) = []
signals_of (a ∷ b ∷ bs) = (a + 256 * b) ∷ signals_of bs

abbrev pub IsInt16 : ℕ → Type 0
IsInt16 v = v < 2 ^ 16

pub signals_of-signal_bytes : (vs : List ℕ) → All IsInt16 vs → signals_of (signal_bytes vs) ≡ vs
unfolding signals_of signal_bytes
signals_of-signal_bytes [] h = refl
signals_of-signal_bytes (v ∷ vs) h = ground (arith, signals_of-signal_bytes vs h.1)

pub signal_bytes-IsByte : (vs : List ℕ) → All IsByte (signal_bytes vs)
unfolding signal_bytes
signal_bytes-IsByte [] = tt
signal_bytes-IsByte (v ∷ vs) = (omega arith, (omega arith, signal_bytes-IsByte vs))

pub length-signal_bytes : (vs : List ℕ) → length (signal_bytes vs) ≡ 2 * length vs
unfolding signal_bytes
length-signal_bytes [] = refl
length-signal_bytes (v ∷ vs) = omega (arith, length-signal_bytes vs)

pub word_le-u64_le : (n : ℕ) → n < 2 ^ 64 → word_le (u64_le n) ≡ n
word_le-u64_le n h = omega arith

-- 256 ^ n
pow256 : ℕ → ℕ
pow256 zero = 1
pow256 (suc n) = 256 * pow256 n

pow256_pos : (n : ℕ) → 1 ≤ pow256 n
unfolding pow256
pow256_pos zero = omega arith
pow256_pos (suc n) = omega (arith, pow256_pos n)

word_le_max :
    (bs : Bytes) → All IsByte bs → word_le bs + 1 ≡ pow256 (length bs) → bs ≡ blank (length bs)
unfolding pow256
word_le_max [] h e = refl
word_le_max (b ∷ bs) h e =
    let tail : bs ≡ blank (length bs) =
      word_le_max bs h.1 (omega (arith, h.0, pow256_pos (length bs))) in
    let first : b ≡ 255 = omega (arith, h.0, pow256_pos (length bs)) in ap₂ ◌∷◌ first tail

-- Eight bytes that are -1 as an int64_t are blank.
pub word_le-blank :
    (bs : Bytes) → All IsByte bs → length bs ≡ 8 → word_le bs ≡ 2 ^ 64 - 1 → bs ≡ blank 8
unfolding pow256
word_le-blank bs h n e = word_le_max bs h (rw n (omega arith)) ∙ ap (λ (k : ℕ). blank k) n

pub u64_le-ne-blank : (n : ℕ) → n < 2 ^ 64 - 1 → u64_le n ≢ blank 8
u64_le-ne-blank n h e = absurd (omega (arith, word_le-u64_le n (omega arith), ap word_le e))

pub u64_le-IsByte : (n : ℕ) → All IsByte (u64_le n)
u64_le-IsByte n = omega arith
