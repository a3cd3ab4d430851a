-- ===== src/Prelude/Word.antt =====
-- Machine integers as native numbers. An int64_t is its two's complement bit pattern below 2 ^ 64.
use Prim.Native.Nat.{ℕ, ◌+◌, ◌-◌, ◌%◌, ◌^◌, ◌<◌, ◌≤◌}
use espidf_component_webmana.Prelude.Tests.{ltb}
use mathlib.Core.Path.{◌≡◌}
use mathlib.Core.Bool.{Bool, true}
use native.Mathlib.Omega.{arith}

-- INT64_MAX
abbrev pub int64_max : ℕ
int64_max = 2 ^ 63 - 1

-- Addition of two int64_t, wrapping as the target's two's complement hardware does.
unfoldable pub add64 : ℕ → ℕ → ℕ
add64 a b = (a + b) % 2 ^ 64

-- Signed `a < b`.
unfoldable pub lt64 : ℕ → ℕ → Bool
lt64 a b = ltb ((a + 2 ^ 63) % 2 ^ 64) ((b + 2 ^ 63) % 2 ^ 64)

-- `a + b` and `a - b` of two uint32_t (and of size_t, which has 32 bits on the target).
unfoldable pub add32 : ℕ → ℕ → ℕ
add32 a b = (a + b) % 2 ^ 32

unfoldable pub sub32 : ℕ → ℕ → ℕ
sub32 a b = (a + 2 ^ 32 - b) % 2 ^ 32

pub add64_exact : (a b : ℕ) → a + b < 2 ^ 63 → add64 a b ≡ a + b
unfolding add64
add64_exact a b h = omega arith

pub lt64_nonneg : (a b : ℕ) → a < 2 ^ 63 → b < 2 ^ 63 → lt64 a b ≡ ltb a b
unfolding lt64
lt64_nonneg a b h k = ground arith

-- A sum past INT64_MAX is negative, so every time of the clock lies behind it.
pub lt64_overflow :
    (a b now : ℕ)
    → a < 2 ^ 63
    → b < 2 ^ 63
    → 2 ^ 63 ≤ a + b
    → now < 2 ^ 63
    → lt64 (add64 a b) now ≡ true
unfolding lt64 add64
lt64_overflow a b now ha hb h k = ground arith
