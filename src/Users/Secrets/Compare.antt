-- ===== src/Users/Secrets/Compare.antt =====
-- What `constant_time_equals` computes, from the laws of the bitwise operations.
use Prim.Native.Nat.{digits, differ, bit_or-bitwise, bit_xor-bitwise}
use espidf_component_webmana.Prelude.{
  ℕ, zero, suc, ◌/◌, ◌%◌, ◌≤◌, ◌≡◌, ◌↔◌, refl, ◌∙◌, sym, true, [], ◌∷◌, arith, max, bit_or, bit_xor,
  length,
}
use espidf_component_webmana.Prelude.Text.{Bytes}
use espidf_component_webmana.Users.Secrets.{diff_loop, constant_time_equals}

or_digits_zero : (n a b : ℕ) → a ≤ n → digits (λ y. y) max n a b ≡ 0 → (a ≡ 0) × (b ≡ 0)
or_digits_zero zero zero b h e = (refl, e)
or_digits_zero zero (suc a) b h e = absurd (omega arith)
or_digits_zero (suc n) zero b h e = (refl, e)
or_digits_zero (suc n) (suc a) b h e =
    let (low, high) = or_digits_zero n (suc a / 2) (b / 2) (omega arith) (omega arith) in
    absurd (omega arith)

bit_or_zero : (a b : ℕ) → bit_or a b ≡ 0 → (a ≡ 0) × (b ≡ 0)
bit_or_zero a b e = or_digits_zero a a b (omega arith) (sym (bit_or-bitwise a b) ∙ e)

differ_zero : (x y : ℕ) → differ x y ≡ 0 → x ≡ y
differ_zero zero y e = sym e
differ_zero (suc x) zero e = absurd (omega arith)
differ_zero (suc x) (suc y) e = omega (arith, differ_zero x y e)

differ_self : (x : ℕ) → differ x x ≡ 0
differ_self zero = refl
differ_self (suc x) = differ_self x

xor_digits_zero : (n a b : ℕ) → a ≤ n → digits (λ y. y) differ n a b ≡ 0 → a ≡ b
xor_digits_zero zero zero b h e = sym e
xor_digits_zero zero (suc a) b h e = absurd (omega arith)
xor_digits_zero (suc n) zero b h e = sym e
xor_digits_zero (suc n) (suc a) b h e =
    let high = xor_digits_zero n (suc a / 2) (b / 2) (omega arith) (omega arith) in
    let low = differ_zero (suc a % 2) (b % 2) (omega arith) in omega arith

xor_digits_self : (n a : ℕ) → a ≤ n → digits (λ y. y) differ n a a ≡ 0
xor_digits_self zero zero h = refl
xor_digits_self zero (suc a) h = absurd (omega arith)
xor_digits_self (suc n) zero h = refl
xor_digits_self (suc n) (suc a) h =
    omega (arith, xor_digits_self n (suc a / 2) (omega arith), differ_self (suc a % 2))

bit_xor_zero : (a b : ℕ) → (bit_xor a b ≡ 0) ↔ (a ≡ b)
bit_xor_zero a b = (
  λ e. xor_digits_zero a a b (omega arith) (sym (bit_xor-bitwise a b) ∙ e),
  λ e. rw e (bit_xor-bitwise b b ∙ xor_digits_self b b (omega arith)),
)

diff_loop_zero :
    (as' bs : Bytes) (diff : ℕ)
    → length as' ≡ length bs
    → diff_loop as' bs diff ≡ 0
    → (diff ≡ 0) × (as' ≡ bs)
unfolding diff_loop
diff_loop_zero [] [] diff h e = (e, refl)
diff_loop_zero [] (b ∷ bs) diff h e = absurd (omega arith)
diff_loop_zero (a ∷ as') [] diff h e = absurd (omega arith)
diff_loop_zero (a ∷ as') (b ∷ bs) diff h e =
    let (combined, rest) = diff_loop_zero as' bs (bit_or diff (bit_xor a b)) (omega arith) e in
    let (before, here) = bit_or_zero diff (bit_xor a b) combined in
    let same = (bit_xor_zero a b).0 here in (before, cc)

diff_loop_self : (as' : Bytes) → diff_loop as' as' 0 ≡ 0
unfolding diff_loop
diff_loop_self [] = refl
diff_loop_self (a ∷ as') = rw ((bit_xor_zero a a).1 refl) (diff_loop_self as')

-- The comparison that looks at every byte accepts exactly the same text.
pub constant_time_equals_iff : (a b : Bytes) → (constant_time_equals a b ≡ true) ↔ (a ≡ b)
unfolding constant_time_equals
constant_time_equals_iff a b =
    (λ e. ground (arith, diff_loop_zero a b 0), λ e. rw e (ground (arith, diff_loop_self b)))
