-- ===== src/Fingerprint/Tests.antt =====
-- A port whose answers are given in advance, runs on it, and the theorems at concrete packages.
use espidf_component_webmana.Prelude.{
  ℕ, zero, suc, ◌+◌, ◌*◌, ◌/◌, ◌%◌, ◌≤◌, ◌<◌, ◌^◌, ◌≡◌, ◌↔◌, refl, sym, ◌∙◌, some, List, [], ◌∷◌,
  arith, length, take, drop, get_or, All,
}
use espidf_component_webmana.Prelude.Text.{Bytes}
use espidf_component_webmana.Hex.{IsByte}
use espidf_component_webmana.Fingerprint.Port.{Port, IsBigEndian}
use espidf_component_webmana.Fingerprint.Ret
use espidf_component_webmana.Fingerprint.Frame.{
  Reader, ackpacket, make_frame, frame_front, sum_bytes, check_package,
}
use espidf_component_webmana.Fingerprint.Framing.{IsFrameOf, check_package_iff}
use espidf_component_webmana.Fingerprint.Identify.{Run, identify_loop, identify_loop_iff}

abbrev u16_bytes : ℕ → Bytes
u16_bytes n = n / 256 % 256 ∷ n % 256 ∷ []

abbrev u32_bytes : ℕ → Bytes
u32_bytes n = n / 16777216 % 256 ∷ n / 65536 % 256 ∷ n / 256 % 256 ∷ n % 256 ∷ []

abbrev parse_u16 : Bytes → ℕ → ℕ
parse_u16 buf i = 256 * get_or buf i 0 + get_or buf (suc i) 0

abbrev parse_u32 : Bytes → ℕ → ℕ
parse_u32 buf i = 65536 * parse_u16 buf i + parse_u16 buf (suc (suc i))

-- The next answer, cut to the buffer.
abbrev answer : ℕ → List Bytes → Bytes × List Bytes
answer n [] = ([], [])
answer n (buf ∷ w) = (take n buf, w)

abbrev port : Port
port = record {
  World = List Bytes;
  flush_input = λ w. w;
  write_bytes = λ s w. w;
  read_bytes = λ n ticks w. answer n w;
  u16_bytes = u16_bytes;
  u32_bytes = u32_bytes;
  parse_u16 = parse_u16;
  parse_u32 = parse_u32;
}

get_or-IsByte : (buf : Bytes) (i : ℕ) → All IsByte buf → get_or buf i 0 < 256
get_or-IsByte [] i h = omega arith
get_or-IsByte (b ∷ buf) zero h = h.0
get_or-IsByte (b ∷ buf) (suc i) h = get_or-IsByte buf i h.1

take_two :
    (buf : Bytes) (i : ℕ)
    → i + 2 ≤ length buf
    → take 2 (drop i buf) ≡ get_or buf i 0 ∷ get_or buf (suc i) 0 ∷ []
take_two [] i h = absurd (omega arith)
take_two (a ∷ []) i h = absurd (omega arith)
take_two (a ∷ b ∷ buf) zero h = refl
take_two (a ∷ b ∷ buf) (suc i) h = take_two (b ∷ buf) i (omega arith)

take_four :
    (buf : Bytes) (i : ℕ)
    → i + 4 ≤ length buf
    → take 4 (drop i buf)
      ≡ get_or buf i 0
        ∷ get_or buf (suc i) 0
        ∷ get_or buf (suc (suc i)) 0
        ∷ get_or buf (suc (suc (suc i))) 0
        ∷ []
take_four [] i h = absurd (omega arith)
take_four (a ∷ []) i h = absurd (omega arith)
take_four (a ∷ b ∷ []) i h = absurd (omega arith)
take_four (a ∷ b ∷ c ∷ []) i h = absurd (omega arith)
take_four (a ∷ b ∷ c ∷ e ∷ buf) zero h = refl
take_four (a ∷ b ∷ c ∷ e ∷ buf) (suc i) h = take_four (b ∷ c ∷ e ∷ buf) i (omega arith)

head16 : (a b : ℕ) → a < 256 → b < 256 → u16_bytes (256 * a + b) ≡ a ∷ b ∷ []
head16 a b h k = ground arith

head32 :
    (a b c e : ℕ)
    → a < 256
    → b < 256
    → c < 256
    → e < 256
    → u32_bytes (65536 * (256 * a + b) + (256 * c + e)) ≡ a ∷ b ∷ c ∷ e ∷ []
head32 a b c e h k l m =
    let n = 65536 * (256 * a + b) + (256 * c + e) in
    let first : n / 16777216 % 256 ≡ a = omega arith in
    let second : n / 65536 % 256 ≡ b = omega arith in
    let third : n / 256 % 256 ≡ c = omega arith in
    let fourth : n % 256 ≡ e = omega arith in rw (first, second, third, fourth) refl

u16_bytes-injective : (m n : ℕ) → m < 2 ^ 16 → n < 2 ^ 16 → u16_bytes m ≡ u16_bytes n → m ≡ n
u16_bytes-injective m n h k e = ground arith

u32_bytes-injective : (m n : ℕ) → m < 2 ^ 32 → n < 2 ^ 32 → u32_bytes m ≡ u32_bytes n → m ≡ n
u32_bytes-injective m n h k e = ground arith

port-IsBigEndian : IsBigEndian port
port-IsBigEndian = record {
  length-u16_bytes = λ n. refl;
  length-u32_bytes = λ n. refl;
  u16_bytes-IsByte = λ n. (omega arith, (omega arith, tt));
  u32_bytes-IsByte = λ n. (omega arith, (omega arith, (omega arith, (omega arith, tt))));
  u16_bytes-injective = u16_bytes-injective;
  u32_bytes-injective = u32_bytes-injective;
  parse_u16_bound = λ buf i b. omega (arith, get_or-IsByte buf i b, get_or-IsByte buf (suc i) b);
  parse_u32_bound = λ buf i b. omega (
    arith,
    get_or-IsByte buf i b,
    get_or-IsByte buf (suc i) b,
    get_or-IsByte buf (suc (suc i)) b,
    get_or-IsByte buf (suc (suc (suc i))) b,
  );
  u16_bytes-parse_u16 = λ buf i b h.
      head16 (get_or buf i 0) (get_or buf (suc i) 0) (get_or-IsByte buf i b)
        (get_or-IsByte buf (suc i) b)
      ∙ sym (take_two buf i h);
  u32_bytes-parse_u32 = λ buf i b h.
      head32 (get_or buf i 0) (get_or buf (suc i) 0) (get_or buf (suc (suc i)) 0)
        (get_or buf (suc (suc (suc i))) 0) (get_or-IsByte buf i b) (get_or-IsByte buf (suc i) b)
        (get_or-IsByte buf (suc (suc i)) b) (get_or-IsByte buf (suc (suc (suc i))) b)
      ∙ sym (take_four buf i h);
}

-- The answer OK of the reader with the default address.
abbrev fine : Bytes
fine = 0xEF ∷ 1 ∷ 0xFF ∷ 0xFF ∷ 0xFF ∷ 0xFF ∷ 7 ∷ 0 ∷ 3 ∷ 0 ∷ 0 ∷ 10 ∷ []

run_make_frame : make_frame port 0xFFFF_FFFF ackpacket (0 ∷ []) ≡ fine
unfolding make_frame frame_front sum_bytes
run_make_frame = refl

run_check_package : check_package port 0xFFFF_FFFF 12 fine ≡ Ret.ok
unfolding check_package sum_bytes
run_check_package = refl

check_package_iff_example :
    (check_package port 0xFFFF_FFFF 12 fine ≡ Ret.ok) ↔ IsFrameOf port 0xFFFF_FFFF 12 fine
check_package_iff_example =
    check_package_iff port port-IsBigEndian 0xFFFF_FFFF 12 fine (omega arith) (omega arith)
      (omega arith) (ground arith)

abbrev counting : Reader port
counting = record { target_address = 5; world = make_frame port 5 ackpacket (0 ∷ 1 ∷ 2 ∷ []) ∷ [] }

identify_loop_iff_example :
    (identify_loop 2 (record { finger_index = 0; score = 0 }) counting
      ≡ some (Ret.timeout, record { finger_index = 0; score = 0 }, record counting { world = [] }))
    ↔ ((n : ℕ) × (n ≤ 2)
        × Run n
            (record { finger_index = 0; score = 0 })
            counting
            (Ret.timeout, record { finger_index = 0; score = 0 }, record counting { world = [] }))
identify_loop_iff_example =
    identify_loop_iff 2 (record { finger_index = 0; score = 0 }) counting
      (Ret.timeout, record { finger_index = 0; score = 0 }, record counting { world = [] })
