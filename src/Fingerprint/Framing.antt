-- ===== src/Fingerprint/Framing.antt =====
-- The frames: what the check accepts is exactly what the reader frames.
use espidf_component_webmana.Prelude.{
  ℕ, suc, ◌+◌, ◌-◌, ◌%◌, ◌≤◌, ◌<◌, ◌^◌, ◌≡◌, ◌↔◌, refl, sym, ◌∙◌, ap, [], ◌∷◌, ◌++◌, arith, length,
  take, drop, get_or, length-append, length-drop, take_all, take-drop, take-append, drop-append,
  All, All-append, All-take,
}
use mathlib.Core.Path.{subst}
use espidf_component_webmana.Prelude.Text.{Bytes}
use espidf_component_webmana.Hex.{IsByte}
use espidf_component_webmana.Fingerprint.Port.{Port, IsBigEndian}
use espidf_component_webmana.Fingerprint.Ret
use espidf_component_webmana.Fingerprint.Frame.{
  startcode, ackpacket, frame_front, make_frame, sum_bytes, check_package,
}

sum_bytes_bound : (bs : Bytes) (sum : ℕ) → sum < 2 ^ 16 → sum_bytes bs sum < 2 ^ 16
unfolding sum_bytes
sum_bytes_bound [] sum h = h
sum_bytes_bound (b ∷ bs) sum h = sum_bytes_bound bs ((sum + b) % 2 ^ 16) (omega arith)

-- The parts of a well-formed package of `n` bytes.
record Parts (d : Port) (address n : ℕ) (buf : Bytes) : Type 0 where
  start : d.parse_u16 buf 0 ≡ startcode
  sender : d.parse_u32 buf 2 ≡ address
  kind : get_or buf 6 0 ≡ ackpacket
  len : d.parse_u16 buf 7 ≡ n - 9
  sum : d.parse_u16 buf (n - 2) ≡ sum_bytes (take (n - 8) (drop 6 buf)) 0

check_package-Parts :
    (d : Port) (address n : ℕ) (buf : Bytes)
    → (check_package d address n buf ≡ Ret.ok) ↔ ((length buf ≡ n) × Parts d address n buf)
unfolding check_package
check_package-Parts d address n buf = (
  λ e. (
    ground arith,
    record {
      start = ground arith;
      sender = ground arith;
      kind = ground arith;
      len = ground arith;
      sum = ground arith;
    },
  ),
  λ h. ground arith,
)

module _ (d : Port) (be : IsBigEndian d) where
  pub slice16 :
      (buf : Bytes) (i n : ℕ)
      → All IsByte buf
      → i + 2 ≤ length buf
      → n < 2 ^ 16
      → (d.parse_u16 buf i ≡ n) ↔ (d.u16_bytes n ≡ take 2 (drop i buf))
  slice16 buf i n b h k = (
    λ e. subst (λ x. d.u16_bytes x ≡ take 2 (drop i buf)) e (be.u16_bytes-parse_u16 buf i b h),
    λ e.
        be.u16_bytes-injective _ n (be.parse_u16_bound buf i b) k
          (be.u16_bytes-parse_u16 buf i b h ∙ sym e),
  )

  slice32 :
      (buf : Bytes) (i n : ℕ)
      → All IsByte buf
      → i + 4 ≤ length buf
      → n < 2 ^ 32
      → (d.parse_u32 buf i ≡ n) ↔ (d.u32_bytes n ≡ take 4 (drop i buf))
  slice32 buf i n b h k = (
    λ e. subst (λ x. d.u32_bytes x ≡ take 4 (drop i buf)) e (be.u32_bytes-parse_u32 buf i b h),
    λ e.
        be.u32_bytes-injective _ n (be.parse_u32_bound buf i b) k
          (be.u32_bytes-parse_u32 buf i b h ∙ sym e),
  )

module _ (b0 b1 b2 b3 b4 b5 b6 b7 b8 : ℕ) (c : Bytes) (t0 t1 : ℕ) where
  -- A package with the contents `c`.
  abbrev layout : Bytes
  layout = b0 ∷ b1 ∷ b2 ∷ b3 ∷ b4 ∷ b5 ∷ b6 ∷ b7 ∷ b8 ∷ (c ++ (t0 ∷ t1 ∷ []))

  length-layout : length layout ≡ length c + 11
  length-layout = omega (arith, length-append c (t0 ∷ t1 ∷ []))

  -- The equations between the bytes of a package and what they stand for.
  record IsPackage (d : Port) (address : ℕ) : Type 0 where
    start : d.u16_bytes startcode ≡ b0 ∷ b1 ∷ []
    sender : d.u32_bytes address ≡ b2 ∷ b3 ∷ b4 ∷ b5 ∷ []
    kind : b6 ≡ ackpacket
    len : d.u16_bytes (length c + 2) ≡ b7 ∷ b8 ∷ []
    sum : d.u16_bytes (sum_bytes (b6 ∷ b7 ∷ b8 ∷ c) 0) ≡ t0 ∷ t1 ∷ []

  checksum_place : (n : ℕ) → n ≡ length c + 11 → drop (n - 2) layout ≡ t0 ∷ t1 ∷ []
  checksum_place n e =
      let place : n - 2 ≡ suc (suc (suc (suc (suc (suc (suc (suc (suc (length c))))))))) =
        omega arith in
      ap (λ k. drop k layout) place ∙ drop-append c (t0 ∷ t1 ∷ [])

  checksum_range : (n : ℕ) → n ≡ length c + 11 → take (n - 8) (drop 6 layout) ≡ b6 ∷ b7 ∷ b8 ∷ c
  checksum_range n e =
      let place : n - 8 ≡ suc (suc (suc (length c))) = omega arith in
      ap (λ k. take k (drop 6 layout)) place
      ∙ ap (λ x. b6 ∷ b7 ∷ b8 ∷ x) (take-append c (t0 ∷ t1 ∷ []))

  module _ (d : Port) (be : IsBigEndian d) (address n : ℕ) (e : n ≡ length c + 11)
      (a : address < 2 ^ 32) (small : length c ≤ 64) (bytes : All IsByte layout) where
    Parts-IsPackage : Parts d address n layout ↔ IsPackage d address
    Parts-IsPackage =
        let size = length-layout in
        let place : drop (n - 2) layout ≡ t0 ∷ t1 ∷ [] = checksum_place n e in
        let range : take (n - 8) (drop 6 layout) ≡ b6 ∷ b7 ∷ b8 ∷ c = checksum_range n e in
        let total = sum_bytes (b6 ∷ b7 ∷ b8 ∷ c) 0 in
        let start = slice16 d be layout 0 startcode bytes (omega (arith, size)) (omega arith) in
        let sender = slice32 d be layout 2 address bytes (omega (arith, size)) a in
        let len = slice16 d be layout 7 (n - 9) bytes (omega (arith, size)) (omega arith) in
        let sum =
          slice16 d be layout (n - 2) total bytes (omega (arith, size))
            (sum_bytes_bound (b6 ∷ b7 ∷ b8 ∷ c) 0 (omega arith)) in
        let count : n - 9 ≡ length c + 2 = omega arith in
        (
          λ h. record {
            start = start.0 h.start;
            sender = sender.0 h.sender;
            kind = h.kind;
            len = subst (λ x. d.u16_bytes x ≡ b7 ∷ b8 ∷ []) count (len.0 h.len);
            sum = sum.0 (h.sum ∙ ap (λ x. sum_bytes x 0) range) ∙ ap (take 2) place;
          },
          λ h. record {
            start = start.1 h.start;
            sender = sender.1 h.sender;
            kind = h.kind;
            len = len.1 (subst (λ x. d.u16_bytes x ≡ b7 ∷ b8 ∷ []) (sym count) h.len);
            sum = sum.1 (h.sum ∙ sym (ap (take 2) place)) ∙ sym (ap (λ x. sum_bytes x 0) range);
          },
        )

  frame_front-layout :
      (d : Port) (address : ℕ)
      → IsPackage d address
      → frame_front d address ackpacket c ≡ b0 ∷ b1 ∷ b2 ∷ b3 ∷ b4 ∷ b5 ∷ b6 ∷ b7 ∷ b8 ∷ c
  unfolding frame_front
  frame_front-layout d address h = rw (h.start, h.sender, h.len, h.kind) refl

  make_frame-layout :
      (d : Port) (address : ℕ)
      → length c ≤ 64
      → IsPackage d address
      → make_frame d address ackpacket c ≡ layout
  unfolding make_frame
  make_frame-layout d address small h =
      ap
        (λ x.
          frame_front d address ackpacket x
          ++ d.u16_bytes (sum_bytes (drop 6 (frame_front d address ackpacket x)) 0))
        (take_all 64 c small)
      ∙ ap (λ x. x ++ d.u16_bytes (sum_bytes (drop 6 x) 0)) (frame_front-layout d address h)
      ∙ ap (λ x. b0 ∷ b1 ∷ b2 ∷ b3 ∷ b4 ∷ b5 ∷ b6 ∷ b7 ∷ b8 ∷ (c ++ x)) h.sum

two : (s : Bytes) → length s ≡ 2 → (a : ℕ) × (b : ℕ) × (s ≡ a ∷ b ∷ [])
two [] e = absurd (omega arith)
two (a ∷ []) e = absurd (omega arith)
two (a ∷ b ∷ []) e = (a, b, refl)
two (a ∷ b ∷ x ∷ s) e = absurd (omega arith)

four : (s : Bytes) → length s ≡ 4 → (a : ℕ) × (b : ℕ) × (x : ℕ) × (y : ℕ) × (s ≡ a ∷ b ∷ x ∷ y ∷ [])
four [] e = absurd (omega arith)
four (a ∷ []) e = absurd (omega arith)
four (a ∷ b ∷ []) e = absurd (omega arith)
four (a ∷ b ∷ x ∷ []) e = absurd (omega arith)
four (a ∷ b ∷ x ∷ y ∷ []) e = (a, b, x, y, refl)
four (a ∷ b ∷ x ∷ y ∷ z ∷ s) e = absurd (omega arith)

-- The last two bytes behind the contents.
split_end :
    (s : Bytes) → 2 ≤ length s → (c : Bytes) × (t0 : ℕ) × (t1 : ℕ) × (s ≡ c ++ (t0 ∷ t1 ∷ []))
split_end s h =
    let k = length s - 2 in
    let (t0, t1, e) = two (drop k s) (omega (arith, length-drop k s)) in
    (take k s, t0, t1, sym (take-drop k s) ∙ ap (λ x. take k s ++ x) e)

-- What a reader of the address sends with contents of a given length.
abbrev pub IsFrameOf : (d : Port) (address n : ℕ) → Bytes → Type 0
IsFrameOf d address n buf =
    (c : Bytes) × (length c + 11 ≡ n) × (buf ≡ make_frame d address ackpacket c)

accepted-IsFrameOf :
    (d : Port)
    → IsBigEndian d
    → (address n : ℕ) (buf : Bytes) → address < 2 ^ 32
    → 11 ≤ n
    → n ≤ 75
    → All IsByte buf
    → length buf ≡ n
    → Parts d address n buf
    → IsFrameOf d address n buf
accepted-IsFrameOf d be address n [] a lo hi bytes e h = absurd (omega arith)
accepted-IsFrameOf d be address n (b0 ∷ []) a lo hi bytes e h = absurd (omega arith)
accepted-IsFrameOf d be address n (b0 ∷ b1 ∷ []) a lo hi bytes e h = absurd (omega arith)
accepted-IsFrameOf d be address n (b0 ∷ b1 ∷ b2 ∷ []) a lo hi bytes e h = absurd (omega arith)
accepted-IsFrameOf d be address n (b0 ∷ b1 ∷ b2 ∷ b3 ∷ []) a lo hi bytes e h = absurd (omega arith)
accepted-IsFrameOf d be address n (b0 ∷ b1 ∷ b2 ∷ b3 ∷ b4 ∷ []) a lo hi bytes e h =
    absurd (omega arith)
accepted-IsFrameOf d be address n (b0 ∷ b1 ∷ b2 ∷ b3 ∷ b4 ∷ b5 ∷ []) a lo hi bytes e h =
    absurd (omega arith)
accepted-IsFrameOf d be address n (b0 ∷ b1 ∷ b2 ∷ b3 ∷ b4 ∷ b5 ∷ b6 ∷ []) a lo hi bytes e h =
    absurd (omega arith)
accepted-IsFrameOf d be address n (b0 ∷ b1 ∷ b2 ∷ b3 ∷ b4 ∷ b5 ∷ b6 ∷ b7 ∷ []) a lo hi bytes e h =
    absurd (omega arith)
accepted-IsFrameOf d be address n (b0 ∷ b1 ∷ b2 ∷ b3 ∷ b4 ∷ b5 ∷ b6 ∷ b7 ∷ b8 ∷ s) a lo hi bytes e
      h =
    let (c, t0, t1, q) = split_end s (omega arith) in
    let size : n ≡ length c + 11 = omega (arith, ap length q, length-append c (t0 ∷ t1 ∷ [])) in
    let same = ap (λ x. b0 ∷ b1 ∷ b2 ∷ b3 ∷ b4 ∷ b5 ∷ b6 ∷ b7 ∷ b8 ∷ x) q in
    let wire =
      (Parts-IsPackage b0 b1 b2 b3 b4 b5 b6 b7 b8 c t0 t1 d be address n size a (omega arith)
          (subst (All IsByte) same bytes)).0
        (subst (Parts d address n) same h) in
    (
      c,
      sym size,
      same
          ∙ sym (make_frame-layout b0 b1 b2 b3 b4 b5 b6 b7 b8 c t0 t1 d address (omega arith) wire),
    )

-- Every frame is a package.
frame-IsPackage :
    (d : Port)
    → IsBigEndian d
    → (address : ℕ) (c : Bytes)
    → (b0 : ℕ) × (b1 : ℕ) × (b2 : ℕ) × (b3 : ℕ) × (b4 : ℕ) × (b5 : ℕ) × (b7 : ℕ) × (b8 : ℕ)
      × (t0 : ℕ) × (t1 : ℕ) × IsPackage b0 b1 b2 b3 b4 b5 ackpacket b7 b8 c t0 t1 d address
frame-IsPackage d be address c =
    let (b0, b1, start) = two (d.u16_bytes startcode) (be.length-u16_bytes startcode) in
    let (b2, b3, b4, b5, sender) = four (d.u32_bytes address) (be.length-u32_bytes address) in
    let (b7, b8, len) = two (d.u16_bytes (length c + 2)) (be.length-u16_bytes (length c + 2)) in
    let total = sum_bytes (ackpacket ∷ b7 ∷ b8 ∷ c) 0 in
    let (t0, t1, sum) = two (d.u16_bytes total) (be.length-u16_bytes total) in
    (
      b0,
      b1,
      b2,
      b3,
      b4,
      b5,
      b7,
      b8,
      t0,
      t1,
      record { start = start; sender = sender; kind = refl; len = len; sum = sum },
    )

pub frame-accepted :
    (d : Port)
    → IsBigEndian d
    → (address n : ℕ) (c : Bytes) → address < 2 ^ 32
    → length c ≤ 64
    → All IsByte (make_frame d address ackpacket c)
    → length c + 11 ≡ n
    → check_package d address n (make_frame d address ackpacket c) ≡ Ret.ok
frame-accepted d be address n c a small bytes e =
    let (b0, b1, b2, b3, b4, b5, b7, b8, t0, t1, wire) = frame-IsPackage d be address c in
    let frame = make_frame-layout b0 b1 b2 b3 b4 b5 ackpacket b7 b8 c t0 t1 d address small wire in
    let parts =
      (Parts-IsPackage b0 b1 b2 b3 b4 b5 ackpacket b7 b8 c t0 t1 d be address n (sym e) a small
          (subst (All IsByte) frame bytes)).1
        wire in
    subst (λ x. check_package d address n x ≡ Ret.ok) (sym frame)
      ((check_package-Parts d address n _).1
        (length-layout b0 b1 b2 b3 b4 b5 ackpacket b7 b8 c t0 t1 ∙ e, parts))

-- A buffer of bytes is accepted as a package of 11 to 75 bytes exactly if it is an acknowledge
-- package as the protocol frames it: start code, the reader's address, length, contents and
-- checksum. The access functions of common.hh store and read big-endian numbers.
pub check_package_iff :
    (d : Port)
    → IsBigEndian d
    → (address n : ℕ) (buf : Bytes) → address < 2 ^ 32
    → 11 ≤ n
    → n ≤ 75
    → All IsByte buf
    → (check_package d address n buf ≡ Ret.ok) ↔ IsFrameOf d address n buf
check_package_iff d be address n buf a lo hi bytes = (
  λ e.
      let (size, parts) = (check_package-Parts d address n buf).0 e in
      accepted-IsFrameOf d be address n buf a lo hi bytes size parts,
  λ (c, size, same).
      subst (λ x. check_package d address n x ≡ Ret.ok) (sym same)
        (frame-accepted d be address n c a (omega arith) (subst (All IsByte) same bytes) size),
)

-- A frame has its contents behind nine bytes, and a checksum of two bytes behind them.
pub make_frame-tail :
    (d : Port)
    → IsBigEndian d
    → (address : ℕ) (c : Bytes) → length c ≤ 64
    → (t : Bytes) × (drop 9 (make_frame d address ackpacket c) ≡ c ++ t)
      × (length (make_frame d address ackpacket c) ≡ length c + 11)
make_frame-tail d be address c small =
    let (b0, b1, b2, b3, b4, b5, b7, b8, t0, t1, wire) = frame-IsPackage d be address c in
    let e = make_frame-layout b0 b1 b2 b3 b4 b5 ackpacket b7 b8 c t0 t1 d address small wire in
    (
      t0 ∷ t1 ∷ [],
      ap (drop 9) e,
      ap length e ∙ length-layout b0 b1 b2 b3 b4 b5 ackpacket b7 b8 c t0 t1,
    )

pub make_frame-IsByte :
    (d : Port)
    → IsBigEndian d
    → (address : ℕ) (c : Bytes) → All IsByte c
    → All IsByte (make_frame d address ackpacket c)
unfolding make_frame frame_front
make_frame-IsByte d be address c h =
    let c' = take 64 c in
    let inner : All IsByte (ackpacket ∷ (d.u16_bytes (length c' + 2) ++ c')) = (
      omega arith,
      All-append IsByte (d.u16_bytes (length c' + 2)) c' (be.u16_bytes-IsByte (length c' + 2))
          (All-take IsByte 64 c h),
    ) in
    All-append IsByte (frame_front d address ackpacket c') _
      (All-append IsByte (d.u16_bytes startcode) _ (be.u16_bytes-IsByte startcode)
        (All-append IsByte (d.u32_bytes address) _ (be.u32_bytes-IsByte address) inner))
      (be.u16_bytes-IsByte _)
