-- ===== src/TimeSeries/Memory.antt =====
-- A partition in memory that meets the assumptions, for the runs and the theorems at concrete data.
use espidf_component_webmana.Prelude.{
  ℕ, zero, suc, ◌+◌, ◌-◌, ◌*◌, ◌%◌, ◌≤◌, ◌<◌, ◌≡◌, refl, sym, ap, ◌∙◌, ◌⊎◌, inl, inr, [], ◌∷◌,
  arith, Bool, ltb, leb, leb→le, ◌&&◌, if◌then◌else◌, length, take, drop, get_or, All, true, false,
}
use mathlib.Core.Path.{ap₂, subst}
use espidf_component_webmana.Prelude.Text.{Bytes}
use espidf_component_webmana.Hex.{IsByte}
use espidf_component_webmana.Esp.{esp_ok, esp_err_invalid_arg}
use espidf_component_webmana.TimeSeries.Flash.{Partition, KeepsFlash, Works, blank}
use espidf_component_webmana.TimeSeries.Log.{IsClean}

-- 32 sectors
abbrev size : ℕ
size = 131072

abbrev pub Cells : Type 0
Cells = ℕ → ℕ

abbrev cells_from : (o n : ℕ) → Cells → Bytes
cells_from o zero w = []
cells_from o (suc n) w = w o % 256 ∷ cells_from (suc o) n w

abbrev between : (low high a : ℕ) → Bool
between low high a = leb low a && ltb a high

abbrev pub overwrite : ℕ → Bytes → Cells → Cells
overwrite o bytes w a = if between o (o + length bytes) a then get_or bytes (a - o) 0 else w a

abbrev erase : (o n : ℕ) → Cells → Cells
erase o n w a = if between o (o + n) a then 255 else w a

abbrev pub memory : Partition
memory = record {
  World = Cells;
  read =
      λ o n w. if leb (o + n) size then (esp_ok, cells_from o n w) else (esp_err_invalid_arg, []);
  write = λ o bytes w.
      if leb (o + length bytes) size
      then (esp_ok, overwrite o bytes w)
      else (esp_err_invalid_arg, w);
  erase_range =
      λ o n w. if leb (o + n) size then (esp_ok, erase o n w) else (esp_err_invalid_arg, w);
}

cells_from-cong :
    (o n : ℕ) (w w' : Cells)
    → ((a : ℕ) → o ≤ a → a < o + n → w' a ≡ w a)
    → cells_from o n w' ≡ cells_from o n w
cells_from-cong o zero w w' h = refl
cells_from-cong o (suc n) w w' h =
    ap₂ (λ (c : ℕ) cs. c % 256 ∷ cs) (h o (omega arith) (omega arith))
      (cells_from-cong (suc o) n w w' (λ a low high. h a (omega arith) (omega arith)))

cells_from-blank :
    (o n : ℕ) (w : Cells) → ((a : ℕ) → o ≤ a → a < o + n → w a ≡ 255) → cells_from o n w ≡ blank n
cells_from-blank o zero w h = refl
cells_from-blank o (suc n) w h =
    ap₂ ◌∷◌ (omega (arith, h o (omega arith) (omega arith)))
      (cells_from-blank (suc o) n w (λ a low high. h a (omega arith) (omega arith)))

take-drop_cons :
    (n i : ℕ) (bs : Bytes)
    → i < length bs
    → take (suc n) (drop i bs) ≡ get_or bs i 0 ∷ take n (drop (suc i) bs)
take-drop_cons n i [] h = absurd (omega arith)
take-drop_cons n zero (b ∷ bs) h = refl
take-drop_cons n (suc i) (b ∷ bs) h = take-drop_cons n i bs (omega arith)

get_or-IsByte : (bs : Bytes) (i : ℕ) → All IsByte bs → get_or bs i 0 < 256
get_or-IsByte [] i h = omega arith
get_or-IsByte (b ∷ bs) zero h = h.0
get_or-IsByte (b ∷ bs) (suc i) h = get_or-IsByte bs i h.1

cells_from-slice :
    (o i n : ℕ) (bs : Bytes) (w : Cells)
    → All IsByte bs
    → i + n ≤ length bs
    → ((a : ℕ) → a < length bs → w (o + a) ≡ get_or bs a 0)
    → cells_from (o + i) n w ≡ take n (drop i bs)
cells_from-slice o i zero bs w h le same = refl
cells_from-slice o i (suc n) bs w h le same =
    ap₂ ◌∷◌ (omega (arith, same i (omega arith), get_or-IsByte bs i h)) (
      ap (λ (a : ℕ). cells_from a n w) (omega arith)
      ∙ cells_from-slice o (suc i) n bs w h (omega arith) same)
    ∙ sym (take-drop_cons n i bs (omega arith))

cells_from-IsByte :
    (o n : ℕ) (w : Cells) → (length (cells_from o n w) ≡ n) × All IsByte (cells_from o n w)
cells_from-IsByte o zero w = (refl, tt)
cells_from-IsByte o (suc n) w =
    let (len, bytes) = cells_from-IsByte (suc o) n w in (omega arith, (omega arith, bytes))

inside : (low high a : ℕ) → low ≤ a → a < high → between low high a ≡ true
inside low high a h k = ground arith

outside : (low high a : ℕ) → (a < low) ⊎ (high ≤ a) → between low high a ≡ false
outside low high a (inl h) = ground arith
outside low high a (inr h) = ground arith

overwrite_in :
    (o a : ℕ) (bs : Bytes) (w : Cells) → a < length bs → overwrite o bs w (o + a) ≡ get_or bs a 0
overwrite_in o a bs w h =
    let same : o + a - o ≡ a = omega arith in
    ap (λ b. if b then get_or bs (o + a - o) 0 else w (o + a))
      (inside o (o + length bs) (o + a) (omega arith) (omega arith))
    ∙ ap (λ (i : ℕ). get_or bs i 0) same

succeeded :
    {A : Type 0} (b : Bool) (x y w' : A)
    → ◌≡◌ {A = ℕ × A} (if b then (esp_ok, x) else (esp_err_invalid_arg, y)) (esp_ok, w')
    → (b ≡ true) × (x ≡ w')
succeeded {A} true x y w' e = (refl, ap (λ r. r.1) e)
succeeded {A} false x y w' e = absurd (omega (arith, ap (λ (r : ℕ × A). r.0) e))

read_in : (o n : ℕ) (w : Cells) → o + n ≤ size → memory.read o n w ≡ (esp_ok, cells_from o n w)
read_in o n w h = ground arith

read-cong :
    (o n : ℕ) (w w' : Cells)
    → ((a : ℕ) → o ≤ a → a < o + n → w' a ≡ w a)
    → memory.read o n w' ≡ memory.read o n w
read-cong o n w w' h =
    ap (λ (c : Bytes). if leb (o + n) size then (esp_ok, c) else (esp_err_invalid_arg, []))
      (cells_from-cong o n w w' h)

pub memory-KeepsFlash : KeepsFlash memory
memory-KeepsFlash = record {
  read-IsByte = λ o n w bytes e.
      let same : cells_from o n w ≡ bytes =
        (succeeded (leb (o + n) size) (cells_from o n w) [] bytes e).1 in
      subst (λ b. (length b ≡ n) × All IsByte b) same (cells_from-IsByte o n w);
  read-erase = λ offset n o k w w' e low high.
      let (fits, same) = succeeded (leb (offset + n) size) (erase offset n w) w w' e in
      read_in o k w' (omega (arith, leb→le (offset + n) size fits))
      ∙ ap (λ b. (esp_ok, b))
          (cells_from-blank o k w' (λ a lo hi.
            ap (λ f. f a) (sym same)
            ∙ ap (λ b. if b then 255 else w a)
                (inside offset (offset + n) a (omega arith) (omega arith))));
  read-erase_ne = λ offset n o k w w' e apart.
      let (fits, same) = succeeded (leb (offset + n) size) (erase offset n w) w w' e in
      read-cong o k w w' (λ a lo hi.
        ap (λ f. f a) (sym same)
        ∙ ap (λ b. if b then 255 else w a) (outside offset (offset + n) a (omega arith)));
  read-write = λ offset i k bytes w w' e h free le.
      let (fits, same) =
        succeeded (leb (offset + length bytes) size) (overwrite offset bytes w) w w' e in
      read_in (offset + i) k w' (omega (arith, leb→le (offset + length bytes) size fits))
      ∙ ap (λ b. (esp_ok, b))
          (cells_from-slice offset i k bytes w' h le
            (λ a lt. ap (λ f. f (offset + a)) (sym same) ∙ overwrite_in offset a bytes w lt));
  read-write_ne = λ offset o k bytes w w' e apart.
      let (fits, same) =
        succeeded (leb (offset + length bytes) size) (overwrite offset bytes w) w w' e in
      read-cong o k w w' (λ a lo hi.
        ap (λ f. f a) (sym same)
        ∙ ap (λ b. if b then get_or bytes (a - offset) 0 else w a)
            (outside offset (offset + length bytes) a (omega arith)));
}

pub memory-Works : Works memory 32
memory-Works = record {
  read-ok = λ o n w h. (cells_from o n w, read_in o n w h);
  write-ok = λ o bytes w h. (overwrite o bytes w, ground arith);
  erase-ok = λ s w h. (erase (4096 * s) 4096 w, ground arith);
}

-- Flash that was never written.
abbrev pub erased_flash : Cells
erased_flash a = 255

pub erased_flash-IsClean :
    (start cnt : ℕ) → start + cnt ≤ 32 → IsClean memory start cnt erased_flash
erased_flash-IsClean start cnt fits s low high header i n lo hi =
    read_in (4096 * s + i) n erased_flash (omega arith)
    ∙ ap (λ b. (esp_ok, b)) (cells_from-blank (4096 * s + i) n erased_flash (λ a l h. refl))
