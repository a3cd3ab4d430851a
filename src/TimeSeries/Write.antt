-- ===== src/TimeSeries/Write.antt =====
-- Preparing a sector, and writing a reading into it.
use espidf_component_webmana.Prelude.{
  ℕ, ◌+◌, ◌*◌, ◌≤◌, ◌<◌, ◌≡◌, refl, ap, ◌∙◌, ◌++◌, arith, ◌==◌, ==_iff, length, take, drop, All,
  some, inl, inr, Bool-cases,
}
use espidf_component_webmana.Prelude.Text.{Bytes}
use espidf_component_webmana.Hex.{IsByte}
use espidf_component_webmana.Esp.{esp_ok, esp_error_check, esp_error_check_ok, bind-some}
use espidf_component_webmana.TimeSeries.Flash.{Partition, KeepsFlash, Works, blank}
use espidf_component_webmana.TimeSeries.Layout.{u64_le, word_le, word_le-blank}
use espidf_component_webmana.TimeSeries.{
  GranularityRuntime, Granularity, no_time, address, erase_used, prepare_new_sector,
  granularity_code,
}
use espidf_component_webmana.TimeSeries.Log.{IsFree}
use espidf_component_webmana.TimeSeries.Frame.{Only, Only-trans}

pub address_exact : (s o : ℕ) → s < 32 → o ≤ 4096 → address s o ≡ 4096 * s + o
unfolding address
address_exact s o h k = omega arith

pub address_start : (s : ℕ) → s < 32 → address s 0 ≡ 4096 * s
unfolding address
address_start s h = omega arith

u64s-IsByte : (now : ℕ) (g : Granularity) → All IsByte (u64_le now ++ u64_le (granularity_code g))
u64s-IsByte now g = omega arith

module _ (p : Partition) (k : KeepsFlash p) (works : Works p 32) where
  pub erase_used_lem :
      (s : ℕ) (w : p.World) (header : Bytes)
      → s < 32
      → p.read (4096 * s) 8 w ≡ (esp_ok, header)
      → (p.read (4096 * s) 8 w ≡ (esp_ok, blank 8) → IsFree p w s 0)
      → (w' : p.World) × (erase_used p s (word_le header) w ≡ some w')
        × Only p s w w'
        × IsFree p w' s 0
  unfolding erase_used
  erase_used_lem s w header small e clean = elim (Bool-cases (word_le header == no_time)) [
    | inl empty ↦
        let (n, bytes) = k.read-IsByte (4096 * s) 8 w header e in
        let is_blank : header ≡ blank 8 =
          word_le-blank header bytes n ((==_iff (word_le header) no_time).0 empty) in
        (w, rw empty refl, (λ o n h. refl), clean (e ∙ ap (λ b. (esp_ok, b)) is_blank))
    | inr used ↦
        let (w', erased) = works.erase-ok s w (omega arith) in
        (
          w',
          rw (used, address_start s small, erased) refl,
          (λ o n h. k.read-erase_ne (4096 * s) 4096 o n w w' erased h),
          λ i n low high.
              k.read-erase (4096 * s) 4096 (4096 * s + i) n w w' erased (omega arith) (omega arith),
        )
  ]

  -- What a write into the free part of a sector does.
  pub record Written (s o : ℕ) (bytes : Bytes) (w w' : p.World) : Type 0 where
    pub only : Only p s w w'
    pub below : (a n : ℕ) → a + n ≤ 4096 * s + o → p.read a n w' ≡ p.read a n w
    pub stored :
        (i n : ℕ)
        → i + n ≤ length bytes
        → p.read (4096 * s + o + i) n w' ≡ (esp_ok, take n (drop i bytes))
    pub rest : IsFree p w' s (o + length bytes)

  pub write_free :
      (s o : ℕ) (bytes : Bytes) (w : p.World)
      → s < 32
      → All IsByte bytes
      → o + length bytes ≤ 4096
      → IsFree p w s o
      → (w' : p.World) × (esp_error_check (p.write (address s o) bytes w) ≡ some w')
        × Written s o bytes w w'
  write_free s o bytes w small h fits free =
      let (w', e) = works.write-ok (4096 * s + o) bytes w (omega arith) in
      (
        w',
        rw (address_exact s o small (omega arith), e) refl,
        record {
          only = λ a n out. k.read-write_ne (4096 * s + o) a n bytes w w' e (omega arith);
          below = λ a n le. k.read-write_ne (4096 * s + o) a n bytes w w' e (inl le);
          stored = λ i n le.
              k.read-write (4096 * s + o) i n bytes w w' e h
                (free o (length bytes) (omega arith) fits) le;
          rest = λ i n low high.
              k.read-write_ne (4096 * s + o) (4096 * s + i) n bytes w w' e (inr (omega arith))
              ∙ free i n (omega arith) high;
        },
      )

  -- A sector is prepared: it has the time in its header, and is free behind it.
  pub prepare_new_sector_lem :
      (now : ℕ) (r : GranularityRuntime) (w : p.World)
      → r.sector_index < 32
      → (p.read (4096 * r.sector_index) 8 w ≡ (esp_ok, blank 8) → IsFree p w r.sector_index 0)
      → (w' : p.World) × (prepare_new_sector p now r w ≡ some w')
        × Only p r.sector_index w w'
        × (p.read (4096 * r.sector_index) 8 w' ≡ (esp_ok, u64_le now))
        × IsFree p w' r.sector_index 64
  unfolding prepare_new_sector
  prepare_new_sector_lem now r w small clean =
      let s = r.sector_index in
      let front = u64_le now ++ u64_le (granularity_code r.granularity) in
      let (header, read) = works.read-ok (4096 * s) 8 w (omega arith) in
      let (w₁, erased, only₁, free₁) = erase_used_lem s w header small read clean in
      let (w₂, wrote, h) =
        write_free s 0 front w₁ small (u64s-IsByte now r.granularity) (omega arith) free₁ in
      (
        w₂,
        bind-some _ _
            (esp_error_check_ok (p.read (address s 0) 8 w) (rw (address_start s small) read))
            (bind-some _ _ erased wrote),
        Only-trans p s w w₁ w₂ only₁ h.only,
        ap (λ a. p.read a 8 w₂) (omega arith) ∙ h.stored 0 8 (omega arith),
        λ i n low high. h.rest i n (omega arith) high,
      )
