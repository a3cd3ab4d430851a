-- ===== src/TimeSeries/Start.antt =====
-- Which sector `Init` begins with, and that readings can be written from there.
use espidf_component_webmana.Prelude.{
  ℕ, suc, ◌+◌, ◌*◌, ◌≤◌, ◌<◌, ◌^◌, ◌≡◌, refl, sym, ap, ◌∙◌, ◌⊎◌, Option, none, some, List, [], ◌∷◌,
  arith, ◌==◌, ◌||◌, ltb, if◌then◌else◌, length, inl, inr, true, false, Bool-cases,
}
use espidf_component_webmana.Prelude.Word.{lt64}
use espidf_component_webmana.Esp.{esp_ok, esp_error_check_ok, bind-some}
use espidf_component_webmana.TimeSeries.Flash.{Partition, KeepsFlash, Works}
use espidf_component_webmana.TimeSeries.Layout.{u64_le, word_le, word_le-u64_le}
use espidf_component_webmana.TimeSeries.{
  GranularityRuntime, Granularity, granularity_config, granularity_runtime, no_time, address,
  erase_used, init_loop, use_sector, init,
}
use espidf_component_webmana.TimeSeries.Log.{IsClean, IsFree, Represents}
use espidf_component_webmana.TimeSeries.Frame.{IsClean-Only, InRing}
use espidf_component_webmana.TimeSeries.Write.{address_start, erase_used_lem}
use espidf_component_webmana.TimeSeries.Refine.{config_bound, config_pos}

-- A time that is not negative, or that of an erased sector.
abbrev pub IsHeader : ℕ → Type 0
IsHeader t = (t < 2 ^ 63) ⊎ (t ≡ no_time)

-- The first sector that is empty or older than the one before it.
unfoldable pub first_drop : (sector last_time : ℕ) → List ℕ → Option ℕ
first_drop sector last_time [] = none
first_drop sector last_time (t ∷ ts) =
    if t == no_time || ltb t last_time then some sector else first_drop (suc sector) t ts

lt64-drop :
    (t last_time : ℕ)
    → IsHeader t
    → last_time < 2 ^ 63
    → lt64 t last_time ≡ (t == no_time || ltb t last_time)
unfolding lt64
lt64-drop t last_time (inl h) k = ground arith
lt64-drop t last_time (inr h) k = ground arith

module _ (p : Partition) where
  -- The times in the headers of the sectors from `s` on.
  abbrev pub Headers : p.World → ℕ → List ℕ → Type 0
  Headers w s [] = Unit
  Headers w s (t ∷ ts) =
      (p.read (4096 * s) 8 w ≡ (esp_ok, u64_le t)) × IsHeader t × Headers w (suc s) ts

  -- What is left of the chosen sector: it is erased.
  abbrev Erased : (start cnt : ℕ) → Option ℕ → p.World → Type 0
  Erased start cnt none w' = Unit
  Erased start cnt (some s) w' = InRing start cnt s × IsClean p start cnt w' × IsFree p w' s 0

  -- `Init` began with a sector, or with none.
  abbrev pub Begun : Granularity → Option ℕ → GranularityRuntime → p.World → Type 0
  Begun g none r w = (r.sector_index ≡ 0) × IsFree p w (granularity_config g).sector_start 0
  Begun g (some s) r w = (r.sector_index ≡ s) × Represents p r w []

header_time : (t : ℕ) → IsHeader t → word_le (u64_le t) ≡ t
header_time t (inl h) = word_le-u64_le t (omega arith)
header_time t (inr h) = word_le-u64_le t (omega arith)

up_time : (t last_time : ℕ) → IsHeader t → (t == no_time || ltb t last_time) ≡ false → t < 2 ^ 63
up_time t last_time (inl h) e = h
up_time t last_time (inr h) e = ground arith

loop_drop :
    (p : Partition) (left s last_time t : ℕ) (w w' : p.World)
    → s < 32
    → p.read (4096 * s) 8 w ≡ (esp_ok, u64_le t)
    → IsHeader t
    → last_time < 2 ^ 63
    → (t == no_time || ltb t last_time) ≡ true
    → erase_used p s t w ≡ some w'
    → init_loop p (suc left) s last_time w ≡ some (some s, w')
unfolding init_loop
loop_drop p left s last_time t w w' small read h old drop erased =
    let got : p.read (address s 0) 8 w ≡ (esp_ok, u64_le t) = rw (address_start s small) read in
    bind-some _ _ (esp_error_check_ok (p.read (address s 0) 8 w) got)
      (rw (header_time t h) (rw (lt64-drop t last_time h old) (rw (drop, erased) refl)))

loop_up :
    (p : Partition) (left s last_time t : ℕ) (w : p.World)
    → s < 32
    → p.read (4096 * s) 8 w ≡ (esp_ok, u64_le t)
    → IsHeader t
    → last_time < 2 ^ 63
    → (t == no_time || ltb t last_time) ≡ false
    → init_loop p (suc left) s last_time w ≡ init_loop p left (suc s) t w
unfolding init_loop
loop_up p left s last_time t w small read h old up =
    let got : p.read (address s 0) 8 w ≡ (esp_ok, u64_le t) = rw (address_start s small) read in
    bind-some _ _ (esp_error_check_ok (p.read (address s 0) 8 w) got)
      (rw (header_time t h) (rw (lt64-drop t last_time h old) (rw up refl)))

module _ (p : Partition) (k : KeepsFlash p) (works : Works p 32) where
  init_loop_lem :
      (start cnt s last_time : ℕ) (ts : List ℕ) (w : p.World)
      → start + cnt ≤ 32
      → start ≤ s
      → s + length ts ≤ start + cnt
      → last_time < 2 ^ 63
      → Headers p w s ts
      → IsClean p start cnt w
      → (w' : p.World) × (init_loop p (length ts) s last_time w
          ≡ some (first_drop s last_time ts, w'))
        × Erased p start cnt (first_drop s last_time ts) w'
  unfolding init_loop first_drop
  init_loop_lem start cnt s last_time [] w small low fits old h clean = (w, refl, tt)
  init_loop_lem start cnt s last_time (t ∷ ts) w small low fits old h clean =
      elim (Bool-cases (t == no_time || ltb t last_time)) [
        | inl drop ↦
            let (w', erased, only, free) =
              erase_used_lem p k works s w (u64_le t) (omega arith) h.0
                (clean s low (omega arith)) in
            (
              w',
              rw drop (
                  loop_drop p (length ts) s last_time t w w' (omega arith) h.0 h.1 old drop
                    (ap (λ v. erase_used p s v w) (sym (header_time t h.1)) ∙ erased)),
              rw drop (
                (low, omega arith),
                IsClean-Only p start cnt w w' s only clean (λ e. free),
                free,
              ),
            )
        | inr up ↦
            let (w', rest, e) =
              init_loop_lem start cnt (suc s) t ts w small (omega arith) (omega arith)
                (up_time t last_time h.1 up) h.2 clean in
            (
              w',
              rw up (loop_up p (length ts) s last_time t w (omega arith) h.0 h.1 old up ∙ rest),
              rw up e,
            )
      ]

  use_found :
      (g : Granularity) (s : ℕ) (w : p.World)
      → Erased p (granularity_config g).sector_start (granularity_config g).sector_cnt (some s) w
      → (r : GranularityRuntime) × (w' : p.World) × (use_sector p
            (granularity_runtime g)
            (some s, w)
          ≡ some (r, w'))
        × Begun p g (some s) r w'
  unfolding use_sector granularity_runtime
  use_found g s w e = (
    record (granularity_runtime g) { sector_index = s },
    w,
    refl,
    (
      refl,
      record {
        low = e.0.0;
        high = e.0.1;
        clean = e.1;
        stands = record { place = refl; short = omega arith; full = tt; older = tt };
      },
    ),
  )

  use_none :
      (g : Granularity) (w : p.World)
      → (r : GranularityRuntime) × (w' : p.World) × (use_sector p (granularity_runtime g) (none, w)
          ≡ some (r, w'))
        × Begun p g none r w'
  unfolding use_sector granularity_runtime
  use_none g w =
      let start = (granularity_config g).sector_start in
      let small : start < 32 = omega (arith, config_bound g, config_pos g) in
      let (w', erased) = works.erase-ok start w (omega arith) in
      (
        record (granularity_runtime g) { sector_index = 0 },
        w',
        bind-some _ _
            (esp_error_check_ok (p.erase_range (address start 0) 4096 w)
              (rw (address_start start small) erased))
            refl,
        (
          refl,
          λ i n low high.
              k.read-erase (4096 * start) 4096 (4096 * start + i) n w w' erased (omega arith)
                (omega arith),
        ),
      )

  use_lem :
      (g : Granularity) (found : Option ℕ) (w : p.World)
      → Erased p (granularity_config g).sector_start (granularity_config g).sector_cnt found w
      → (r : GranularityRuntime) × (w' : p.World) × (use_sector p (granularity_runtime g) (found, w)
          ≡ some (r, w'))
        × Begun p g found r w'
  use_lem g none w e = use_none g w
  use_lem g (some s) w e = use_found g s w e

  -- On flash where a sector with an erased header is erased, with the times ts in the headers of the
  -- granularity's sectors, `Init` succeeds. If a sector is empty or older than the one before it, the
  -- first such sector is taken, and the ring then stands for an empty log. Otherwise the first sector
  -- of the granularity is erased, and sector 0 of the partition is taken.
  pub init_lem :
      (g : Granularity) (ts : List ℕ) (w : p.World)
      → length ts ≡ (granularity_config g).sector_cnt
      → Headers p w (granularity_config g).sector_start ts
      → IsClean p (granularity_config g).sector_start (granularity_config g).sector_cnt w
      → (r : GranularityRuntime) × (w' : p.World) × (init p (granularity_runtime g) w
          ≡ some (r, w'))
        × Begun p g (first_drop (granularity_config g).sector_start 0 ts) r w'
  unfolding init granularity_runtime
  init_lem g ts w len h clean =
      let start = (granularity_config g).sector_start in
      let cnt = (granularity_config g).sector_cnt in
      let (w₁, loop, e) =
        init_loop_lem start cnt start 0 ts w (config_bound g) (omega arith) (omega arith)
          (omega arith) h clean in
      let (r, w', used, begun) = use_lem g (first_drop start 0 ts) w₁ e in
      (r, w', bind-some _ _ (ap (λ n. init_loop p n start 0 w) (sym len) ∙ loop) used, begun)
