-- ===== src/TimeSeries/Refine.antt =====
-- Writing readings into a ring of sectors is appending to a log.
use espidf_component_webmana.Prelude.{
  ℕ, ◌+◌, ◌*◌, ◌≤◌, ◌<◌, ◌≡◌, refl, sym, ap, ◌∙◌, List, [], ◌∷◌, arith, ◌==◌, if◌then◌else◌, length,
  take, take_all, zero, suc, some, inl, inr,
}
use mathlib.Core.Path.{subst}
use espidf_component_webmana.Prelude.Word.{add32}
use espidf_component_webmana.Esp.{esp_ok, esp_error_check}
use espidf_component_webmana.TimeSeries.Flash.{Partition, KeepsFlash, Works}
use espidf_component_webmana.TimeSeries.Layout.{
  u64_le, signal_bytes, signal_bytes-IsByte, length-signal_bytes, u64_le-ne-blank,
}
use espidf_component_webmana.TimeSeries.{
  FourSignals, GranularityRuntime, Granularity, ten_seconds, one_minute, one_hour, one_day, cfg,
  granularity_config, no_time, address, advance,
}
use espidf_component_webmana.TimeSeries.Log.{
  Log, capacity, before, Holds, Stored, IsClean, IsFree, IsOpen, Represents,
}
use espidf_component_webmana.TimeSeries.Frame.{
  InRing, Stored-Only, IsClean-Only, before-InRing, gap-before_self,
}
use espidf_component_webmana.TimeSeries.Write.{write_free}

pub config_bound :
    (g : Granularity) → (granularity_config g).sector_start + (granularity_config g).sector_cnt ≤ 32
config_bound ten_seconds = omega arith
config_bound one_minute = omega arith
config_bound one_hour = omega arith
config_bound one_day = omega arith

pub config_pos : (g : Granularity) → 1 ≤ (granularity_config g).sector_cnt
config_pos ten_seconds = omega arith
config_pos one_minute = omega arith
config_pos one_hour = omega arith
config_pos one_day = omega arith

-- The sector after `s` in a ring.
abbrev after : (start cnt s : ℕ) → ℕ
after start cnt s = if s + 1 == start + cnt then start else s + 1

after-InRing : (start cnt s : ℕ) → InRing start cnt s → InRing start cnt (after start cnt s)
after-InRing start cnt s h = ground arith

before-after : (start cnt s : ℕ) → InRing start cnt s → before start cnt (after start cnt s) ≡ s
before-after start cnt s h = ground arith

advance_more :
    (r : GranularityRuntime)
    → r.offset_bytes + 8 < 4096
    → advance r
      ≡ record r { offset_bytes = r.offset_bytes + 8; write_counter = add32 r.write_counter 1 }
unfolding advance add32
advance_more r h = ground arith

advance_full :
    (r : GranularityRuntime)
    → r.offset_bytes + 8 ≡ 4096
    → r.sector_index < 32
    → advance r ≡ record r {
      sector_index = after (cfg r).sector_start (cfg r).sector_cnt r.sector_index;
      offset_bytes = 0;
      write_counter = add32 r.write_counter 1;
    }
unfolding advance add32
advance_full r h small = ground arith

module _ (p : Partition) where
  pub Stored-take :
      (start cnt n : ℕ) (w : p.World) (s : ℕ) (log : Log)
      → Stored p start cnt w s log
      → Stored p start cnt w s (take n log)
  Stored-take start cnt zero w s log h = tt
  Stored-take start cnt (suc n) w s [] h = tt
  Stored-take start cnt (suc n) w s ((t, xs) ∷ log) h =
      (h.0, h.1, h.2, Stored-take start cnt n w (before start cnt s) log h.3)

  Holds-below :
      (w w' : p.World) (s o : ℕ) (xs : List FourSignals)
      → ((a n : ℕ) → a + n ≤ 4096 * s + o → p.read a n w' ≡ p.read a n w)
      → 64 + 8 * length xs ≤ o
      → Holds p w s xs
      → Holds p w' s xs
  Holds-below w w' s o [] f h k = tt
  Holds-below w w' s o (x ∷ xs) f h k = (
    f (4096 * s + (64 + 8 * length xs)) 8 (omega arith) ∙ k.0,
    Holds-below w w' s o xs f (omega arith) k.1,
  )

  -- A sector after a reading was put into it.
  pub record Filled (start cnt s offset : ℕ) (w : p.World) (t : ℕ) (xs : List FourSignals)
      (log : Log) : Type 0 where
    clean : IsClean p start cnt w
    header : p.read (4096 * s) 8 w ≡ (esp_ok, u64_le t)
    readings : Holds p w s xs
    older : Stored p start cnt w (before start cnt s) log
    free : IsFree p w s offset

module _ (p : Partition) (k : KeepsFlash p) (works : Works p 32) where
  pub fill_lem :
      (start cnt s offset : ℕ) (w : p.World) (t : ℕ) (xs : List FourSignals) (log : Log)
      (x : FourSignals)
      → start + cnt ≤ 32
      → InRing start cnt s
      → IsClean p start cnt w
      → length x ≡ 4
      → IsOpen p start cnt s offset w t xs log
      → (w' : p.World) × (esp_error_check (p.write (address s offset) (signal_bytes x) w) ≡ some w')
        × Filled p start cnt s (offset + 8) w' t (x ∷ xs) log
  fill_lem start cnt s offset w t xs log x ring hs clean four h =
      let eight : length (signal_bytes x) ≡ 8 = omega (arith, length-signal_bytes x) in
      let (w', wrote, f) =
        write_free p k works s offset (signal_bytes x) w (omega arith) (signal_bytes-IsByte x)
          (omega (arith, h.place, h.room)) h.free in
      let header : p.read (4096 * s) 8 w' ≡ (esp_ok, u64_le t) =
        f.below (4096 * s) 8 (omega (arith, h.place)) ∙ h.header in
      (
        w',
        wrote,
        record {
          clean =
              IsClean-Only p start cnt w w' s f.only clean
                (λ e. absurd (u64_le-ne-blank t h.timed (ap (λ r. r.1) (sym header ∙ e))));
          header = header;
          readings = (
            ap (λ a. p.read a 8 w') (omega (arith, h.place))
                ∙ f.stored 0 8 (omega arith)
                ∙ ap (λ b. (esp_ok, b)) (take_all 8 (signal_bytes x) (omega arith)),
            Holds-below p w w' s offset xs f.below (omega (arith, h.place)) h.readings,
          );
          older =
              Stored-Only p start cnt w w' (before start cnt s) s log f.only
                (before-InRing start cnt s hs) hs
                (omega (arith, h.short, gap-before_self start cnt s hs)) h.older;
          free = λ i n low high. f.rest i n (omega arith) high;
        },
      )

  pub Filled-Represents_more :
      (r : GranularityRuntime) (w : p.World) (t : ℕ) (x : FourSignals) (xs : List FourSignals)
      (log : Log)
      → InRing (cfg r).sector_start (cfg r).sector_cnt r.sector_index
      → r.offset_bytes ≡ 64 + 8 * length xs
      → length xs + 1 < capacity
      → length log < (cfg r).sector_cnt
      → t < no_time
      → Filled p
          (cfg r).sector_start
          (cfg r).sector_cnt
          r.sector_index
          (r.offset_bytes + 8)
          w
          t
          (x ∷ xs)
          log
      → Represents p (advance r) w ((t, x ∷ xs) ∷ log)
  Filled-Represents_more r w t x xs log ring place room short timed f =
      subst (λ q. Represents p q w ((t, x ∷ xs) ∷ log)) (sym (advance_more r (omega arith)))
        (record {
          low = ring.0;
          high = ring.1;
          clean = f.clean;
          stands = inl (record {
            place = omega arith;
            room = omega arith;
            short = short;
            timed = timed;
            header = f.header;
            readings = f.readings;
            older = f.older;
            free = f.free;
          });
        })

  pub Filled-Represents_full :
      (r : GranularityRuntime) (w : p.World) (t : ℕ) (x : FourSignals) (xs : List FourSignals)
      (log : Log)
      → InRing (cfg r).sector_start (cfg r).sector_cnt r.sector_index
      → (cfg r).sector_start + (cfg r).sector_cnt ≤ 32
      → r.offset_bytes ≡ 64 + 8 * length xs
      → length xs + 1 ≡ capacity
      → length log < (cfg r).sector_cnt
      → Filled p
          (cfg r).sector_start
          (cfg r).sector_cnt
          r.sector_index
          (r.offset_bytes + 8)
          w
          t
          (x ∷ xs)
          log
      → Represents p (advance r) w ((t, x ∷ xs) ∷ log)
  Filled-Represents_full r w t x xs log ring small place full short f =
      let start = (cfg r).sector_start in
      let cnt = (cfg r).sector_cnt in
      let s = r.sector_index in
      let next = after-InRing start cnt s ring in
      subst (λ q. Represents p q w ((t, x ∷ xs) ∷ log))
        (sym (advance_full r (omega arith) (omega arith)))
        (record {
          low = next.0;
          high = next.1;
          clean = f.clean;
          stands = inr (record {
            place = refl;
            short = omega arith;
            full = omega arith;
            older =
                subst (λ q. Stored p start cnt w q ((t, x ∷ xs) ∷ log))
                  (sym (before-after start cnt s ring))
                  (f.header, omega arith, f.readings, f.older);
          });
        })
