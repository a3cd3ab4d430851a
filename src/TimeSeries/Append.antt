-- ===== src/TimeSeries/Append.antt =====
-- `Write` refines appending a reading to a log.
use espidf_component_webmana.Prelude.{
  ℕ, ◌+◌, ◌-◌, ◌*◌, ◌<◌, ◌≡◌, refl, sym, ap, ◌∙◌, List, [], ◌∷◌, arith, length, take, length-take,
  some, inl, inr,
}
use mathlib.Core.Path.{subst}
use native.Mathlib.Decide.{dec_lt}
use espidf_component_webmana.Esp.{esp_error_check, bind-some}
use espidf_component_webmana.TimeSeries.Flash.{Partition, KeepsFlash, Works}
use espidf_component_webmana.TimeSeries.Layout.{signal_bytes, u64_le-ne-blank}
use espidf_component_webmana.TimeSeries.{
  FourSignals, GranularityRuntime, cfg, no_time, address, open_sector, advance, write,
  prepare_new_sector,
}
use espidf_component_webmana.TimeSeries.Log.{
  Log, capacity, before, begin_sector, put, append, Stored, IsClean, IsOpen, Represents,
}
use espidf_component_webmana.TimeSeries.Frame.{
  InRing, Stored-Only, IsClean-Only, before-InRing, gap-before_self,
}
use espidf_component_webmana.TimeSeries.Write.{prepare_new_sector_lem}
use espidf_component_webmana.TimeSeries.Refine.{
  config_bound, Stored-take, fill_lem, Filled-Represents_more, Filled-Represents_full,
}

open_closed :
    (p : Partition) (now : ℕ) (r : GranularityRuntime) (w w' : p.World)
    → r.offset_bytes ≡ 0
    → prepare_new_sector p now r w ≡ some w'
    → open_sector p now r w ≡ some (record r { offset_bytes = 64 }, w')
unfolding open_sector
open_closed p now r w w' closed e = simp (closed, e)

open_opened :
    (p : Partition) (now n : ℕ) (r : GranularityRuntime) (w : p.World)
    → r.offset_bytes ≡ 64 + n
    → open_sector p now r w ≡ some (r, w)
unfolding open_sector
open_opened p now n r w e = ground arith

granularity-advance : (r : GranularityRuntime) → (advance r).granularity ≡ r.granularity
unfolding advance
granularity-advance r = ground arith

append_room :
    (cnt now t : ℕ) (x : FourSignals) (xs : List FourSignals) (log : Log)
    → length xs < capacity
    → append cnt now x ((t, xs) ∷ log) ≡ (t, x ∷ xs) ∷ log
unfolding append begin_sector put
append_room cnt now t x xs log h = ground arith

module _ (p : Partition) (k : KeepsFlash p) (works : Works p 32) where
  begin_lem :
      (now : ℕ) (r : GranularityRuntime) (w : p.World) (log : Log)
      → InRing (cfg r).sector_start (cfg r).sector_cnt r.sector_index
      → IsClean p (cfg r).sector_start (cfg r).sector_cnt w
      → r.offset_bytes ≡ 0
      → now < no_time
      → length log < (cfg r).sector_cnt
      → Stored p
          (cfg r).sector_start
          (cfg r).sector_cnt
          w
          (before (cfg r).sector_start (cfg r).sector_cnt r.sector_index)
          log
      → (w' : p.World) × (open_sector p now r w ≡ some (record r { offset_bytes = 64 }, w'))
        × IsClean p (cfg r).sector_start (cfg r).sector_cnt w'
        × IsOpen p (cfg r).sector_start (cfg r).sector_cnt r.sector_index 64 w' now [] log
  unfolding open_sector
  begin_lem now r w log ring clean closed timed short older =
      let start = (cfg r).sector_start in
      let cnt = (cfg r).sector_cnt in
      let s = r.sector_index in
      let small : s < 32 = omega (arith, config_bound r.granularity) in
      let (w', prepared, only, header, free) =
        prepare_new_sector_lem p k works now r w small (clean s ring.0 ring.1) in
      (
        w',
        open_closed p now r w w' closed prepared,
        IsClean-Only p start cnt w w' s only clean
            (λ e. absurd (u64_le-ne-blank now timed (ap (λ q. q.1) (sym header ∙ e)))),
        record {
          place = omega arith;
          room = omega arith;
          short = short;
          timed = timed;
          header = header;
          readings = tt;
          older =
              Stored-Only p start cnt w w' (before start cnt s) s log only
                (before-InRing start cnt s ring) ring
                (omega (arith, gap-before_self start cnt s ring)) older;
          free = free;
        },
      )

  put_lem :
      (t : ℕ) (r : GranularityRuntime) (w : p.World) (x : FourSignals) (xs : List FourSignals)
      (log : Log)
      → InRing (cfg r).sector_start (cfg r).sector_cnt r.sector_index
      → IsClean p (cfg r).sector_start (cfg r).sector_cnt w
      → length x ≡ 4
      → IsOpen p (cfg r).sector_start (cfg r).sector_cnt r.sector_index r.offset_bytes w t xs log
      → (w' : p.World) × (esp_error_check
            (p.write (address r.sector_index r.offset_bytes) (signal_bytes x) w)
          ≡ some w')
        × Represents p (advance r) w' ((t, x ∷ xs) ∷ log)
  put_lem t r w x xs log ring clean four h =
      let small = config_bound r.granularity in
      let (w', wrote, f) =
        fill_lem p k works (cfg r).sector_start (cfg r).sector_cnt r.sector_index r.offset_bytes w t
          xs log x small ring clean four h in
      (
        w',
        wrote,
        elim (dec_lt (length xs + 1) capacity) [
          | yes more ↦
              Filled-Represents_more p k works r w' t x xs log ring h.place more h.short h.timed f
          | no full ↦
              Filled-Represents_full p k works r w' t x xs log ring small h.place
                (omega (arith, h.room)) h.short f
        ],
      )

  write_lem :
      (now t : ℕ) (r r' : GranularityRuntime) (w w' : p.World) (x : FourSignals)
      (xs : List FourSignals) (log : Log)
      → open_sector p now r w ≡ some (r', w')
      → InRing (cfg r').sector_start (cfg r').sector_cnt r'.sector_index
      → IsClean p (cfg r').sector_start (cfg r').sector_cnt w'
      → length x ≡ 4
      → IsOpen p
          (cfg r').sector_start
          (cfg r').sector_cnt
          r'.sector_index
          r'.offset_bytes
          w'
          t
          xs
          log
      → (w₂ : p.World) × (write p now x r w ≡ some (advance r', w₂))
        × Represents p (advance r') w₂ ((t, x ∷ xs) ∷ log)
  unfolding write
  write_lem now t r r' w w' x xs log opened ring clean four h =
      let (w₂, wrote, rep) = put_lem t r' w' x xs log ring clean four h in
      (w₂, bind-some _ _ opened (bind-some _ _ wrote refl), rep)

  write_closed :
      (now : ℕ) (x : FourSignals) (r : GranularityRuntime) (w : p.World) (log kept : Log)
      → begin_sector (cfg r).sector_cnt now log ≡ (now, []) ∷ kept
      → length kept < (cfg r).sector_cnt
      → Stored p
          (cfg r).sector_start
          (cfg r).sector_cnt
          w
          (before (cfg r).sector_start (cfg r).sector_cnt r.sector_index)
          kept
      → InRing (cfg r).sector_start (cfg r).sector_cnt r.sector_index
      → IsClean p (cfg r).sector_start (cfg r).sector_cnt w
      → r.offset_bytes ≡ 0
      → now < no_time
      → length x ≡ 4
      → (r' : GranularityRuntime) × (w' : p.World) × (write p now x r w ≡ some (r', w'))
        × (r'.granularity ≡ r.granularity)
        × Represents p r' w' (append (cfg r).sector_cnt now x log)
  unfolding append put
  write_closed now x r w log kept e short older ring clean closed timed four =
      let (w₁, opened, clean₁, h) = begin_lem now r w kept ring clean closed timed short older in
      let (w₂, wrote, rep) =
        write_lem now now r (record r { offset_bytes = 64 }) w w₁ x [] kept opened ring clean₁ four
          h in
      (
        advance (record r { offset_bytes = 64 }),
        w₂,
        wrote,
        granularity-advance (record r { offset_bytes = 64 }),
        rw e rep,
      )

  -- A write of a reading at a set time succeeds, and the ring and the flash stand for the log with
  -- the reading appended: it joins the newest sector, or it begins one when there is none with room,
  -- for which the oldest sector goes when the ring is full.
  pub write_refines :
      (now : ℕ) (x : FourSignals) (r : GranularityRuntime) (w : p.World) (log : Log)
      → now < no_time
      → length x ≡ 4
      → Represents p r w log
      → (r' : GranularityRuntime) × (w' : p.World) × (write p now x r w ≡ some (r', w'))
        × (r'.granularity ≡ r.granularity)
        × Represents p r' w' (append (cfg r).sector_cnt now x log)
  unfolding begin_sector
  write_refines now x r w [] timed four v =
      write_closed now x r w [] [] refl (omega (arith, v.low, v.high)) tt (v.low, v.high) v.clean
        v.stands.place timed four
  write_refines now x r w ((t, xs) ∷ log) timed four v = elim v.stands [
    | inl h ↦
        let (w', wrote, rep) =
          write_lem now t r r w w x xs log (open_opened p now (8 * length xs) r w h.place)
            (v.low, v.high) v.clean four h in
        (
          advance r,
          w',
          wrote,
          granularity-advance r,
          subst (λ l. Represents p (advance r) w' l)
              (sym (append_room (cfg r).sector_cnt now t x xs log h.room)) rep,
        )
    | inr h ↦
        let kept = take ((cfg r).sector_cnt - 1) ((t, xs) ∷ log) in
        write_closed now x r w ((t, xs) ∷ log) kept (rw h.full refl)
          (omega (arith, length-take ((cfg r).sector_cnt - 1) ((t, xs) ∷ log), v.low, v.high))
          (Stored-take p (cfg r).sector_start (cfg r).sector_cnt ((cfg r).sector_cnt - 1) w
            (before (cfg r).sector_start (cfg r).sector_cnt r.sector_index) ((t, xs) ∷ log) h.older)
          (v.low, v.high) v.clean h.place timed four
  ]
