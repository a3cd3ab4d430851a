-- ===== src/TimeSeries/Runs.antt =====
-- Many readings from the first state of a granularity on.
use espidf_component_webmana.Prelude.{
  ℕ, ◌+◌, ◌<◌, ◌≡◌, refl, sym, ap, ◌∙◌, List, [], ◌∷◌, arith, length, Option, some, All,
}
use mathlib.Core.Path.{subst}
use espidf_component_webmana.Esp.{◌>>=◌, bind-some, eq_of_some}
use espidf_component_webmana.TimeSeries.Flash.{Partition, KeepsFlash, Works}
use espidf_component_webmana.TimeSeries.{
  FourSignals, GranularityRuntime, Granularity, cfg, granularity_config, granularity_runtime,
  no_time, open_sector, write, prepare_new_sector,
}
use espidf_component_webmana.TimeSeries.Log.{Log, append, IsClean, Represents}
use espidf_component_webmana.TimeSeries.Append.{write_refines}
use espidf_component_webmana.TimeSeries.Refine.{config_pos}

open_closed :
    (p : Partition) (now : ℕ) (r : GranularityRuntime) (w w' : p.World)
    → r.offset_bytes ≡ 0
    → prepare_new_sector p now r w ≡ some w'
    → open_sector p now r w ≡ some (record r { offset_bytes = 64 }, w')
unfolding open_sector
open_closed p now r w w' closed e = simp (closed, e)

open_opened :
    (p : Partition) (now n : ℕ) (r : GranularityRuntime) (w : p.World)
    → r.offset_bytes ≡ 64 + n
    → open_sector p now r w ≡ some (r, w)
unfolding open_sector
open_opened p now n r w e = ground arith

-- A time that is not that of an erased sector, and four values.
abbrev pub IsReading : ℕ × FourSignals → Type 0
IsReading (now, x) = (now < no_time) × (length x ≡ 4)

-- Writes in order.
unfoldable pub write_all :
    (p : Partition)
    → List (ℕ × FourSignals)
    → GranularityRuntime
    → p.World
    → Option (GranularityRuntime × p.World)
unfolding write
write_all p [] r w = some (r, w)
write_all p ((now, x) ∷ readings) r w = write p now x r w >>= λ (r', w'). write_all p readings r' w'

unfoldable pub append_all : (cnt : ℕ) → List (ℕ × FourSignals) → Log → Log
unfolding append
append_all cnt [] log = log
append_all cnt ((now, x) ∷ readings) log = append_all cnt readings (append cnt now x log)

module _ (p : Partition) (k : KeepsFlash p) (works : Works p 32) where
  write_all_lem :
      (readings : List (ℕ × FourSignals)) (cnt : ℕ) (r : GranularityRuntime) (w : p.World)
      (log : Log)
      → cnt ≡ (cfg r).sector_cnt
      → All IsReading readings
      → Represents p r w log
      → (r' : GranularityRuntime) × (w' : p.World) × (write_all p readings r w ≡ some (r', w'))
        × Represents p r' w' (append_all cnt readings log)
  unfolding write_all append_all
  write_all_lem [] cnt r w log e h v = (r, w, refl, v)
  write_all_lem ((now, x) ∷ readings) cnt r w log e h v =
      let (r₁, w₁, wrote, same, v₁) = write_refines p k works now x r w log h.0.0 h.0.1 v in
      let (r₂, w₂, rest, v₂) =
        write_all_lem readings cnt r₁ w₁ (append cnt now x log)
          (e ∙ ap (λ g. (granularity_config g).sector_cnt) (sym same)) h.1
          (subst (λ n. Represents p r₁ w₁ (append n now x log)) (sym e) v₁) in
      (r₂, w₂, bind-some _ _ wrote rest, v₂)

  -- From the first state of a granularity, on flash where each of its sectors with an erased header
  -- is erased, any readings at set times are written without an abort, and the ring and the flash
  -- then stand for the log of these readings: the sectors of the ring hold the newest of them in
  -- order, each under the time of its sector.
  pub write_all_refines :
      (readings : List (ℕ × FourSignals)) (g : Granularity) (w : p.World)
      → All IsReading readings
      → IsClean p (granularity_config g).sector_start (granularity_config g).sector_cnt w
      → (r' : GranularityRuntime) × (w' : p.World) × (write_all p readings (granularity_runtime g) w
          ≡ some (r', w'))
        × Represents p r' w' (append_all (granularity_config g).sector_cnt readings [])
  unfolding granularity_runtime
  write_all_refines readings g w h clean =
      write_all_lem readings (granularity_config g).sector_cnt (granularity_runtime g) w [] refl h
        (record {
          low = omega arith;
          high = omega (arith, config_pos g);
          clean = clean;
          stands = record { place = refl; short = omega arith; full = tt; older = tt };
        })

  -- The same for the state that the writes are known to end in.
  pub write_all-Represents :
      (readings : List (ℕ × FourSignals)) (g : Granularity) (w : p.World)
      → All IsReading readings
      → IsClean p (granularity_config g).sector_start (granularity_config g).sector_cnt w
      → (r' : GranularityRuntime) (w' : p.World)
      → write_all p readings (granularity_runtime g) w ≡ some (r', w')
      → Represents p r' w' (append_all (granularity_config g).sector_cnt readings [])
  write_all-Represents readings g w h clean r' w' e =
      let (r₁, w₁, e₁, v) = write_all_refines readings g w h clean in
      subst
        (λ (s : GranularityRuntime × p.World).
          Represents p s.0 s.1 (append_all (granularity_config g).sector_cnt readings []))
        (eq_of_some (sym e₁ ∙ e)) v
