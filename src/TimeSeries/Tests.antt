-- ===== src/TimeSeries/Tests.antt =====
-- Runs on a partition in memory, and the theorems at concrete readings.
use espidf_component_webmana.Prelude.{
  ℕ, ◌-◌, ◌^◌, ◌≡◌, refl, none, some, inr, List, [], ◌∷◌, ◌++◌, arith, replicate, All, Option,
}
use mathlib.Core.Path.{subst}
use espidf_component_webmana.Prelude.Word.{add32, sub32}
use espidf_component_webmana.TimeSeries.Layout.{signal_bytes, signals_of}
use espidf_component_webmana.TimeSeries.{
  GranularityRuntime, one_minute, granularity_runtime, sector_back, init, no_time, FourSignals,
}
use espidf_component_webmana.TimeSeries.Timer.{average_n_readings_and_reset_write_counter}
use espidf_component_webmana.TimeSeries.Log.{Represents}
use espidf_component_webmana.TimeSeries.Frame.{InRing}
use espidf_component_webmana.TimeSeries.Back.{back, sector_back-back}
use espidf_component_webmana.TimeSeries.Memory.{
  Cells, overwrite, erased_flash, erased_flash-IsClean, memory, memory-KeepsFlash, memory-Works,
}
use espidf_component_webmana.TimeSeries.Runs.{
  write_all, append_all, write_all_refines, write_all-Represents, IsReading,
}
use espidf_component_webmana.TimeSeries.Mean.{mean, average_n_readings_and_reset_write_counter-mean}
use espidf_component_webmana.TimeSeries.Start.{Begun, Headers, first_drop, init_lem}

abbrev readings : List (ℕ × FourSignals)
readings = (100, 1 ∷ 2 ∷ 3 ∷ 4 ∷ []) ∷ (110, 3 ∷ 5 ∷ 3 ∷ 9 ∷ []) ∷ []

abbrev average_after : List (ℕ × FourSignals) → ℕ → Option FourSignals
average_after rs n = elim (write_all memory rs (granularity_runtime one_minute) erased_flash) [
  | none ↦ none
  | some (r, w) ↦ elim (average_n_readings_and_reset_write_counter memory n r w) [
    | none ↦ none
    | some (signals, r') ↦ some signals
  ]
]

run_average : average_after readings 2 ≡ some (2 ∷ 3 ∷ 3 ∷ 6 ∷ [])
unfolding write_all granularity_runtime average_n_readings_and_reset_write_counter signal_bytes
    signals_of add32 sub32
run_average = refl

-- Six readings of -1: the sum is divided as a uint32_t.
run_average_negative :
    average_after (replicate 6 (100, replicate 4 (2 ^ 16 - 1))) 6 ≡ some (replicate 4 43689)
unfolding write_all granularity_runtime average_n_readings_and_reset_write_counter signal_bytes
    signals_of add32 sub32
run_average_negative = refl

readings-IsReading : All IsReading readings
readings-IsReading = omega arith

abbrev runtime_after : GranularityRuntime
runtime_after = record {
  granularity = one_minute;
  sector_index = 16;
  offset_bytes = 80;
  write_counter = 2;
}

abbrev flash_after : Cells
flash_after = overwrite 65608 (3 ∷ 0 ∷ 5 ∷ 0 ∷ 3 ∷ 0 ∷ 9 ∷ 0 ∷ []) (
    overwrite 65600 (1 ∷ 0 ∷ 2 ∷ 0 ∷ 3 ∷ 0 ∷ 4 ∷ 0 ∷ [])
      (overwrite 65536 (100 ∷ replicate 7 0 ++ (1 ∷ replicate 7 0)) erased_flash))

run_write_all :
    write_all memory readings (granularity_runtime one_minute) erased_flash
    ≡ some (runtime_after, flash_after)
unfolding write_all granularity_runtime signal_bytes add32
run_write_all = refl

write_all_refines_example :
    (r' : GranularityRuntime) × (w' : Cells) × (write_all memory readings
        (granularity_runtime one_minute)
        erased_flash
      ≡ some (r', w'))
    × Represents memory r' w' (append_all 8 readings [])
write_all_refines_example =
    write_all_refines memory memory-KeepsFlash memory-Works readings one_minute erased_flash
      readings-IsReading (erased_flash-IsClean 16 8 (omega arith))

two_readings :
    append_all 8 readings [] ≡ (100, (3 ∷ 5 ∷ 3 ∷ 9 ∷ []) ∷ (1 ∷ 2 ∷ 3 ∷ 4 ∷ []) ∷ []) ∷ []
unfolding append_all
two_readings = refl

runtime_after-Represents :
    Represents memory runtime_after flash_after
      ((100, (3 ∷ 5 ∷ 3 ∷ 9 ∷ []) ∷ (1 ∷ 2 ∷ 3 ∷ 4 ∷ []) ∷ []) ∷ [])
runtime_after-Represents = subst (Represents memory runtime_after flash_after) two_readings (
    write_all-Represents memory memory-KeepsFlash memory-Works readings one_minute erased_flash
      readings-IsReading (erased_flash-IsClean 16 8 (omega arith)) runtime_after flash_after
      run_write_all)

average_n_readings_and_reset_write_counter-mean_example :
    average_n_readings_and_reset_write_counter memory 2 runtime_after flash_after
    ≡ some (
      mean 2 ((3 ∷ 5 ∷ 3 ∷ 9 ∷ []) ∷ (1 ∷ 2 ∷ 3 ∷ 4 ∷ []) ∷ []),
      record runtime_after { write_counter = 0 },
    )
average_n_readings_and_reset_write_counter-mean_example =
    average_n_readings_and_reset_write_counter-mean memory 2 runtime_after flash_after 100
      ((3 ∷ 5 ∷ 3 ∷ 9 ∷ []) ∷ (1 ∷ 2 ∷ 3 ∷ 4 ∷ []) ∷ []) [] runtime_after-Represents (omega arith)
      (omega arith) (omega arith) (λ e. absurd (omega arith))

init_lem_example :
    (r : GranularityRuntime) × (w' : Cells) × (init memory
        (granularity_runtime one_minute)
        erased_flash
      ≡ some (r, w'))
    × Begun memory one_minute (first_drop 16 0 (replicate 8 no_time)) r w'
init_lem_example =
    init_lem memory memory-KeepsFlash memory-Works one_minute (replicate 8 no_time) erased_flash
      refl headers (erased_flash-IsClean 16 8 (omega arith))
  where
    headers : Headers memory erased_flash 16 (replicate 8 no_time)
    headers = (
      refl,
      inr refl,
      (
        refl,
        inr refl,
        (
          refl,
          inr refl,
          (
            refl,
            inr refl,
            (refl, inr refl, (refl, inr refl, (refl, inr refl, (refl, inr refl, tt)))),
          ),
        ),
      ),
    )

-- One sector forward of the last in the ring.
sector_back-back_example :
    InRing 16 8 (sector_back (2 ^ 32 - 1) (record runtime_after { sector_index = 23 }))
    × (sector_back (2 ^ 32 - 1) (record runtime_after { sector_index = 23 }) ≡ back 16 8 7 23)
sector_back-back_example =
    sector_back-back (2 ^ 32 - 1) (record runtime_after { sector_index = 23 }) (omega arith)
      (omega arith, omega arith)
