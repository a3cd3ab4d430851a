-- ===== src/TimeSeries/Mean.antt =====
-- AverageNReadingsAndResetWriteCounter gives the means of the newest readings of a log.
use espidf_component_webmana.Prelude.{
  ℕ, zero, suc, ◌+◌, ◌-◌, ◌*◌, ◌/◌, ◌%◌, ◌≤◌, ◌<◌, ◌^◌, ◌≡◌, refl, ap, ◌∙◌, ◌⊎◌, List, [], ◌∷◌,
  arith, map, length, take, length-take, some, inl, inr, All,
}
use mathlib.Core.Path.{ap₂, subst}
use native.Mathlib.Nat.{div-lt_iff_lt-mul}
use espidf_component_webmana.Prelude.Word.{add32, sub32}
use espidf_component_webmana.Esp.{esp_error_check_ok, bind-some}
use espidf_component_webmana.TimeSeries.Flash.{Partition}
use espidf_component_webmana.TimeSeries.Layout.{IsInt16, signals_of-signal_bytes}
use espidf_component_webmana.TimeSeries.{
  FourSignals, GranularityRuntime, GranularityConfig, cfg, address,
}
use espidf_component_webmana.TimeSeries.Timer.{
  add_signals, step_back, divide_sums, sum_loop, average_n_readings_and_reset_write_counter,
}
use espidf_component_webmana.TimeSeries.Log.{Log, capacity, before, Holds, Represents}
use espidf_component_webmana.TimeSeries.Refine.{config_bound}

-- Elementwise sums, and the sums of the four columns of readings.
unfoldable pub plus : List ℕ → List ℕ → List ℕ
plus [] ys = []
plus (x ∷ xs) [] = x ∷ xs
plus (x ∷ xs) (y ∷ ys) = (x + y) ∷ plus xs ys

unfoldable pub total : List ℕ → List FourSignals → List ℕ
unfolding plus
total sums [] = sums
total sums (x ∷ xs) = total (plus sums x) xs

-- The means of the four columns, rounded down.
unfoldable pub mean : ℕ → List FourSignals → FourSignals
unfolding total
mean n xs = map (λ s. s / n) (total (0 ∷ 0 ∷ 0 ∷ 0 ∷ []) xs)

abbrev pub IsNonneg : ℕ → Type 0
IsNonneg v = v < 2 ^ 15

-- Four values that are not negative.
abbrev pub IsNonnegReading : FourSignals → Type 0
IsNonnegReading x = (length x ≡ 4) × All IsNonneg x

abbrev AllBelow : ℕ → List ℕ → Type 0
AllBelow b = All (λ s. s ≤ b)

add_signals-plus :
    (b : ℕ) (sums values : List ℕ)
    → AllBelow b sums
    → All IsNonneg values
    → b + 2 ^ 15 < 2 ^ 32
    → (add_signals sums values ≡ plus sums values) × AllBelow (b + 2 ^ 15) (plus sums values)
unfolding add_signals plus add32
add_signals-plus b [] vs h k small = (refl, tt)
add_signals-plus b (s ∷ ss) [] h k small = (refl, weaken b (s ∷ ss) h)
  where
    weaken : (b : ℕ) (ss : List ℕ) → AllBelow b ss → AllBelow (b + 2 ^ 15) ss
    weaken b [] h = tt
    weaken b (s ∷ ss) h = (omega (arith, h.0), weaken b ss h.1)
add_signals-plus b (s ∷ ss) (v ∷ vs) h k small =
    let (e, bound) = add_signals-plus b ss vs h.1 k.1 small in
    (ap₂ ◌∷◌ (ground (arith, h.0, k.0)) e, (omega (arith, h.0, k.0), bound))

-- The loop has come to the reading behind which `m` older ones stand in sector `s`: in that sector,
-- or from the start of the next, by offsets below 0.
abbrev At : (s m sector offset : ℕ) → Type 0
At s m sector offset =
    ((sector ≡ s) × (offset ≡ 64 + 8 * m))
    ⊎ ((sector ≡ s + 1) × (offset ≡ (2 ^ 32 + 8 * m - 8 * capacity) % 2 ^ 32))

step_back_lem :
    (c : GranularityConfig) (s m sector offset : ℕ)
    → s < 32
    → m < capacity
    → At s (suc m) sector offset
    → let (sector', offset') = step_back c sector offset in
      At s m sector' offset' × (address sector' offset' ≡ 4096 * s + (64 + 8 * m))
unfolding step_back address sub32
step_back_lem c s m sector offset small room (inl h) = (inl (ground arith), ground arith)
step_back_lem c s m sector offset small room (inr h) = (inr (ground arith), ground arith)

total-AllBelow :
    (b : ℕ) (sums : List ℕ) (xs : List FourSignals)
    → AllBelow b sums
    → All IsNonnegReading xs
    → b + length xs * 2 ^ 15 < 2 ^ 32
    → AllBelow (b + length xs * 2 ^ 15) (total sums xs)
unfolding total
total-AllBelow b sums [] h k small = subst (λ c. AllBelow c sums) (omega arith) h
total-AllBelow b sums (x ∷ xs) h k small =
    subst (λ c. AllBelow c (total (plus sums x) xs)) (omega arith)
      (total-AllBelow (b + 2 ^ 15) (plus sums x) xs
        (add_signals-plus b sums x h k.0.1 (omega arith)).1 k.1 (omega arith))

module _ (p : Partition) where
  sum_loop_lem :
      (n : ℕ) (c : GranularityConfig) (s sector offset b : ℕ) (sums : List ℕ) (w : p.World)
      (xs : List FourSignals)
      → s < 32
      → n ≤ length xs
      → length xs ≤ capacity
      → At s (length xs) sector offset
      → Holds p w s xs
      → All IsNonnegReading (take n xs)
      → AllBelow b sums
      → b + n * 2 ^ 15 < 2 ^ 32
      → sum_loop p n c sector offset sums w ≡ some (total sums (take n xs))
  unfolding sum_loop total
  sum_loop_lem zero c s sector offset b sums w xs small le room at held k h bound = refl
  sum_loop_lem (suc n) c s sector offset b sums w [] small le room at held k h bound =
      absurd (omega arith)
  sum_loop_lem (suc n) c s sector offset b sums w (x ∷ xs) small le room at held k h bound =
      let (at', place) = step_back_lem c s (length xs) sector offset small (omega arith) at in
      let (sum, bound') = add_signals-plus b sums x h k.0.1 (omega arith) in
      let (sector', offset') = step_back c sector offset in
      bind-some _ _
        (esp_error_check_ok (p.read (address sector' offset') 8 w)
          (ap (λ a. p.read a 8 w) place ∙ held.0))
        (ap (λ v. sum_loop p n c sector' offset' (add_signals sums v) w)
            (signals_of-signal_bytes x (IsNonneg-IsInt16 x k.0.1))
          ∙ ap (λ v. sum_loop p n c sector' offset' v w) sum
          ∙ sum_loop_lem n c s sector' offset' (b + 2 ^ 15) (plus sums x) w xs small (omega arith)
              (omega arith) at' held.1 k.1 bound' (omega arith))
    where
      IsNonneg-IsInt16 : (vs : List ℕ) → All IsNonneg vs → All IsInt16 vs
      IsNonneg-IsInt16 [] h = tt
      IsNonneg-IsInt16 (v ∷ vs) h = (omega (arith, h.0), IsNonneg-IsInt16 vs h.1)

  newest_lem :
      (r : GranularityRuntime) (w : p.World) (t : ℕ) (xs : List FourSignals) (log : Log)
      → Represents p r w ((t, xs) ∷ log)
      → (r.offset_bytes ≡ 0 → (cfg r).sector_start < r.sector_index)
      → (s : ℕ) × (s < 32)
        × At s (length xs) r.sector_index r.offset_bytes
        × (length xs ≤ capacity)
        × Holds p w s xs
  newest_lem r w t xs log v inner = elim v.stands [
    | inl h ↦ (
      r.sector_index,
      omega (arith, v.high, config_bound r.granularity),
      inl (refl, h.place),
      omega (arith, h.room),
      h.readings,
    )
    | inr h ↦ (
      before (cfg r).sector_start (cfg r).sector_cnt r.sector_index,
      ground (arith, v.high, config_bound r.granularity, inner h.place),
      inr (ground (arith, inner h.place), omega (arith, h.full, h.place)),
      h.older.1,
      h.older.2,
    )
  ]

  divide_sums-AllBelow :
      (n : ℕ) (sums : List ℕ)
      → 1 ≤ n
      → AllBelow (n * 2 ^ 15) sums
      → divide_sums n sums ≡ map (λ s. s / n) sums
  divide_sums-AllBelow n [] pos h = refl
  divide_sums-AllBelow n (s ∷ ss) pos h =
      let small : s / n < 2 ^ 16 = (div-lt_iff_lt-mul pos).1 (omega (arith, h.0)) in
      ap₂ ◌∷◌ (omega arith) (divide_sums-AllBelow n ss pos h.1)

  -- Of a ring that stands for a log, the average of n readings, where n is not 0 and the newest sector
  -- has so many, is the mean of the newest n readings in each of the four signals, rounded down, if
  -- none of their values is negative. When the newest sector has just been filled, it must not be the
  -- last of the ring. The count of the readings is reset, and the rest of the state stays.
  pub average_n_readings_and_reset_write_counter-mean :
      (n : ℕ) (r : GranularityRuntime) (w : p.World) (t : ℕ) (xs : List FourSignals) (log : Log)
      → Represents p r w ((t, xs) ∷ log)
      → 1 ≤ n
      → n ≤ length xs
      → All IsNonnegReading (take n xs)
      → (r.offset_bytes ≡ 0 → (cfg r).sector_start < r.sector_index)
      → average_n_readings_and_reset_write_counter p n r w
        ≡ some (mean n (take n xs), record r { write_counter = 0 })
  unfolding average_n_readings_and_reset_write_counter mean
  average_n_readings_and_reset_write_counter-mean n r w t xs log v pos le h inner =
      let (s, small, at, room, held) = newest_lem r w t xs log v inner in
      let zeros : List ℕ = 0 ∷ 0 ∷ 0 ∷ 0 ∷ [] in
      let all : length (take n xs) ≡ n = omega (arith, length-take n xs) in
      let bound : AllBelow (n * 2 ^ 15) (total zeros (take n xs)) =
        subst (λ b. AllBelow b (total zeros (take n xs))) (omega arith)
          (total-AllBelow 0 zeros (take n xs) (omega arith) h (omega arith)) in
      bind-some _ _
        (sum_loop_lem n (cfg r) s r.sector_index r.offset_bytes 0 zeros w xs small le room at held h
          (omega arith) (omega arith))
        (ap (λ v. some (v, record r { write_counter = 0 }))
          (divide_sums-AllBelow n (total zeros (take n xs)) pos bound))
