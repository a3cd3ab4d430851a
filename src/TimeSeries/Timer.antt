-- ===== src/TimeSeries/Timer.antt =====
-- cpp/timeseries.hh: AverageNReadingsAndResetWriteCounter, and the timer's callback that fills each
-- ring from the ring before it.
use espidf_component_webmana.Prelude.{
  ℕ, zero, suc, ◌+◌, ◌-◌, ◌*◌, ◌/◌, ◌%◌, ◌^◌, Option, some, List, [], ◌∷◌, map, ltb, ◌==◌,
  if◌then◌else◌,
}
use espidf_component_webmana.Prelude.Text.{Bytes}
use espidf_component_webmana.Prelude.Word.{add32, sub32}
use espidf_component_webmana.Esp.{◌>>=◌, esp_error_check}
use espidf_component_webmana.TimeSeries.Flash.{Partition}
use espidf_component_webmana.TimeSeries.Layout.{signals_of}
use espidf_component_webmana.TimeSeries.{
  GranularityConfig, GranularityRuntime, FourSignals, cfg, address, write, init,
  read_full_sector4096bytes, Granularity, ten_seconds, one_minute, one_hour, one_day,
}

-- An int16_t as an int32_t.
abbrev pub sign_extend : ℕ → ℕ
sign_extend v = if ltb v (2 ^ 15) then v else v + (2 ^ 32 - 2 ^ 16)

-- `averageBuffer[j] += readBuffer[j]`
unfoldable pub add_signals : (sums values : List ℕ) → List ℕ
add_signals [] vs = []
add_signals (s ∷ ss) [] = s ∷ ss
add_signals (s ∷ ss) (v ∷ vs) = add32 s (sign_extend v) ∷ add_signals ss vs

-- The sector and the offset of the reading before.
unfoldable pub step_back : GranularityConfig → (sector offset : ℕ) → ℕ × ℕ
step_back c sector offset =
    let before = sub32 offset 8 in
    let previous = sub32 sector 1 in
    if ltb before 64
    then (previous, if ltb previous c.sector_start then c.sector_start + c.sector_cnt else 4088)
    else (sector, before)

-- `averageBuffer[j] / n` divides by a size_t, so the sum is read as a uint32_t.
abbrev pub divide_sums : ℕ → List ℕ → FourSignals
divide_sums n = map (λ s. s / n % 2 ^ 16)

module _ (p : Partition) where
  unfoldable pub sum_loop :
      (n : ℕ) → GranularityConfig → (sector offset : ℕ) → List ℕ → p.World → Option (List ℕ)
  unfolding step_back address add_signals
  sum_loop zero c sector offset sums w = some sums
  sum_loop (suc n) c sector offset sums w =
      let (sector', offset') = step_back c sector offset in
      esp_error_check (p.read (address sector' offset') 8 w) >>= λ buffer.
      sum_loop n c sector' offset' (add_signals sums (signals_of buffer)) w

  unfoldable pub average_n_readings_and_reset_write_counter :
      (n : ℕ) → GranularityRuntime → p.World → Option (FourSignals × GranularityRuntime)
  unfolding sum_loop
  average_n_readings_and_reset_write_counter n r w =
      sum_loop n (cfg r) r.sector_index r.offset_bytes (0 ∷ 0 ∷ 0 ∷ 0 ∷ []) w >>= λ sums.
      some (divide_sums n sums, record r { write_counter = 0 })

  -- `granularityRuntime` and the flash.
  pub record Series : Type 0 where
    pub tens : GranularityRuntime
    pub minutes : GranularityRuntime
    pub hours : GranularityRuntime
    pub days : GranularityRuntime
    pub world : p.World

  -- One of the three blocks of timerCallback10seconds, once its counter has been tested: `n` readings
  -- of one granularity become a reading of the next.
  unfoldable pub fuse :
      (n seconds_epoch : ℕ)
      → (source target : GranularityRuntime) → p.World
      → Option (GranularityRuntime × GranularityRuntime × p.World)
  unfolding average_n_readings_and_reset_write_counter
  fuse n seconds_epoch source target w =
      average_n_readings_and_reset_write_counter n source w >>= λ (signals, source').
      write p seconds_epoch signals target w >>= λ (target', w'). some (source', target', w')

  unfoldable pub fuse_minute : ℕ → Series → Option (ℕ × Series)
  unfolding fuse
  fuse_minute seconds_epoch s =
      if s.tens.write_counter == 6
      then (let minute = seconds_epoch / 60 * 60 in
          fuse 6 minute s.tens s.minutes s.world >>= λ (tens, minutes, w).
          some (minute, record s { tens = tens; minutes = minutes; world = w }))
      else some (seconds_epoch, s)

  unfoldable pub fuse_hour : ℕ → Series → Option Series
  unfolding fuse
  fuse_hour seconds_epoch s =
      if s.minutes.write_counter == 60
      then (fuse 60 seconds_epoch s.minutes s.hours s.world >>= λ (minutes, hours, w).
          some (record s { minutes = minutes; hours = hours; world = w }))
      else some s

  unfoldable pub fuse_day : ℕ → Series → Option Series
  unfolding fuse
  fuse_day seconds_epoch s =
      if s.hours.write_counter == 24
      then (fuse 60 seconds_epoch s.hours s.days s.world >>= λ (hours, days, w).
          some (record s { hours = hours; days = days; world = w }))
      else some s

  -- The time of gettimeofday and the values of the inputs are arguments.
  unfoldable pub timer_callback10seconds : (tv_sec : ℕ) → FourSignals → Series → Option Series
  unfolding fuse_minute fuse_hour fuse_day
  timer_callback10seconds tv_sec inputs s = do
    let now = tv_sec / 10 * 10
    (tens, w) ← write p now inputs s.tens s.world
    (seconds_epoch, s₁) ← fuse_minute now (record s { tens = tens; world = w })
    s₂ ← fuse_hour seconds_epoch s₁
    fuse_day seconds_epoch s₂

  -- G(gran)
  abbrev pub runtime_of : Granularity → Series → GranularityRuntime
  runtime_of ten_seconds s = s.tens
  runtime_of one_minute s = s.minutes
  runtime_of one_hour s = s.hours
  runtime_of one_day s = s.days

  -- GetTimeseries4096byte: what it puts into the buffer.
  unfoldable pub get_timeseries4096byte : Granularity → (go_back : ℕ) → Series → Option Bytes
  get_timeseries4096byte g go_back s = read_full_sector4096bytes p go_back (runtime_of g s) s.world

  -- The loop of M::Init over the granularities.
  unfoldable pub init_all : Series → Option Series
  unfolding init
  init_all s = do
    (tens, w₁) ← init p s.tens s.world
    (minutes, w₂) ← init p s.minutes w₁
    (hours, w₃) ← init p s.hours w₂
    (days, w₄) ← init p s.days w₃
    some (record { tens = tens; minutes = minutes; hours = hours; days = days; world = w₄ })
