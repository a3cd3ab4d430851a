-- ===== src/TimeSeries.antt =====
-- cpp/timeseries.hh: readings of four signals in rings of flash sectors, one ring for each
-- granularity. `none` is the abort of ESP_ERROR_CHECK.
pub mod Flash
pub mod Layout
pub mod Timer
pub mod Log
pub mod Frame
pub mod Write
pub mod Refine
pub mod Append
pub mod Runs
pub mod Mean
pub mod Start
pub mod Memory
pub mod Back
mod Tests
use espidf_component_webmana.Prelude.{
  ℕ, zero, suc, ◌+◌, ◌-◌, ◌*◌, ◌/◌, ◌%◌, ◌^◌, Bool, not, Option, none, some, List, [], ◌∷◌, ◌++◌,
  ltb, leb, ◌==◌, if◌then◌else◌,
}
use espidf_component_webmana.Prelude.Text.{Bytes}
use espidf_component_webmana.Prelude.Word.{add32, sub32, lt64}
use espidf_component_webmana.Esp.{◌>>=◌, esp_error_check}
use espidf_component_webmana.TimeSeries.Flash.{Partition}
use espidf_component_webmana.TimeSeries.Layout.{u64_le, word_le, signal_bytes, signals_of}

-- SECTOR_SIZE_BYTES
abbrev pub sector_size : ℕ
sector_size = 4096

-- -1 as an int64_t: the header of an erased sector.
abbrev pub no_time : ℕ
no_time = 2 ^ 64 - 1

pub data Granularity : Type 0 where
  ten_seconds one_minute one_hour one_day : Granularity

-- The fields of GRANULARITY_CONFIG that are read.
pub record GranularityConfig : Type 0 where
  pub sector_start : ℕ
  pub sector_cnt : ℕ

abbrev pub granularity_config : Granularity → GranularityConfig
granularity_config ten_seconds = record { sector_start = 0; sector_cnt = 16 }
granularity_config one_minute = record { sector_start = 16; sector_cnt = 8 }
granularity_config one_hour = record { sector_start = 24; sector_cnt = 4 }
granularity_config one_day = record { sector_start = 28; sector_cnt = 4 }

-- The value of the enumeration.
abbrev pub granularity_code : Granularity → ℕ
granularity_code ten_seconds = 0
granularity_code one_minute = 1
granularity_code one_hour = 2
granularity_code one_day = 3

-- The four values of a FourSignals, each the bit pattern of an int16_t.
abbrev pub FourSignals : Type 0
FourSignals = List ℕ

pub record GranularityRuntime : Type 0 where
  pub granularity : Granularity
  pub sector_index : ℕ
  pub offset_bytes : ℕ
  pub write_counter : ℕ

abbrev pub cfg : GranularityRuntime → GranularityConfig
cfg r = granularity_config r.granularity

-- The constructor.
unfoldable pub granularity_runtime : Granularity → GranularityRuntime
granularity_runtime g = record {
  granularity = g;
  sector_index = (granularity_config g).sector_start;
  offset_bytes = 0;
  write_counter = 0;
}

-- `SECTOR_SIZE_BYTES * sector + offset`, a size_t
unfoldable pub address : (sector offset : ℕ) → ℕ
address sector offset = (sector_size * sector + offset) % 2 ^ 32

-- The place of the next reading.
unfoldable pub advance : GranularityRuntime → GranularityRuntime
advance r =
    let offset = add32 r.offset_bytes 8 in
    let next = add32 r.sector_index 1 in
    let count = add32 r.write_counter 1 in
    if leb sector_size offset
    then record r {
      sector_index =
          if next == (cfg r).sector_start + (cfg r).sector_cnt then (cfg r).sector_start else next;
      offset_bytes = 0;
      write_counter = count;
    }
    else record r { offset_bytes = offset; write_counter = count }

-- The sector of ReadFullSector4096bytes, with `go_back` as the bit pattern of the int.
unfoldable pub sector_back : (go_back : ℕ) → GranularityRuntime → ℕ
sector_back go_back r =
    sub32 (sub32 r.sector_index (cfg r).sector_start) go_back % (cfg r).sector_cnt
    + (cfg r).sector_start

module _ (p : Partition) where
  -- The initial sector is erased unless it is empty.
  unfoldable pub erase_used : (sector header_time : ℕ) → p.World → Option p.World
  unfolding address
  erase_used sector header_time w =
      if header_time == no_time
      then some w
      else esp_error_check (p.erase_range (address sector 0) sector_size w)

  -- The `left` sectors from `sec_index` on: the first whose time is smaller than the one before it.
  unfoldable pub init_loop : (left sec_index last_time : ℕ) → p.World → Option (Option ℕ × p.World)
  unfolding address erase_used
  init_loop zero sec_index last_time w = some (none, w)
  init_loop (suc left) sec_index last_time w =
      esp_error_check (p.read (address sec_index 0) 8 w) >>= λ header.
      let new_time = word_le header in
      let rest = init_loop left (suc sec_index) new_time w in
      if lt64 new_time last_time
      then (erase_used sec_index new_time w >>= λ w'. some (some sec_index, w'))
      else rest

  -- GranularityRuntime::Init after its loop.
  unfoldable pub use_sector :
      GranularityRuntime → Option ℕ × p.World → Option (GranularityRuntime × p.World)
  unfolding address
  use_sector r (some sec_index, w) = some (record r { sector_index = sec_index }, w)
  use_sector r (none, w) = do
    w' ← esp_error_check (p.erase_range (address (cfg r).sector_start 0) sector_size w)
    some (record r { sector_index = 0 }, w')

  unfoldable pub init : GranularityRuntime → p.World → Option (GranularityRuntime × p.World)
  unfolding init_loop use_sector
  init r w = init_loop (cfg r).sector_cnt (cfg r).sector_start 0 w >>= use_sector r

  unfoldable pub prepare_new_sector :
      (seconds_epoch : ℕ) → GranularityRuntime → p.World → Option p.World
  unfolding address erase_used
  prepare_new_sector seconds_epoch r w = do
    header ← esp_error_check (p.read (address r.sector_index 0) 8 w)
    w' ← erase_used r.sector_index (word_le header) w
    esp_error_check (
        p.write (address r.sector_index 0)
          (u64_le seconds_epoch ++ u64_le (granularity_code r.granularity)) w')

  -- A sector that was just finished or never begun is prepared first.
  unfoldable pub open_sector :
      (seconds_epoch : ℕ) → GranularityRuntime → p.World → Option (GranularityRuntime × p.World)
  unfolding prepare_new_sector
  open_sector seconds_epoch r w =
      if r.offset_bytes == 0
      then (do w' ← prepare_new_sector seconds_epoch r w; some (record r { offset_bytes = 64 }, w'))
      else some (r, w)

  unfoldable pub write :
      (seconds_epoch : ℕ)
      → FourSignals
      → GranularityRuntime
      → p.World
      → Option (GranularityRuntime × p.World)
  unfolding open_sector advance address
  write seconds_epoch signals r w = do
    (r', w₁) ← open_sector seconds_epoch r w
    w₂ ←
        esp_error_check
          (p.write (address r'.sector_index r'.offset_bytes) (signal_bytes signals) w₁)
    some (advance r', w₂)

  unfoldable pub read_full_sector4096bytes :
      (go_back : ℕ) → GranularityRuntime → p.World → Option Bytes
  unfolding sector_back address
  read_full_sector4096bytes go_back r w =
      esp_error_check (p.read (address (sector_back go_back r) 0) sector_size w)
