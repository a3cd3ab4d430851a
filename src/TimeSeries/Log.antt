-- ===== src/TimeSeries/Log.antt =====
-- What a ring of flash sectors stands for: the readings of the last sectors, the newest first.
use espidf_component_webmana.Prelude.{
  ℕ, ◌+◌, ◌-◌, ◌*◌, ◌≤◌, ◌<◌, ◌≡◌, ◌⊎◌, List, [], ◌∷◌, ◌==◌, if◌then◌else◌, length, take,
}
use espidf_component_webmana.Esp.{esp_ok}
use espidf_component_webmana.TimeSeries.Flash.{Partition, blank}
use espidf_component_webmana.TimeSeries.Layout.{u64_le, signal_bytes}
use espidf_component_webmana.TimeSeries.{FourSignals, GranularityRuntime, cfg, no_time}

-- The time of a sector and its readings, the newest first. A sector has room for 504.
abbrev pub Sector : Type 0
Sector = ℕ × List FourSignals

abbrev pub Log : Type 0
Log = List Sector

abbrev pub capacity : ℕ
capacity = 504

-- A new sector, if there is none or the newest is full. Only `cnt` sectors are kept.
unfoldable pub begin_sector : (cnt now : ℕ) → Log → Log
begin_sector cnt now [] = (now, []) ∷ []
begin_sector cnt now ((t, xs) ∷ log) =
    if length xs == capacity then (now, []) ∷ take (cnt - 1) ((t, xs) ∷ log) else (t, xs) ∷ log

unfoldable pub put : FourSignals → Log → Log
put x [] = []
put x ((t, xs) ∷ log) = (t, x ∷ xs) ∷ log

-- A reading is added.
unfoldable pub append : (cnt now : ℕ) → FourSignals → Log → Log
unfolding begin_sector put
append cnt now x log = put x (begin_sector cnt now log)

-- The sector before `s` in a ring.
abbrev pub before : (start cnt s : ℕ) → ℕ
before start cnt s = if s == start then start + cnt - 1 else s - 1

module _ (p : Partition) where
  -- The readings stand in sector `s`, the oldest behind the header of 64 bytes.
  abbrev pub Holds : p.World → ℕ → List FourSignals → Type 0
  Holds w s [] = Unit
  Holds w s (x ∷ xs) =
      (p.read (4096 * s + (64 + 8 * length xs)) 8 w ≡ (esp_ok, signal_bytes x)) × Holds w s xs

  -- The log stands in the sectors from `s` backwards.
  abbrev pub Stored : (start cnt : ℕ) → p.World → ℕ → Log → Type 0
  Stored start cnt w s [] = Unit
  Stored start cnt w s ((t, xs) ∷ log) =
      (p.read (4096 * s) 8 w ≡ (esp_ok, u64_le t))
      × (length xs ≤ capacity)
      × Holds w s xs
      × Stored start cnt w (before start cnt s) log

  -- The bytes of sector `s` from `o` on are erased.
  abbrev pub IsFree : p.World → (s o : ℕ) → Type 0
  IsFree w s o = (i n : ℕ) → o ≤ i → i + n ≤ 4096 → p.read (4096 * s + i) n w ≡ (esp_ok, blank n)

  -- A sector of the ring with an erased header is erased.
  abbrev pub IsClean : (start cnt : ℕ) → p.World → Type 0
  IsClean start cnt w =
      (s : ℕ)
      → start ≤ s
      → s < start + cnt
      → p.read (4096 * s) 8 w ≡ (esp_ok, blank 8)
      → IsFree w s 0

  abbrev pub IsFull : Log → Type 0
  IsFull [] = Unit
  IsFull ((t, xs) ∷ log) = length xs ≡ capacity

  -- The ring has a sector under way, with room for a reading.
  pub record IsOpen (start cnt s offset : ℕ) (w : p.World) (t : ℕ) (xs : List FourSignals)
      (log : Log) : Type 0 where
    pub place : offset ≡ 64 + 8 * length xs
    pub room : length xs < capacity
    pub short : length log < cnt
    pub timed : t < no_time
    pub header : p.read (4096 * s) 8 w ≡ (esp_ok, u64_le t)
    pub readings : Holds w s xs
    pub older : Stored start cnt w (before start cnt s) log
    pub free : IsFree w s offset

  -- The next reading begins a sector.
  pub record IsClosed (start cnt s offset : ℕ) (w : p.World) (log : Log) : Type 0 where
    pub place : offset ≡ 0
    pub short : length log ≤ cnt
    pub full : IsFull log
    pub older : Stored start cnt w (before start cnt s) log

  abbrev pub Stands : (start cnt s offset : ℕ) → p.World → Log → Type 0
  Stands start cnt s offset w [] = IsClosed start cnt s offset w []
  Stands start cnt s offset w ((t, xs) ∷ log) =
      IsOpen start cnt s offset w t xs log ⊎ IsClosed start cnt s offset w ((t, xs) ∷ log)

  -- The runtime and the flash stand for a log.
  pub record Represents (r : GranularityRuntime) (w : p.World) (log : Log) : Type 0 where
    pub low : (cfg r).sector_start ≤ r.sector_index
    pub high : r.sector_index < (cfg r).sector_start + (cfg r).sector_cnt
    pub clean : IsClean (cfg r).sector_start (cfg r).sector_cnt w
    pub stands : Stands (cfg r).sector_start (cfg r).sector_cnt r.sector_index r.offset_bytes w log
