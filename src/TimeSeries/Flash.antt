-- ===== src/TimeSeries/Flash.antt =====
-- What cpp/timeseries.hh calls and does not define: the flash partition `timeseries`.
use espidf_component_webmana.Prelude.{
  ℕ, ◌+◌, ◌≤◌, ◌≡◌, ◌⊎◌, ◌*◌, length, take, drop, replicate, All,
}
use espidf_component_webmana.Prelude.Text.{Bytes}
use espidf_component_webmana.Esp.{esp_ok}
use espidf_component_webmana.Hex.{IsByte}

pub record Partition : Type 1 where
  pub World : Type 0
  -- esp_partition_read(partition, offset, buf, n)
  pub read : (offset n : ℕ) → World → ℕ × Bytes
  -- esp_partition_write
  pub write : (offset : ℕ) → Bytes → World → ℕ × World
  -- esp_partition_erase_range
  pub erase_range : (offset n : ℕ) → World → ℕ × World

-- `n` bytes of erased flash.
abbrev pub blank : ℕ → Bytes
blank n = replicate n 0xff

-- A read gives so many bytes. An erased range reads as blank, bytes that are written to a blank range are read back, and neither
-- changes what lies outside of its range.
pub record KeepsFlash (p : Partition) : Type 0 where
  pub read-IsByte :
      (o n : ℕ) (w : p.World) (bytes : Bytes)
      → p.read o n w ≡ (esp_ok, bytes)
      → (length bytes ≡ n) × All IsByte bytes
  pub read-erase :
      (offset n o k : ℕ) (w w' : p.World)
      → p.erase_range offset n w ≡ (esp_ok, w')
      → offset ≤ o
      → o + k ≤ offset + n
      → p.read o k w' ≡ (esp_ok, blank k)
  pub read-erase_ne :
      (offset n o k : ℕ) (w w' : p.World)
      → p.erase_range offset n w ≡ (esp_ok, w')
      → (o + k ≤ offset) ⊎ (offset + n ≤ o)
      → p.read o k w' ≡ p.read o k w
  pub read-write :
      (offset i k : ℕ) (bytes : Bytes) (w w' : p.World)
      → p.write offset bytes w ≡ (esp_ok, w')
      → All IsByte bytes
      → p.read offset (length bytes) w ≡ (esp_ok, blank (length bytes))
      → i + k ≤ length bytes
      → p.read (offset + i) k w' ≡ (esp_ok, take k (drop i bytes))
  pub read-write_ne :
      (offset o k : ℕ) (bytes : Bytes) (w w' : p.World)
      → p.write offset bytes w ≡ (esp_ok, w')
      → (o + k ≤ offset) ⊎ (offset + length bytes ≤ o)
      → p.read o k w' ≡ p.read o k w

-- Calls inside the first `sectors` sectors succeed, on the multiples of a sector for an erasure.
pub record Works (p : Partition) (sectors : ℕ) : Type 0 where
  pub read-ok :
      (o n : ℕ) (w : p.World)
      → o + n ≤ 4096 * sectors
      → (bytes : Bytes) × (p.read o n w ≡ (esp_ok, bytes))
  pub write-ok :
      (o : ℕ) (bytes : Bytes) (w : p.World)
      → o + length bytes ≤ 4096 * sectors
      → (w' : p.World) × (p.write o bytes w ≡ (esp_ok, w'))
  pub erase-ok :
      (s : ℕ) (w : p.World)
      → s + 1 ≤ sectors
      → (w' : p.World) × (p.erase_range (4096 * s) 4096 w ≡ (esp_ok, w'))
