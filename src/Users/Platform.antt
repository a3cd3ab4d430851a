-- ===== src/Users/Platform.antt =====
-- What the user accounts call and cpp/webmanager_base.hh does not define: the files of the SPIFFS
-- partition, the random numbers, SHA-256, and the generated codec of UserRecord.
use espidf_component_webmana.Prelude.{
  ℕ, ◌+◌, ◌*◌, ◌≤◌, ◌≡◌, ◌≢◌, Bool, true, false, Option, none, some, List, [], ◌∷◌, length, get_or,
}
use espidf_component_webmana.Prelude.Text.{Bytes}
use espidf_component_webmana.Users.Record.{StoredUser}

-- A `struct dirent`.
pub record Entry : Type 0 where
  pub name : Bytes
  pub is_directory : Bool

pub record Platform : Type 1 where
  pub World : Type 0
  -- esp_fill_random on 16 bytes
  pub fill_random : World → Bytes × World
  pub sha256 : Bytes → Bytes
  pub mkdir : Bytes → World → World
  -- fopen(path, "rb"): the file's content, `none` for NULL
  pub fopen_rb : Bytes → World → Option Bytes
  -- fopen(path, "wb"): false for NULL
  pub fopen_wb : Bytes → World → Bool × World
  -- fwrite to the file opened under the path: the number of bytes written
  pub fwrite : Bytes → Bytes → World → ℕ × World
  -- unlink(path) == 0
  pub unlink : Bytes → World → Bool × World
  -- opendir, and all that readdir answers; `none` for NULL
  pub opendir : Bytes → World → Option (List Entry)
  pub namespace_id : ℕ
  pub type_id : ℕ
  -- UserRecord::Encode into 512 bytes: `none` for the length 0
  pub encode : StoredUser → Option Bytes
  pub decode : Bytes → Option StoredUser

-- Two bytes of a buffer, the low one first.
abbrev pub u16_at : ℕ → Bytes → ℕ
u16_at i buf = get_or buf i 0 + 256 * get_or buf (i + 1) 0

abbrev pub Apart : Entry → List Entry → Type 0
Apart e [] = Unit
Apart e (f ∷ fs) = (e.name ≢ f.name) × Apart e fs

-- No name stands twice.
abbrev pub AllApart : List Entry → Type 0
AllApart [] = Unit
AllApart (e ∷ es) = Apart e es × AllApart es

-- The file system: a file holds what was written last, a change of one file leaves the others alone,
-- and a directory lists no name twice.
pub record KeepsFiles (p : Platform) : Type 0 where
  pub read-fwrite :
      (path bytes : Bytes) (w₁ w₂ w₃ : p.World)
      → p.fopen_wb path w₁ ≡ (true, w₂)
      → p.fwrite path bytes w₂ ≡ (length bytes, w₃)
      → p.fopen_rb path w₃ ≡ some bytes
  pub read-fopen_wb_ne :
      (path other : Bytes) (w : p.World)
      → path ≢ other
      → p.fopen_rb other (p.fopen_wb path w).1 ≡ p.fopen_rb other w
  pub read-fwrite_ne :
      (path other bytes : Bytes) (w : p.World)
      → path ≢ other
      → p.fopen_rb other (p.fwrite path bytes w).1 ≡ p.fopen_rb other w
  pub read-unlink_ne :
      (path other : Bytes) (w : p.World)
      → path ≢ other
      → p.fopen_rb other (p.unlink path w).1 ≡ p.fopen_rb other w
  pub read-unlink :
      (path : Bytes) (w w' : p.World) → p.unlink path w ≡ (true, w') → p.fopen_rb path w' ≡ none
  pub read-unlink_failed :
      (path other : Bytes) (w w' : p.World)
      → p.unlink path w ≡ (false, w')
      → p.fopen_rb other w' ≡ p.fopen_rb other w
  pub read-mkdir :
      (path other : Bytes) (w : p.World) → p.fopen_rb other (p.mkdir path w) ≡ p.fopen_rb other w
  pub read-fill_random :
      (other : Bytes) (w : p.World) → p.fopen_rb other (p.fill_random w).1 ≡ p.fopen_rb other w
  pub opendir-AllApart :
      (path : Bytes) (w : p.World) (es : List Entry) → p.opendir path w ≡ some es → AllApart es

-- The codec: what Encode wrote begins with the record's header, fits the buffer, and is what Decode
-- reads.
pub record KeepsUsers (p : Platform) : Type 0 where
  pub decode-encode :
      (u : StoredUser) (bytes : Bytes) → p.encode u ≡ some bytes → p.decode bytes ≡ some u
  pub length-encode :
      (u : StoredUser) (bytes : Bytes)
      → p.encode u ≡ some bytes
      → (4 ≤ length bytes) × (length bytes ≤ 512)
  pub header-encode :
      (u : StoredUser) (bytes : Bytes)
      → p.encode u ≡ some bytes
      → (u16_at 0 bytes ≡ p.namespace_id) × (u16_at 2 bytes ≡ p.type_id)
