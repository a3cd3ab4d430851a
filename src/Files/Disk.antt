-- ===== src/Files/Disk.antt =====
-- What the pages for files call: the file system, and the connection of the request.
use espidf_component_webmana.Prelude.{
  ℕ, ◌≤◌, ◌<◌, ◌≡◌, Bool, true, Option, some, List, [], ◌++◌, length, take, drop,
}
use espidf_component_webmana.Prelude.Text.{Bytes}
use espidf_component_webmana.Esp.{esp_ok}

pub record FileSystem : Type 1 where
  pub World : Type 0
  -- stat succeeds
  pub has_file : (path : Bytes) → World → Bool
  -- The entries of a directory, and which are directories; `none` where opendir fails.
  pub read_dir : (path : Bytes) → World → Option (List (Bytes × Bool))
  pub fopen_read : (path : Bytes) → World → Bool
  pub fopen_write : (path : Bytes) → World → Bool × World
  -- What fread gives of an open file, from where it stands.
  pub fread : (path : Bytes) (offset size : ℕ) → World → Bytes
  -- fwrite of `count` bytes of a buffer, with its result.
  pub fwrite : (path buffer : Bytes) (count : ℕ) → World → ℕ × World
  pub unlink : (path : Bytes) → World → World

pub record Connection : Type 1 where
  pub Peer : Type 0
  -- The result of httpd_req_recv as a size_t, and what it put into the buffer.
  pub recv : (size : ℕ) → Peer → ℕ × Bytes × Peer
  -- httpd_resp_send_chunk
  pub send_chunk : Bytes → Peer → ℕ × Peer

-- The file system keeps the contents of a file: opening it to write empties it, and what is written
-- comes to its end.
pub record KeepsContents (d : FileSystem) : Type 0 where
  pub contents : (path : Bytes) → d.World → Option Bytes
  pub contents-fopen_write :
      (path : Bytes) (w : d.World)
      → (d.fopen_write path w).0 ≡ true
      → contents path (d.fopen_write path w).1 ≡ some []
  pub contents-fwrite :
      (path buffer c : Bytes) (count : ℕ) (w : d.World)
      → contents path w ≡ some c
      → count ≤ length buffer
      → (d.fwrite path buffer count w).0 ≡ count
      → contents path (d.fwrite path buffer count w).1 ≡ some (c ++ take count buffer)
  pub has_file-contents :
      (path c : Bytes) (w : d.World) → contents path w ≡ some c → d.has_file path w ≡ true
  pub fopen_read-contents :
      (path c : Bytes) (w : d.World) → contents path w ≡ some c → d.fopen_read path w ≡ true
  pub fread-contents :
      (path c : Bytes) (offset size : ℕ) (w : d.World)
      → contents path w ≡ some c
      → d.fread path offset size w ≡ take size (drop offset c)

-- There is room for what is written.
pub record HasRoom (d : FileSystem) : Type 0 where
  pub fwrite_all :
      (path buffer : Bytes) (count : ℕ) (w : d.World)
      → count ≤ length buffer
      → (d.fwrite path buffer count w).0 ≡ count

-- A connection without errors: bytes that are under way arrive, in pieces that the connection
-- chooses, and what is sent is taken.
pub record Delivers (k : Connection) : Type 0 where
  pub pending : k.Peer → Bytes
  pub taken : k.Peer → Bytes
  pub recv_some :
      (size : ℕ) (p : k.Peer) → 0 < size → 0 < length (pending p) → 0 < (k.recv size p).0
  pub recv_bounded :
      (size : ℕ) (p : k.Peer)
      → ((k.recv size p).0 ≤ size) × ((k.recv size p).0 ≤ length (pending p))
  pub recv-pending :
      (size : ℕ) (p : k.Peer)
      → ((k.recv size p).1 ≡ take (k.recv size p).0 (pending p))
        × (pending (k.recv size p).2 ≡ drop (k.recv size p).0 (pending p))
  pub taken-send_chunk :
      (chunk : Bytes) (p : k.Peer)
      → ((k.send_chunk chunk p).0 ≡ esp_ok) × (taken (k.send_chunk chunk p).1 ≡ taken p ++ chunk)
