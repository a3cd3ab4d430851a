-- ===== src/Files/Tests.antt =====
-- A file system and a connection in memory that meet the assumptions, and the pages at concrete data.
use espidf_component_webmana.Prelude.{
  min, ◌≡◌, ◌≢◌, ◌⊎◌, ◌==◌, ◌≤◌, refl, Bool, true, false, Option, none, some, [], ◌∷◌, ◌++◌,
  if◌then◌else◌, length, take, drop, arith,
}
use espidf_component_webmana.Prelude.Text.{Bytes, codes, same_text, same_text_refl}
use espidf_component_webmana.Esp.{esp_ok, esp_fail}
use espidf_component_webmana.Files.Disk.{FileSystem, Connection, KeepsContents, HasRoom, Delivers}
use espidf_component_webmana.Files.{Io, text, chunks, handle_files_get, handle_files_post}
use espidf_component_webmana.Files.Update.{
  Updater, KeepsImage, Arrives, Outcome, refused, restarted, handle_ota_post,
}
use espidf_component_webmana.Files.Firmware.{handle_ota_post_lem}
use espidf_component_webmana.Files.Download.{handle_files_get-handle_files_post}

abbrev Contents : Type 0
Contents = Bytes → Option Bytes

abbrev put : Bytes → Option Bytes → Contents → Contents
put path s w other = if same_text path other then s else w other

abbrev is_some : Option Bytes → Bool
is_some none = false
is_some (some s) = true

abbrev bytes_of : Option Bytes → Bytes
bytes_of none = []
bytes_of (some s) = s

abbrev disk : FileSystem
disk = record {
  World = Contents;
  has_file = λ path w. is_some (w path);
  read_dir = λ path w. some ((codes "a", false) ∷ (codes "b", true) ∷ []);
  fopen_read = λ path w. is_some (w path);
  fopen_write = λ path w. (true, put path (some []) w);
  fread = λ path offset size w. take size (drop offset (bytes_of (w path)));
  fwrite =
      λ path buffer count w. (count, put path (some (bytes_of (w path) ++ take count buffer)) w);
  unlink = λ path w. put path none w;
}

-- What is to arrive, and what was sent; at most three bytes arrive at a time.
abbrev wire : Connection
wire = record {
  Peer = Bytes × Bytes;
  recv = λ size p. (
    min (min size 3) (length p.0),
    take (min (min size 3) (length p.0)) p.0,
    (drop (min (min size 3) (length p.0)) p.0, p.1),
  );
  send_chunk = λ chunk p. (esp_ok, (p.0, p.1 ++ chunk));
}

abbrev disk-KeepsContents : KeepsContents disk
disk-KeepsContents = record {
  contents = λ path w. w path;
  contents-fopen_write = λ path w e. rw (same_text_refl path) refl;
  contents-fwrite = λ path buffer c count w e h n. rw (same_text_refl path, e) refl;
  has_file-contents = λ path c w e. rw e refl;
  fopen_read-contents = λ path c w e. rw e refl;
  fread-contents = λ path c offset size w e. rw e refl;
}

disk-HasRoom : HasRoom disk
disk-HasRoom = record { fwrite_all = λ path buffer count w h. refl }

abbrev wire-Delivers : Delivers wire
wire-Delivers = record {
  pending = λ p. p.0;
  taken = λ p. p.1;
  recv_some = λ size p h l. omega arith;
  recv_bounded = λ size p. (omega arith, omega arith);
  recv-pending = λ size p. (refl, refl);
  taken-send_chunk = λ chunk p. (refl, refl);
}

abbrev upload : Io disk wire
upload = record { world = λ path. none; peer = (codes "hello", []) }

handle_files_get-handle_files_post_example :
    (stored : Io disk wire) × (read : Io disk wire) × (handle_files_post 6
        (codes "/files/a.txt")
        5
        upload
      ≡ some (esp_ok, text, stored))
    × (handle_files_get 6 (codes "/files/a.txt") (record stored { peer = ([], []) })
        ≡ some (esp_ok, chunks, read))
    × (read.peer.1 ≡ codes "hello")
handle_files_get-handle_files_post_example =
    handle_files_get-handle_files_post disk-KeepsContents disk-HasRoom wire-Delivers 6
      (codes "/files/a.txt") 5 upload ([], []) refl (omega arith) (omega arith) (omega arith) refl

-- The listing of a directory is no JSON: its strings stand in single quotes, and a comma follows the
-- last one.
run_listing :
    handle_files_get 0 (codes "/files/") upload
    ≡ some (
      esp_ok,
      chunks,
      record upload { peer = (codes "hello", codes "{'files':['a',], 'dirs':['b',]}") },
    )
unfolding handle_files_get
run_listing = refl

-- A partition in memory that takes images whose first byte is 0xE9.
abbrev starts_right : Bytes → Bool
starts_right [] = false
starts_right (c ∷ s) = c == 0xE9

abbrev partition : Updater
partition = record {
  World = Bytes;
  begin = λ w. (esp_ok, []);
  write = λ s w. (esp_ok, w ++ s);
  end_update = λ w. (if starts_right w then esp_ok else esp_fail, w);
  set_boot_partition = λ w. (esp_ok, w);
}

valid_lem : (b : Bool) → (if b then esp_ok else esp_fail) ≡ esp_ok → b ≡ true
valid_lem true e = refl
valid_lem false e = absurd (omega (arith, e))

abbrev partition-KeepsImage : KeepsImage partition
partition-KeepsImage = record {
  image = λ w. w;
  is_valid = starts_right;
  image-begin = λ w e. refl;
  image-write = λ s w e. refl;
  end_update_valid = λ w e. valid_lem (starts_right w) e;
  image-end_update = λ w. refl;
  image-set_boot_partition = λ w. refl;
}

abbrev wire-Arrives : Arrives wire
wire-Arrives = record {
  pending = λ p. p.0;
  recv_bounded = λ size p h l. (omega arith, omega arith);
  recv-pending = λ size p h l. (refl, refl);
}

abbrev firmware : Bytes
firmware = 0xE9 ∷ 1 ∷ 2 ∷ 3 ∷ []

-- The whole image restarts the device, and a part of it does not.
run_update : handle_ota_post partition wire 4 4 [] (firmware, []) ≡ some (restarted, firmware)
unfolding handle_ota_post
run_update = refl

run_half_update :
    handle_ota_post partition wire 4 4 [] (0xE9 ∷ 1 ∷ [], []) ≡ some (refused, 0xE9 ∷ 1 ∷ [])
unfolding handle_ota_post
run_half_update = refl

handle_ota_post_lem_example :
    (x : Outcome × Bytes) × (handle_ota_post partition wire 4 4 [] (firmware, []) ≡ some x)
    × ((x.0 ≢ restarted) ⊎ ((4 ≤ length firmware) × (x.1 ≡ firmware) × (starts_right x.1 ≡ true)))
handle_ota_post_lem_example =
    handle_ota_post_lem partition wire partition-KeepsImage wire-Arrives 4 4 [] (firmware, [])
      (omega arith) (omega arith)
