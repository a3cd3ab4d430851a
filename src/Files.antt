-- ===== src/Files.antt =====
-- cpp/webmanager_base.hh: the pages for files and for updates. No page of these asks require_role.
pub mod Disk
pub mod Upload
pub mod Download
pub mod Update
pub mod Firmware
mod Tests
use espidf_component_webmana.Prelude.{
  ℕ, zero, suc, ◌+◌, ◌-◌, ◌*◌, min, Bool, true, false, not, Option, none, some, List, [], ◌∷◌, ◌++◌,
  ltb, ◌==◌, if◌then◌else◌, length, drop, get_or,
}
use espidf_component_webmana.Prelude.Text.{Bytes, codes}
use espidf_component_webmana.Prelude.Word.{sub32}
use espidf_component_webmana.Esp.{◌>>=◌, esp_ok, esp_fail}
use espidf_component_webmana.Files.Disk.{FileSystem, Connection}

abbrev pub http_buffer_size : ℕ
http_buffer_size = 2 * 2048

abbrev pub max_file_size : ℕ
max_file_size = 256 * 1024

abbrev pub files_base_path_len : ℕ
files_base_path_len = 6

pub record Io (d : FileSystem) (k : Connection) : Type 0 where
  pub world : d.World
  pub peer : k.Peer

-- The answer: an error, a text, the chunks that were sent, or chunks that an error follows.
pub data FileReply : Type 0 where
  error : (status : ℕ) → FileReply
  text chunks broken_off : FileReply

abbrev pub path_of : (uri : Bytes) → Bytes
path_of uri = drop files_base_path_len uri

-- `path[strlen(path) - 1] == '/'`
abbrev pub is_directory_name : Bytes → Bool
is_directory_name path = get_or path (length path - 1) 0 == 47

-- How the reception of a body ends.
pub data Reception : Type 0 where
  complete receive_failed write_failed : Reception

-- The names in a listing.
unfoldable pub names_of : (directories : Bool) → List (Bytes × Bool) → List Bytes
names_of directories [] = []
names_of directories ((name, is_dir) ∷ entries) =
    let rest = names_of directories entries in
    if (if directories then is_dir else not is_dir)
    then codes "'" ∷ name ∷ codes "'," ∷ rest
    else rest

-- The chunks of a listing, up to the empty one that ends it.
unfoldable pub dir_chunks : List (Bytes × Bool) → List Bytes
unfolding names_of
dir_chunks entries =
    codes "{'files':[" ∷ names_of false entries
    ++ codes "], 'dirs':[" ∷ names_of true entries
    ++ codes "]}" ∷ [] ∷ []

module _ {d : FileSystem} {k : Connection} where
  -- Chunks whose results nobody looks at.
  unfoldable pub send_all : List Bytes → Io d k → Io d k
  send_all [] io = io
  send_all (chunk ∷ rest) io = send_all rest (record io { peer = (k.send_chunk chunk io.peer).1 })

  unfoldable pub http_resp_dir_html : (dirpath : Bytes) → Io d k → ℕ × FileReply × Io d k
  unfolding dir_chunks send_all
  http_resp_dir_html dirpath io = elim (d.read_dir dirpath io.world) [
    | none ↦ (esp_fail, error 404, io)
    | some entries ↦ (esp_ok, chunks, send_all (dir_chunks entries) io)
  ]

  -- The loop of handle_files_get: whether all chunks were sent.
  unfoldable pub send_loop :
      (fuel : ℕ) (path : Bytes) (offset : ℕ) → Io d k → Option (Bool × Io d k)
  send_loop zero path offset io = none
  send_loop (suc fuel) path offset io =
      let chunk = d.fread path offset http_buffer_size io.world in
      let (ret, peer) = k.send_chunk chunk io.peer in
      let io' = record io { peer = peer } in
      let rest = send_loop fuel path (offset + length chunk) io' in
      if length chunk == 0
      then some (true, io)
      else if not (ret == esp_ok)
      then some (false, io')
      else rest

  -- The empty chunk ends the answer.
  abbrev file_sent : Bool × Io d k → ℕ × FileReply × Io d k
  file_sent (true, io) = (esp_ok, chunks, record io { peer = (k.send_chunk [] io.peer).1 })
  file_sent (false, io) = (esp_fail, broken_off, record io { peer = (k.send_chunk [] io.peer).1 })

  unfoldable pub handle_files_get :
      (fuel : ℕ) (uri : Bytes) → Io d k → Option (ℕ × FileReply × Io d k)
  unfolding http_resp_dir_html send_loop
  handle_files_get fuel uri io =
      if is_directory_name (path_of uri)
      then some (http_resp_dir_html (path_of uri) io)
      else if not (d.has_file (path_of uri) io.world)
      then some (esp_fail, error 404, io)
      else if not (d.fopen_read (path_of uri) io.world)
      then some (esp_fail, error 500, io)
      else (send_loop fuel (path_of uri) 0 io >>= λ x. some (file_sent x))

  -- The loop of handle_files_post. A negative result of httpd_req_recv is a large size_t, so only 0
  -- counts as an error, and 0 is not HTTPD_SOCK_ERR_TIMEOUT.
  unfoldable pub receive_loop :
      (fuel : ℕ) (path : Bytes) (remaining : ℕ) → Io d k → Option (Reception × Io d k)
  unfolding sub32
  receive_loop zero path remaining io = if remaining == 0 then some (complete, io) else none
  receive_loop (suc fuel) path remaining io =
      let (received, buffer, peer) = k.recv (min remaining http_buffer_size) io.peer in
      let (written, w) = d.fwrite path buffer received io.world in
      let rest =
        receive_loop fuel path (sub32 remaining received) (record { world = w; peer = peer }) in
      if remaining == 0
      then some (complete, io)
      else if received == 0
      then some (receive_failed, record { world = d.unlink path io.world; peer = peer })
      else if not (received == written)
      then some (write_failed, record { world = d.unlink path w; peer = peer })
      else rest

  -- After the loop.
  unfoldable pub uploaded : (path : Bytes) → Reception × Io d k → ℕ × FileReply × Io d k
  uploaded path (complete, io) =
      if not (d.has_file path io.world) then (esp_fail, error 400, io) else (esp_ok, text, io)
  uploaded path (receive_failed, io) = (esp_fail, error 500, io)
  uploaded path (write_failed, io) = (esp_fail, error 500, io)

  unfoldable pub handle_files_post :
      (fuel : ℕ) (uri : Bytes) (content_len : ℕ) → Io d k → Option (ℕ × FileReply × Io d k)
  unfolding receive_loop uploaded
  handle_files_post fuel uri content_len io =
      let (is_open, w) = d.fopen_write (path_of uri) io.world in
      let io' = record io { world = w } in
      if is_directory_name (path_of uri)
      then some (esp_fail, error 500, io)
      else if ltb max_file_size content_len
      then some (esp_fail, error 400, io)
      else if not is_open
      then some (esp_fail, error 500, io')
      else (receive_loop fuel (path_of uri) content_len io' >>= λ x.
          some (uploaded (path_of uri) x))

  unfoldable pub handle_files_delete : (uri : Bytes) → Io d k → ℕ × FileReply × Io d k
  handle_files_delete uri io =
      if is_directory_name (path_of uri)
      then (esp_fail, error 500, io)
      else if not (d.has_file (path_of uri) io.world)
      then (esp_fail, error 400, io)
      else (esp_ok, text, record io { world = d.unlink (path_of uri) io.world })
