-- ===== src/Files/Download.antt =====
-- A file is sent as it is stored, and so an upload can be read back.
use espidf_component_webmana.Prelude.{
  ℕ, zero, suc, ◌+◌, ◌-◌, ◌≤◌, ◌<◌, min, ◌≡◌, refl, sym, ap, ◌∙◌, inl, inr, true, false, some, [],
  ◌∷◌, ◌++◌, ◌==◌, ==_iff, length, take, drop, arith, Bool-cases, length-take, length-drop,
}
use espidf_component_webmana.Prelude.Text.{Bytes}
use espidf_component_webmana.Esp.{esp_ok}
use espidf_component_webmana.Files.Disk.{FileSystem, Connection, KeepsContents, HasRoom, Delivers}
use espidf_component_webmana.Files.{
  Io, text, chunks, http_buffer_size, max_file_size, path_of, is_directory_name, send_loop,
  handle_files_get, handle_files_post,
}
use espidf_component_webmana.Files.Upload.{append_assoc, append_nil, handle_files_post_lem}

drop_nil : (b : ℕ) → ◌≡◌ {A = Bytes} (drop b []) []
drop_nil zero = refl
drop_nil (suc b) = refl

drop-drop : (a b : ℕ) (s : Bytes) → drop b (drop a s) ≡ drop (a + b) s
drop-drop zero b s = ap (λ i. drop i s) (omega arith)
drop-drop (suc a) b [] = drop_nil b ∙ sym (drop_nil (suc a + b))
drop-drop (suc a) b (x ∷ s) =
    let shift : suc (a + b) ≡ suc a + b = omega arith in
    drop-drop a b s ∙ ap (λ i. drop i (x ∷ s)) shift

take_rest : (n : ℕ) (s : Bytes) → take n s ++ drop (length (take n s)) s ≡ s
take_rest zero s = refl
take_rest (suc n) [] = refl
take_rest (suc n) (x ∷ s) = ap (◌∷◌ x) (take_rest n s)

empty_of_length : (s : Bytes) → length s ≡ 0 → s ≡ []
empty_of_length [] e = refl
empty_of_length (x ∷ s) e = absurd (omega arith)

module _ {d : FileSystem} {k : Connection} (c : KeepsContents d) (v : Delivers k) where
  send_loop_lem :
      (fuel : ℕ) (path s : Bytes) (offset : ℕ) (io : Io d k)
      → c.contents path io.world ≡ some s
      → offset ≤ length s
      → length s - offset < fuel
      → (io' : Io d k) × (send_loop fuel path offset io ≡ some (true, io'))
        × (v.taken io'.peer ≡ v.taken io.peer ++ drop offset s)
  unfolding send_loop
  send_loop_lem zero path s offset io e h f = absurd (omega arith)
  send_loop_lem (suc fuel) path s offset io e h f =
      let chunk = d.fread path offset http_buffer_size io.world in
      let read : chunk ≡ take http_buffer_size (drop offset s) =
        c.fread-contents path s offset http_buffer_size io.world e in
      let size : length chunk ≡ min http_buffer_size (length s - offset) =
        ap (λ (q : Bytes). length q) read
        ∙ length-take http_buffer_size (drop offset s)
        ∙ ap (min http_buffer_size) (length-drop offset s) in
      elim (Bool-cases (length chunk == 0)) [
        | inl done ↦
            let nothing : drop offset s ≡ [] =
              empty_of_length (drop offset s)
                (omega (arith, size, (==_iff (length chunk) 0).0 done, length-drop offset s)) in
            (
              io,
              rw done refl,
              sym (append_nil (v.taken io.peer)) ∙ ap (λ q. v.taken io.peer ++ q) (sym nothing),
            )
        | inr more ↦
            let some_bytes : 0 < length chunk = ground arith in
            let (accepted, got) = v.taken-send_chunk chunk io.peer in
            let io₁ : Io d k = record io { peer = (k.send_chunk chunk io.peer).1 } in
            let (io', ends, all) =
              send_loop_lem fuel path s (offset + length chunk) io₁ e (omega (arith, size))
                (omega (arith, size)) in
            let rest : chunk ++ drop (offset + length chunk) s ≡ drop offset s =
              ap (λ q. chunk ++ q) (sym (drop-drop offset (length chunk) s))
              ∙ ap (λ (q : Bytes). q ++ drop (length q) (drop offset s)) read
              ∙ take_rest http_buffer_size (drop offset s) in
            (
              io',
              rw (more, accepted) ends,
              all
                  ∙ ap (λ q. q ++ drop (offset + length chunk) s) got
                  ∙ append_assoc (v.taken io.peer) chunk (drop (offset + length chunk) s)
                  ∙ ap (λ q. v.taken io.peer ++ q) rest,
            )
      ]

  -- A file whose name does not end in a slash is sent as a whole, with fuel for each byte and one more.
  handle_files_get_lem :
      (fuel : ℕ) (uri s : Bytes) (io : Io d k)
      → is_directory_name (path_of uri) ≡ false
      → c.contents (path_of uri) io.world ≡ some s
      → length s < fuel
      → (io' : Io d k) × (handle_files_get fuel uri io ≡ some (esp_ok, chunks, io'))
        × (v.taken io'.peer ≡ v.taken io.peer ++ s)
  unfolding handle_files_get
  handle_files_get_lem fuel uri s io is_file e enough =
      let path = path_of uri in
      let (io₁, ends, all) = send_loop_lem fuel path s 0 io e (omega arith) (omega arith) in
      (
        record io₁ { peer = (k.send_chunk [] io₁.peer).1 },
        rw
            (
              is_file,
              c.has_file-contents path s io.world e,
              c.fopen_read-contents path s io.world e,
              ends,
            )
            refl,
        (v.taken-send_chunk [] io₁.peer).1 ∙ append_nil (v.taken io₁.peer) ∙ all,
      )

module _ {d : FileSystem} {k : Connection} (c : KeepsContents d) (room : HasRoom d)
    (v : Delivers k) where
  -- A body of at most MAX_FILE_SIZE bytes, under a name that does not end in a slash and that can be
  -- opened, on connections without errors and with room for the file: with fuel for each byte and one
  -- more, the upload is answered as a success, and a request for the same name, on any connection,
  -- then sends the body, whatever the pieces are in which the bodies arrive.
  pub handle_files_get-handle_files_post :
      (fuel : ℕ) (uri : Bytes) (content_len : ℕ) (io : Io d k) (reader : k.Peer)
      → is_directory_name (path_of uri) ≡ false
      → content_len ≤ max_file_size
      → content_len < fuel
      → content_len ≤ length (v.pending io.peer)
      → (d.fopen_write (path_of uri) io.world).0 ≡ true
      → (stored : Io d k) × (read : Io d k) × (handle_files_post fuel uri content_len io
          ≡ some (esp_ok, text, stored))
        × (handle_files_get fuel uri (record stored { peer = reader })
            ≡ some (esp_ok, chunks, read))
        × (v.taken read.peer ≡ v.taken reader ++ take content_len (v.pending io.peer))
  handle_files_get-handle_files_post fuel uri content_len io reader is_file small enough there
        opened =
      let (stored, posted, holds) =
        handle_files_post_lem c room v fuel uri content_len io is_file small (omega arith) there
          opened in
      let (read, got, all) =
        handle_files_get_lem c v fuel uri (take content_len (v.pending io.peer))
          (record stored { peer = reader }) is_file holds
          (omega (arith, length-take content_len (v.pending io.peer))) in
      (stored, read, posted, got, all)
