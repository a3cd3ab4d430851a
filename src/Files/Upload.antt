-- ===== src/Files/Upload.antt =====
-- A body that arrives without errors is the file's contents.
use espidf_component_webmana.Prelude.{
  ℕ, zero, suc, ◌+◌, ◌-◌, ◌≤◌, ◌<◌, ◌^◌, min, ◌≡◌, refl, sym, ap, ◌∙◌, true, false, some, [], ◌∷◌,
  ◌++◌, ltb, ◌==◌, length, take, drop, arith, length-take, length-drop, take_all,
}
use espidf_component_webmana.Prelude.Text.{Bytes}
use espidf_component_webmana.Prelude.Word.{sub32}
use espidf_component_webmana.Esp.{esp_ok}
use espidf_component_webmana.Files.Disk.{FileSystem, Connection, KeepsContents, HasRoom, Delivers}
use espidf_component_webmana.Files.{
  Io, text, complete, http_buffer_size, max_file_size, path_of, is_directory_name, receive_loop,
  uploaded, handle_files_post,
}

pub append_assoc : (a b c : Bytes) → (a ++ b) ++ c ≡ a ++ (b ++ c)
append_assoc [] b c = refl
append_assoc (x ∷ a) b c = ap (◌∷◌ x) (append_assoc a b c)

take_nil : (m : ℕ) → ◌≡◌ {A = Bytes} (take m []) []
take_nil zero = refl
take_nil (suc m) = refl

-- A piece and the next one.
take_split : (n m : ℕ) (s : Bytes) → take n s ++ take m (drop n s) ≡ take (n + m) s
take_split zero m s = ap (λ i. take i s) (omega arith)
take_split (suc n) m [] = take_nil m ∙ sym (take_nil (suc n + m))
take_split (suc n) m (x ∷ s) =
    let shift : suc (n + m) ≡ suc n + m = omega arith in
    ap (◌∷◌ x) (take_split n m s) ∙ ap (λ i. take i (x ∷ s)) shift

pub append_nil : (a : Bytes) → a ++ [] ≡ a
append_nil [] = refl
append_nil (x ∷ a) = ap (◌∷◌ x) (append_nil a)

pub pieces :
    (n r : ℕ) (s later : Bytes) (left : ℕ)
    → n ≤ r
    → left ≡ r - n
    → later ≡ drop n s
    → take n s ++ take left later ≡ take r s
pieces n r s later left h e f =
    let whole : n + (r - n) ≡ r = omega arith in
    ap (λ i. take n s ++ take i later) e
    ∙ ap (λ q. take n s ++ take (r - n) q) f
    ∙ take_split n (r - n) s
    ∙ ap (λ i. take i s) whole

pub sub32_exact : (a b : ℕ) → b ≤ a → a < 2 ^ 32 → sub32 a b ≡ a - b
unfolding sub32
sub32_exact a b h k = omega arith

module _ {d : FileSystem} {k : Connection} (c : KeepsContents d) (room : HasRoom d)
    (v : Delivers k) where
  -- The state after one turn that received and wrote a piece.
  abbrev turned : Bytes → ℕ → Io d k → Io d k
  turned path remaining io =
      let (received, buffer, peer) = k.recv (min remaining http_buffer_size) io.peer in
      record { world = (d.fwrite path buffer received io.world).1; peer = peer }

  receive_turn :
      (fuel : ℕ) (path : Bytes) (remaining : ℕ) (io : Io d k)
      → 0 < remaining
      → 0 < length (v.pending io.peer)
      → receive_loop (suc fuel) path remaining io
        ≡ receive_loop fuel path
            (sub32 remaining (k.recv (min remaining http_buffer_size) io.peer).0)
            (turned path remaining io)
  unfolding receive_loop
  receive_turn fuel path remaining io more there =
      let size = min remaining http_buffer_size in
      let n = (k.recv size io.peer).0 in
      let arrived : 0 < n = v.recv_some size io.peer (omega arith) there in
      let bounded = v.recv_bounded size io.peer in
      let fits : n ≤ length (k.recv size io.peer).1 = omega (
        arith,
        ap (λ (b : Bytes). length b) (v.recv-pending size io.peer).0,
        length-take n (v.pending io.peer),
        bounded.1,
      ) in
      let written : (d.fwrite path (k.recv size io.peer).1 n io.world).0 ≡ n =
        room.fwrite_all path (k.recv size io.peer).1 n io.world fits in
      let is_more : (remaining == 0) ≡ false = ground arith in
      let is_some_bytes : (n == 0) ≡ false = ground arith in
      let is_written : (n == (d.fwrite path (k.recv size io.peer).1 n io.world).0) ≡ true =
        ground arith in
      rw (is_more, is_some_bytes, is_written) refl

  -- With fuel for each byte, the loop ends, and the file has got the bytes.
  receive_loop_lem :
      (fuel : ℕ) (path : Bytes) (remaining : ℕ) (io : Io d k) (s : Bytes)
      → remaining ≤ fuel
      → remaining < 2 ^ 32
      → remaining ≤ length (v.pending io.peer)
      → c.contents path io.world ≡ some s
      → (io' : Io d k) × (receive_loop fuel path remaining io ≡ some (complete, io'))
        × (c.contents path io'.world ≡ some (s ++ take remaining (v.pending io.peer)))
  unfolding receive_loop
  receive_loop_lem zero path zero io s h b there e = (io, refl, e ∙ ap some (sym (append_nil s)))
  receive_loop_lem (suc fuel) path zero io s h b there e =
      (io, refl, e ∙ ap some (sym (append_nil s)))
  receive_loop_lem zero path (suc r) io s h b there e = absurd (omega arith)
  receive_loop_lem (suc fuel) path (suc r) io s h b there e =
      let size = min (suc r) http_buffer_size in
      let n = (k.recv size io.peer).0 in
      let arrived : 0 < n = v.recv_some size io.peer (omega arith) (omega arith) in
      let bounded = v.recv_bounded size io.peer in
      let (buffer, later) = v.recv-pending size io.peer in
      let left : sub32 (suc r) n ≡ suc r - n = sub32_exact (suc r) n (omega arith) b in
      let fits : n ≤ length (k.recv size io.peer).1 = omega (
        arith,
        ap (λ (q : Bytes). length q) buffer,
        length-take n (v.pending io.peer),
        bounded.1,
      ) in
      let e' : c.contents path (turned path (suc r) io).world
          ≡ some (s ++ take n (v.pending io.peer)) =
        c.contents-fwrite path (k.recv size io.peer).1 s n io.world e fits
          (room.fwrite_all path (k.recv size io.peer).1 n io.world fits)
        ∙ ap (λ q. some (s ++ q))
            (take_all n (k.recv size io.peer).1 (
                omega
                  (arith, ap (λ (q : Bytes). length q) buffer, length-take n (v.pending io.peer)))
              ∙ buffer) in
      let (io', ends, e'') =
        receive_loop_lem fuel path (sub32 (suc r) n) (turned path (suc r) io)
          (s ++ take n (v.pending io.peer)) (omega (arith, left)) (omega (arith, left))
          (omega
            (arith, left, ap (λ (q : Bytes). length q) later, length-drop n (v.pending io.peer)))
          e' in
      (
        io',
        receive_turn fuel path (suc r) io (omega arith) (omega arith) ∙ ends,
        e''
            ∙ ap some (
                append_assoc s (take n (v.pending io.peer))
                  (take (sub32 (suc r) n) (v.pending (turned path (suc r) io).peer))
                ∙ ap (λ q. s ++ q)
                    (pieces n (suc r) (v.pending io.peer) (v.pending (turned path (suc r) io).peer)
                      (sub32 (suc r) n) (omega (arith, bounded.0)) left later)),
      )

  -- A body of at most MAX_FILE_SIZE bytes, under a name of a file that can be opened, on a connection
  -- without errors and with room for the file: with fuel for each byte, the upload is answered as a
  -- success, and the file's contents are the body.
  pub handle_files_post_lem :
      (fuel : ℕ) (uri : Bytes) (content_len : ℕ) (io : Io d k)
      → is_directory_name (path_of uri) ≡ false
      → content_len ≤ max_file_size
      → content_len ≤ fuel
      → content_len ≤ length (v.pending io.peer)
      → (d.fopen_write (path_of uri) io.world).0 ≡ true
      → (io' : Io d k) × (handle_files_post fuel uri content_len io ≡ some (esp_ok, text, io'))
        × (c.contents (path_of uri) io'.world ≡ some (take content_len (v.pending io.peer)))
  unfolding handle_files_post uploaded
  handle_files_post_lem fuel uri content_len io is_file small enough there opened =
      let path = path_of uri in
      let (io', ends, stored) =
        receive_loop_lem fuel path content_len
          (record io { world = (d.fopen_write path io.world).1 }) [] enough (omega arith) there
          (c.contents-fopen_write path io.world opened) in
      let not_large : ltb max_file_size content_len ≡ false = ground arith in
      (
        io',
        rw
            (
              is_file,
              not_large,
              opened,
              ends,
              c.has_file-contents path (take content_len (v.pending io.peer)) io'.world stored,
            )
            refl,
        stored,
      )
