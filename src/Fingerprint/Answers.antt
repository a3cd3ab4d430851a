-- ===== src/Fingerprint/Answers.antt =====
-- Well-formed answers: the value that the reader sent is the value that the command gives.
use espidf_component_webmana.Prelude.{
  ℕ, zero, suc, ◌<◌, ◌^◌, ◌≡◌, refl, sym, ◌∙◌, ap, [], ◌∷◌, ◌++◌, arith, ◌==◌, not, if◌then◌else◌,
  take, drop, get_or, take-append,
}
use espidf_component_webmana.Prelude.Text.{Bytes}
use espidf_component_webmana.Hex.{IsByte}
use espidf_component_webmana.Fingerprint.Port.{Port, IsBigEndian}
use espidf_component_webmana.Fingerprint.Ret
use espidf_component_webmana.Fingerprint.Frame.{
  Reader, default_timeout_ticks, ackpacket, commandpacket, make_frame, check_package,
  receive_and_check_package, receive_and_check, receive_and_check_u16, create_and_send_data_package,
}
use espidf_component_webmana.Fingerprint.Framing.{
  frame-accepted, make_frame-tail, make_frame-IsByte, slice16,
}
use espidf_component_webmana.Fingerprint.Instructions.{
  instruction_code, send_instruction, create_and_send_instruction_packet_u32,
}
use espidf_component_webmana.Fingerprint.Commands.{set_address}

get_or-drop : (i : ℕ) (s : Bytes) → get_or s i 0 ≡ get_or (drop i s) 0 0
get_or-drop zero s = refl
get_or-drop (suc i) [] = refl
get_or-drop (suc i) (x ∷ s) = get_or-drop i s

drop_one : (i : ℕ) (s : Bytes) → drop (suc i) s ≡ drop 1 (drop i s)
drop_one zero s = refl
drop_one (suc i) [] = refl
drop_one (suc i) (x ∷ s) = drop_one i s

module _ {d : Port} where
  package_ok :
      (n : ℕ) (r : Reader d) (buf : Bytes) (w : d.World)
      → d.read_bytes n default_timeout_ticks r.world ≡ (buf, w)
      → check_package d r.target_address n buf ≡ Ret.ok
      → receive_and_check_package n r ≡ (Ret.ok, buf, record r { world = w })
  unfolding receive_and_check_package
  package_ok n r buf w e h = rw (e, h) refl

  plain_answer :
      (r r' : Reader d) (buf : Bytes)
      → receive_and_check_package 12 r ≡ (Ret.ok, buf, r')
      → receive_and_check r ≡ (get_or buf 9 0, r')
  unfolding receive_and_check
  plain_answer r r' buf e =
      ap (λ (x : ℕ × Bytes × Reader d). (if not (x.0 == Ret.ok) then x.0 else get_or x.1 9 0, x.2))
        e

  u16_answer :
      (val : ℕ) (r r' : Reader d) (buf : Bytes)
      → receive_and_check_package 14 r ≡ (Ret.ok, buf, r')
      → receive_and_check_u16 val r ≡ (get_or buf 9 0, d.parse_u16 buf 10, r')
  unfolding receive_and_check_u16
  u16_answer val r r' buf e =
      ap
        (λ (x : ℕ × Bytes × Reader d).
          if not (x.0 == Ret.ok)
          then (x.0, val, x.2)
          else (get_or x.1 9 0, d.parse_u16 x.1 10, x.2))
        e

  set_address_at :
      (address : ℕ) (r : Reader d)
      → set_address address r
        ≡ receive_and_check (record {
          target_address = address;
          world =
              d.write_bytes
                (make_frame d r.target_address commandpacket (0x15 ∷ d.u32_bytes address))
                (d.flush_input r.world);
        })
  unfolding set_address create_and_send_instruction_packet_u32 send_instruction
      create_and_send_data_package instruction_code
  set_address_at address r = refl

module _ (d : Port) (be : IsBigEndian d) where
  -- A well-formed answer that carries a number of 16 bits gives the number and the answer's own
  -- byte, whatever the variable held before. The access functions of common.hh store and read
  -- big-endian numbers.
  receive_and_check_u16_lem :
      (code v val : ℕ) (r : Reader d) (w : d.World)
      → IsByte code
      → v < 2 ^ 16
      → r.target_address < 2 ^ 32
      → d.read_bytes 14 default_timeout_ticks r.world
        ≡ (make_frame d r.target_address ackpacket (code ∷ d.u16_bytes v), w)
      → receive_and_check_u16 val r ≡ (code, v, record r { world = w })
  receive_and_check_u16_lem code v val r w hc hv ha e =
      let c = code ∷ d.u16_bytes v in
      let buf = make_frame d r.target_address ackpacket c in
      let bytes = make_frame-IsByte d be r.target_address c (hc, be.u16_bytes-IsByte v) in
      let two_bytes = be.length-u16_bytes v in
      let (t, at, size) = make_frame-tail d be r.target_address c (omega arith) in
      let accepted =
        frame-accepted d be r.target_address 14 c ha (omega arith) bytes (omega arith) in
      let byte : get_or buf 9 0 ≡ code = get_or-drop 9 buf ∙ ap (λ x. get_or x 0 0) at in
      let behind : drop 10 buf ≡ d.u16_bytes v ++ t = drop_one 9 buf ∙ ap (drop 1) at in
      let number : d.parse_u16 buf 10 ≡ v = (slice16 d be buf 10 v bytes (omega arith) hv).1 (
        sym (
          ap (take 2) behind
          ∙ ap (λ k. take k (d.u16_bytes v ++ t)) (sym two_bytes)
          ∙ take-append (d.u16_bytes v) t)) in
      u16_answer val r _ buf (package_ok 14 r buf w e accepted)
      ∙ ap (λ x. (x, d.parse_u16 buf 10, record r { world = w })) byte
      ∙ ap (λ x. (code, x, record r { world = w })) number

  receive_and_check_lem :
      (code : ℕ) (r : Reader d) (w : d.World)
      → IsByte code
      → r.target_address < 2 ^ 32
      → d.read_bytes 12 default_timeout_ticks r.world
        ≡ (make_frame d r.target_address ackpacket (code ∷ []), w)
      → receive_and_check r ≡ (code, record r { world = w })
  receive_and_check_lem code r w hc ha e =
      let buf = make_frame d r.target_address ackpacket (code ∷ []) in
      let (t, at, size) = make_frame-tail d be r.target_address (code ∷ []) (omega arith) in
      let accepted =
        frame-accepted d be r.target_address 12 (code ∷ []) ha (omega arith)
          (make_frame-IsByte d be r.target_address (code ∷ []) (hc, tt)) (omega arith) in
      let byte : get_or buf 9 0 ≡ code = get_or-drop 9 buf ∙ ap (λ x. get_or x 0 0) at in
      plain_answer r _ buf (package_ok 12 r buf w e accepted)
      ∙ ap (λ x. (x, record r { world = w })) byte

  -- A change of the address is requested under the old address, and a well-formed answer is taken
  -- from the new one, which is the reader's from then on. The access functions of common.hh store
  -- and read big-endian numbers.
  set_address_lem :
      (address code : ℕ) (r : Reader d) (w : d.World)
      → IsByte code
      → address < 2 ^ 32
      → let asked =
          d.write_bytes
            (make_frame d r.target_address commandpacket (0x15 ∷ d.u32_bytes address))
            (d.flush_input r.world) in
        d.read_bytes 12 default_timeout_ticks asked
          ≡ (make_frame d address ackpacket (code ∷ []), w)
        → set_address address r ≡ (code, record { target_address = address; world = w })
  set_address_lem address code r w hc ha e =
      let asked : Reader d = record {
        target_address = address;
        world =
            d.write_bytes (make_frame d r.target_address commandpacket (0x15 ∷ d.u32_bytes address))
              (d.flush_input r.world);
      } in
      set_address_at address r ∙ receive_and_check_lem code asked w hc ha e
