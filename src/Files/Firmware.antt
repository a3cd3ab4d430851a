-- ===== src/Files/Firmware.antt =====
-- Only a whole and valid image is started.
use espidf_component_webmana.Prelude.{
  ℕ, zero, suc, ◌-◌, ◌^◌, ◌≤◌, ◌<◌, min, ◌≡◌, refl, sym, ap, ◌∙◌, inl, inr, true, false, some, ◌++◌,
  ◌==◌, ==_iff, length, take, arith, Bool-cases, ◌≢◌, ◌⊎◌, length-drop,
}
use espidf_component_webmana.Prelude.Text.{Bytes}
use espidf_component_webmana.Prelude.Word.{sub32}
use espidf_component_webmana.Esp.{esp_ok, bind-eq-some, eq_of_some}
use espidf_component_webmana.Files.Disk.{Connection}
use espidf_component_webmana.Files.{Reception, complete, receive_failed, write_failed}
use espidf_component_webmana.Files.Upload.{append_assoc, append_nil, pieces, sub32_exact}
use espidf_component_webmana.Files.Update.{
  Updater, KeepsImage, Arrives, Outcome, aborted, refused, restarted, is_not_positive, ota_loop,
  activate, handle_ota_post,
}

positive_lem : (n : ℕ) → is_not_positive n ≡ false → (0 < n) × (n < 2 ^ 31)
unfolding is_not_positive
positive_lem n e = ground arith

outcome_cases : (o : Outcome) → (o ≡ restarted) ⊎ (o ≢ restarted)
outcome_cases restarted = inl refl
outcome_cases aborted = inr (λ e. cc)
outcome_cases refused = inr (λ e. cc)

module _ (u : Updater) (k : Connection) (i : KeepsImage u) (v : Arrives k) where
  ota_loop_complete :
      (fuel remaining : ℕ) (w w' : u.World) (peer : k.Peer)
      → remaining < 2 ^ 32
      → ota_loop u k fuel remaining w peer ≡ some (complete, w')
      → (remaining ≤ length (v.pending peer))
        × (i.image w' ≡ i.image w ++ take remaining (v.pending peer))
  unfolding ota_loop
  ota_loop_complete zero zero w w' peer b e = (
    omega arith,
    ap (λ (x : Reception × u.World). i.image x.1) (sym (eq_of_some e))
        ∙ sym (append_nil (i.image w)),
  )
  ota_loop_complete (suc fuel) zero w w' peer b e = (
    omega arith,
    ap (λ (x : Reception × u.World). i.image x.1) (sym (eq_of_some e))
        ∙ sym (append_nil (i.image w)),
  )
  ota_loop_complete zero (suc r) w w' peer b e =
      let more : (suc r == 0) ≡ false = ground arith in cc (rw more at e)
  ota_loop_complete (suc fuel) (suc r) w w' peer b e =
      let size = min (suc r) 1024 in
      let n = (k.recv size peer).0 in
      let buf = (k.recv size peer).1 in
      let more : (suc r == 0) ≡ false = ground arith in
      elim (Bool-cases (is_not_positive n)) [
        | inl failed ↦ cc (rw (more, failed) at e)
        | inr positive ↦ elim (Bool-cases ((u.write buf w).0 == esp_ok)) [
          | inr broken ↦ cc (rw (more, positive, broken) at e)
          | inl written ↦
              let (lower, upper) = positive_lem n positive in
              let bounded = v.recv_bounded size peer lower upper in
              let (arrived, later) = v.recv-pending size peer lower upper in
              let left : sub32 (suc r) n ≡ suc r - n = sub32_exact (suc r) n (omega arith) b in
              let (there, whole) =
                ota_loop_complete fuel (sub32 (suc r) n) (u.write buf w).1 w' (k.recv size peer).2
                  (omega (arith, left)) (rw (more, positive, written) at e) in
              (
                omega (
                  arith,
                  left,
                  there,
                  bounded.1,
                  length-drop n (v.pending peer),
                  ap (λ (q : Bytes). length q) later,
                ),
                whole
                    ∙ ap (λ q. q ++ take (sub32 (suc r) n) (v.pending (k.recv size peer).2))
                        (i.image-write buf w ((==_iff (u.write buf w).0 esp_ok).0 written)
                          ∙ ap (λ q. i.image w ++ q) arrived)
                    ∙ append_assoc (i.image w) (take n (v.pending peer))
                        (take (sub32 (suc r) n) (v.pending (k.recv size peer).2))
                    ∙ ap (λ q. i.image w ++ q)
                        (pieces n (suc r) (v.pending peer) (v.pending (k.recv size peer).2)
                          (sub32 (suc r) n) (omega (arith, bounded.0)) left later),
              )
        ]
      ]

  -- Each turn ends the loop, or takes at least one byte off.
  ota_loop_total :
      (fuel remaining : ℕ) (w : u.World) (peer : k.Peer)
      → remaining ≤ fuel
      → remaining < 2 ^ 32
      → (x : Reception × u.World) × (ota_loop u k fuel remaining w peer ≡ some x)
  unfolding ota_loop
  ota_loop_total zero zero w peer h b = ((complete, w), refl)
  ota_loop_total (suc fuel) zero w peer h b = ((complete, w), refl)
  ota_loop_total zero (suc r) w peer h b = absurd (omega arith)
  ota_loop_total (suc fuel) (suc r) w peer h b =
      let size = min (suc r) 1024 in
      let n = (k.recv size peer).0 in
      let buf = (k.recv size peer).1 in
      let more : (suc r == 0) ≡ false = ground arith in
      elim (Bool-cases (is_not_positive n)) [
        | inl failed ↦ ((receive_failed, w), rw (more, failed) refl)
        | inr positive ↦ elim (Bool-cases ((u.write buf w).0 == esp_ok)) [
          | inr broken ↦ ((write_failed, (u.write buf w).1), rw (more, positive, broken) refl)
          | inl written ↦
              let (lower, upper) = positive_lem n positive in
              let bounded = v.recv_bounded size peer lower upper in
              let left : sub32 (suc r) n ≡ suc r - n = sub32_exact (suc r) n (omega arith) b in
              let (x, ends) =
                ota_loop_total fuel (sub32 (suc r) n) (u.write buf w).1 (k.recv size peer).2
                  (omega (arith, left)) (omega (arith, left)) in
              (x, rw (more, positive, written) ends)
        ]
      ]

  activate_restarted :
      (x : Reception × u.World) (w' : u.World)
      → activate u x ≡ (restarted, w')
      → (x ≡ (complete, x.1)) × (i.image w' ≡ i.image x.1) × (i.is_valid (i.image x.1) ≡ true)
  unfolding activate
  activate_restarted (receive_failed, w) w' e = cc
  activate_restarted (write_failed, w) w' e = cc
  activate_restarted (complete, w) w' e = elim (Bool-cases ((u.end_update w).0 == esp_ok)) [
    | inr invalid ↦ cc (rw invalid at e)
    | inl ended ↦ elim (Bool-cases ((u.set_boot_partition (u.end_update w).1).0 == esp_ok)) [
      | inr unset ↦ cc (rw (ended, unset) at e)
      | inl set ↦ (
        refl,
        ap (λ (y : Outcome × u.World). i.image y.1) (sym (rw (ended, set) at e))
            ∙ i.image-set_boot_partition (u.end_update w).1
            ∙ i.image-end_update w,
        i.end_update_valid w ((==_iff (u.end_update w).0 esp_ok).0 ended),
      )
    ]
  ]

  -- If an upload ends in a restart, then the whole body has arrived, the new image is the
  -- body, and it is valid.
  handle_ota_post_restarted :
      (fuel content_len : ℕ) (w w' : u.World) (peer : k.Peer)
      → content_len < 2 ^ 32
      → handle_ota_post u k fuel content_len w peer ≡ some (restarted, w')
      → (content_len ≤ length (v.pending peer))
        × (i.image w' ≡ take content_len (v.pending peer))
        × (i.is_valid (i.image w') ≡ true)
  unfolding handle_ota_post
  handle_ota_post_restarted fuel content_len w w' peer b e =
      elim (Bool-cases ((u.begin w).0 == esp_ok)) [
        | inr broken ↦ cc (rw broken at e)
        | inl begun ↦
            let (x, looped, activated) =
              bind-eq-some (ota_loop u k fuel content_len (u.begin w).1 peer)
                (λ x. some (activate u x)) (rw begun at e) in
            let (is_complete, same, valid) = activate_restarted x w' (eq_of_some activated) in
            let (there, whole) =
              ota_loop_complete fuel content_len (u.begin w).1 x.1 peer b
                (looped ∙ ap some is_complete) in
            (
              there,
              same
                  ∙ whole
                  ∙ ap (λ q. q ++ take content_len (v.pending peer))
                      (i.image-begin w ((==_iff (u.begin w).0 esp_ok).0 begun)),
              ap (λ q. i.is_valid q) same ∙ valid,
            )
      ]

  handle_ota_post_total :
      (fuel content_len : ℕ) (w : u.World) (peer : k.Peer)
      → content_len ≤ fuel
      → content_len < 2 ^ 32
      → (x : Outcome × u.World) × (handle_ota_post u k fuel content_len w peer ≡ some x)
  unfolding handle_ota_post
  handle_ota_post_total fuel content_len w peer h b = elim (Bool-cases ((u.begin w).0 == esp_ok)) [
    | inr broken ↦ ((aborted, (u.begin w).1), rw broken refl)
    | inl begun ↦
        let (x, ends) = ota_loop_total fuel content_len (u.begin w).1 peer h b in
        (activate u x, rw (begun, ends) refl)
  ]

  -- An upload of firmware ends, with fuel for each byte, whatever the connection and the flash do on
  -- the way; and unless it does not restart the device, the whole body has arrived, the new image is
  -- the body, byte for byte, and it is valid.
  pub handle_ota_post_lem :
      (fuel content_len : ℕ) (w : u.World) (peer : k.Peer)
      → content_len ≤ fuel
      → content_len < 2 ^ 32
      → (x : Outcome × u.World) × (handle_ota_post u k fuel content_len w peer ≡ some x)
        × ((x.0 ≢ restarted)
            ⊎ ((content_len ≤ length (v.pending peer))
                × (i.image x.1 ≡ take content_len (v.pending peer))
                × (i.is_valid (i.image x.1) ≡ true)))
  handle_ota_post_lem fuel content_len w peer h b =
      let (x, ends) = handle_ota_post_total fuel content_len w peer h b in
      (
        x,
        ends,
        elim (outcome_cases x.0) [
          | inl is_restarted ↦ inr (
              handle_ota_post_restarted fuel content_len w x.1 peer b
                (ends ∙ ap (λ o. some (o, x.1)) is_restarted))
          | inr other ↦ inl other
        ],
      )
