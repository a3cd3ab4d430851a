-- ===== src/Scheduler/Restart.antt =====
-- What a start of the scheduler finds of the timers that were saved.
use espidf_component_webmana.Prelude.{
  ◌≡◌, ◌≢◌, refl, sym, ap, ◌∙◌, inl, inr, true, some, [], if◌then◌else◌, Bool-cases,
}
use espidf_component_webmana.Prelude.Text.{Bytes, same_text, same_text_iff}
use espidf_component_webmana.Esp.{esp_ok, eq_of_some}
use espidf_component_webmana.Web.Socket.{Httpd}
use espidf_component_webmana.Scheduler.{Timer, one_week_in_15_minutes, find_timer}
use espidf_component_webmana.Scheduler.Flash.{
  Blobs, KeepsBlobs, Codec, RoundTrips, one_week, Schedule, SaveRequest,
}
use espidf_component_webmana.Scheduler.Map.{find_timer-set_timer}
use espidf_component_webmana.Scheduler.Requests.{
  State, predefined_timers, build_from_schedule, fill_nvs_blob, begin, handle_request_save,
  save_schedule, forget_timer,
}
use espidf_component_webmana.Scheduler.Restore.{or_else, restored, NamesAgree, begin_lem}
use espidf_component_webmana.Scheduler.Saving.{
  forget_timer_lem, week_restored, save_schedule_lem, handle_request_save_lem,
}

module _ (b : Blobs) (c : Codec) (k : KeepsBlobs b) where
  -- The storage of a week keeps what is stored under the other names.
  NamesAgree-save :
      (name bytes : Bytes) (w w' : b.World)
      → RoundTrips c
      → c.encode_variant (one_week bytes) 128 ≢ []
      → fill_nvs_blob c name (one_week_in_15_minutes bytes) ≢ []
      → NamesAgree b c k w
      → ((j : Bytes)
          → k.blob j w' ≡ (
              if same_text name j
              then some (fill_nvs_blob c name (one_week_in_15_minutes bytes))
              else k.blob j w))
      → NamesAgree b c k w'
  NamesAgree-save name bytes w w' r fits written agree at n v s found decoded =
      elim (Bool-cases (same_text name n)) [
        | inl same ↦
            let (own, its_name, its_decoded, its_built) =
              week_restored c name bytes r fits written in
            let v_is : fill_nvs_blob c name (one_week_in_15_minutes bytes) ≡ v =
              eq_of_some (sym (rw same at (at n)) ∙ found) in
            let s_is : own ≡ s =
              eq_of_some (sym its_decoded ∙ ap (λ u. c.decode_schedule u) v_is ∙ decoded) in
            sym (ap (λ (u : Schedule). u.name) s_is) ∙ its_name ∙ (same_text_iff name n).0 same
        | inr other ↦ agree n v s (sym (rw other at (at n)) ∙ found) decoded
      ]

  -- What a start makes of it.
  restored-save :
      (name bytes : Bytes) (w w' : b.World) (n : Bytes)
      → RoundTrips c
      → c.encode_variant (one_week bytes) 128 ≢ []
      → fill_nvs_blob c name (one_week_in_15_minutes bytes) ≢ []
      → k.blob n w' ≡ (
          if same_text name n
          then some (fill_nvs_blob c name (one_week_in_15_minutes bytes))
          else k.blob n w)
      → or_else (restored b c k n w') (find_timer predefined_timers n) ≡ (
          if same_text name n
          then some (one_week_in_15_minutes bytes)
          else or_else (restored b c k n w) (find_timer predefined_timers n))
  restored-save name bytes w w' n r fits written at = elim (Bool-cases (same_text name n)) [
    | inl same ↦
        let (own, its_name, its_decoded, its_built) = week_restored c name bytes r fits written in
        rw (at, same, its_decoded, its_built) refl
    | inr other ↦ rw (at, other) refl
  ]

module _ {h : Httpd} (b : Blobs) (c : Codec) (k : KeepsBlobs b) where
  -- What is written while a schedule is saved.
  blob-written :
      (schedule : Schedule) (t : Timer) (s : State h b) (n : Bytes)
      → (b.set_blob schedule.name
          (fill_nvs_blob c schedule.name t)
          (forget_timer schedule.name s).world).0
        ≡ esp_ok
      → k.blob n
          (b.set_blob schedule.name
            (fill_nvs_blob c schedule.name t)
            (forget_timer schedule.name s).world).1
        ≡ (if same_text schedule.name n
            then some (fill_nvs_blob c schedule.name t)
            else k.blob n s.world)
  blob-written schedule t s n stored =
      k.blob-set_blob schedule.name (fill_nvs_blob c schedule.name t)
        (forget_timer schedule.name s).world n stored
      ∙ elim (Bool-cases (same_text schedule.name n)) [
        | inl same ↦ rw same refl
        | inr other ↦ rw other (forget_timer_lem b k schedule.name s n other).1
      ]

  -- What is stored after it, at once and after a restart.
  blob-save_schedule :
      (schedule : Schedule) (t : Timer) (s : State h b) (n : Bytes)
      → build_from_schedule c schedule ≡ some t
      → (b.set_blob schedule.name
          (fill_nvs_blob c schedule.name t)
          (forget_timer schedule.name s).world).0
        ≡ esp_ok
      → (b.commit
          (b.set_blob schedule.name
            (fill_nvs_blob c schedule.name t)
            (forget_timer schedule.name s).world).1).0
        ≡ esp_ok
      → (k.blob n (save_schedule c schedule s).world ≡ (
          if same_text schedule.name n
          then some (fill_nvs_blob c schedule.name t)
          else k.blob n s.world))
        × (k.blob n (k.restart (save_schedule c schedule s).world) ≡ (
            if same_text schedule.name n
            then some (fill_nvs_blob c schedule.name t)
            else k.blob n s.world))
  blob-save_schedule schedule t s n built stored committed =
      let w =
        (b.set_blob schedule.name (fill_nvs_blob c schedule.name t)
          (forget_timer schedule.name s).world).1 in
      let written = blob-written schedule t s n stored in
      let after = (save_schedule_lem c schedule t s built).1 in
      (
        ap (λ v. k.blob n v) after ∙ k.blob-commit w n ∙ written,
        ap (λ v. k.blob n (k.restart v)) after ∙ k.blob-restart w n committed ∙ written,
      )

  find_timer-save_schedule :
      (schedule : Schedule) (t : Timer) (s : State h b) (n : Bytes)
      → build_from_schedule c schedule ≡ some t
      → find_timer (save_schedule c schedule s).name2timer n
        ≡ (if same_text schedule.name n then some t else find_timer s.name2timer n)
  find_timer-save_schedule schedule t s n built =
      ap (λ ts. find_timer ts n) (save_schedule_lem c schedule t s built).0
      ∙ find_timer-set_timer schedule.name t (forget_timer schedule.name s).name2timer n
      ∙ elim (Bool-cases (same_text schedule.name n)) [
        | inl same ↦ rw same refl
        | inr other ↦ rw other (forget_timer_lem b k schedule.name s n other).0
      ]

  -- A request to save a week that its codec carries, while each schedule in the flash is stored under
  -- its name, and with a storage that takes the blob and commits it: at once, and after a restart of
  -- the device, of which only what was committed is sure to be left, the name has the week, and every
  -- other name has the timer, or none, that the map and the flash gave it before; and each schedule is
  -- stored under its name, at once and after the restart.
  pub begin-handle_request_save :
      (req : SaveRequest) (schedule : Schedule) (bytes : Bytes) (s : State h b) (n : Bytes)
      → RoundTrips c
      → NamesAgree b c k s.world
      → c.save_elements req.payload_data ≡ (some schedule, true)
      → c.decode_variant schedule.schedule_data ≡ some (one_week bytes)
      → c.encode_variant (one_week bytes) 128 ≢ []
      → fill_nvs_blob c schedule.name (one_week_in_15_minutes bytes) ≢ []
      → (b.set_blob schedule.name
          (fill_nvs_blob c schedule.name (one_week_in_15_minutes bytes))
          (forget_timer schedule.name s).world).0
        ≡ esp_ok
      → (b.commit
          (b.set_blob schedule.name
            (fill_nvs_blob c schedule.name (one_week_in_15_minutes bytes))
            (forget_timer schedule.name s).world).1).0
        ≡ esp_ok
      → (find_timer (handle_request_save c req s).1.name2timer n ≡ (
          if same_text schedule.name n
          then some (one_week_in_15_minutes bytes)
          else find_timer s.name2timer n))
        × (find_timer (begin b c (k.restart (handle_request_save c req s).1.world)) n ≡ (
            if same_text schedule.name n
            then some (one_week_in_15_minutes bytes)
            else find_timer (begin b c s.world) n))
        × NamesAgree b c k (handle_request_save c req s).1.world
        × NamesAgree b c k (k.restart (handle_request_save c req s).1.world)
  unfolding build_from_schedule
  begin-handle_request_save req schedule bytes s n r agree element decoded fits written stored
        committed =
      let t = one_week_in_15_minutes bytes in
      let built : build_from_schedule c schedule ≡ some t = rw decoded refl in
      let after = handle_request_save_lem c req schedule s element in
      let w' = (handle_request_save c req s).1.world in
      let at = λ (j : Bytes).
        ap (λ w. k.blob j w) after.1
        ∙ (blob-save_schedule schedule t s j built stored committed).0 in
      let at' = λ (j : Bytes).
        ap (λ w. k.blob j (k.restart w)) after.1
        ∙ (blob-save_schedule schedule t s j built stored committed).1 in
      let agree' =
        NamesAgree-save b c k schedule.name bytes s.world (k.restart w') r fits written agree at' in
      (
        ap (λ ts. find_timer ts n) after.0 ∙ find_timer-save_schedule schedule t s n built,
        begin_lem b c k (k.restart w') n agree'
            ∙ restored-save b c k schedule.name bytes s.world (k.restart w') n r fits written
                (at' n)
            ∙ ap (λ o. if same_text schedule.name n then some t else o)
                (sym (begin_lem b c k s.world n agree)),
        NamesAgree-save b c k schedule.name bytes s.world w' r fits written agree at,
        agree',
      )
