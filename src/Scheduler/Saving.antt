-- ===== src/Scheduler/Saving.antt =====
-- What one request to save a schedule does to the map of timers and to the flash.
use espidf_component_webmana.Prelude.{
  ℕ, ◌≡◌, ◌≢◌, refl, ap, ◌∙◌, true, false, Option, some, [], arith,
}
use espidf_component_webmana.Prelude.Text.{Bytes, same_text}
use espidf_component_webmana.Web.Socket.{Httpd}
use espidf_component_webmana.Scheduler.{Timer, one_week_in_15_minutes, find_timer}
use espidf_component_webmana.Scheduler.Flash.{
  Blobs, KeepsBlobs, Codec, RoundTrips, one_week, Schedule, SaveRequest,
}
use espidf_component_webmana.Scheduler.Map.{set_timer, find_timer-erase_timer}
use espidf_component_webmana.Scheduler.Requests.{
  State, build_from_schedule, fill_nvs_blob, encode_schedule_variant, answer, handle_request_list,
  handle_request_save, save_schedule, forget_timer, put_timer, save_element,
}

module _ {h : Httpd} {b : Blobs} (c : Codec) where
  pub list_lem :
      (id : ℕ) (s : State h b)
      → ((handle_request_list c id s).1.name2timer ≡ s.name2timer)
        × ((handle_request_list c id s).1.world ≡ s.world)
  unfolding handle_request_list answer
  list_lem id s = ground arith

module _ {h : Httpd} (b : Blobs) (k : KeepsBlobs b) where
  pub forget_timer_lem :
      (name : Bytes) (s : State h b) (n : Bytes)
      → same_text name n ≡ false
      → (find_timer (forget_timer name s).name2timer n ≡ find_timer s.name2timer n)
        × (k.blob n (forget_timer name s).world ≡ k.blob n s.world)
  unfolding forget_timer
  forget_timer_lem name s n other =
      ground
        (arith, find_timer-erase_timer name s.name2timer n, k.blob-erase_key name s.world n other)

module _ (c : Codec) where
  -- The blob of a week under its name.
  pub week_restored :
      (name bytes : Bytes)
      → RoundTrips c
      → c.encode_variant (one_week bytes) 128 ≢ []
      → fill_nvs_blob c name (one_week_in_15_minutes bytes) ≢ []
      → (s : Schedule) × (s.name ≡ name)
        × (c.decode_schedule (fill_nvs_blob c name (one_week_in_15_minutes bytes)) ≡ some s)
        × (build_from_schedule c s ≡ some (one_week_in_15_minutes bytes))
  unfolding fill_nvs_blob encode_schedule_variant build_from_schedule
  week_restored name bytes r fits written =
      let variant = c.encode_variant (one_week bytes) 128 in
      (
        record { name = name; schedule_data = variant },
        refl,
        r.decode_schedule-encode_schedule (record { name = name; schedule_data = variant }) 128
            written,
        rw (r.decode_variant-encode_variant (one_week bytes) 128 fits) refl,
      )

module _ {h : Httpd} {b : Blobs} (c : Codec) where
  pub save_schedule_lem :
      (schedule : Schedule) (t : Timer) (s : State h b)
      → build_from_schedule c schedule ≡ some t
      → ((save_schedule c schedule s).name2timer
          ≡ set_timer schedule.name t (forget_timer schedule.name s).name2timer)
        × ((save_schedule c schedule s).world
            ≡ (b.commit
                (b.set_blob schedule.name
                  (fill_nvs_blob c schedule.name t)
                  (forget_timer schedule.name s).world).1).1)
  unfolding save_schedule put_timer
  save_schedule_lem schedule t s e =
      let put = λ (o : Option Timer). put_timer c schedule.name o (forget_timer schedule.name s) in
      (ap (λ o. (put o).name2timer) e, ap (λ o. (put o).world) e)

  pub handle_request_save_lem :
      (req : SaveRequest) (schedule : Schedule) (s : State h b)
      → c.save_elements req.payload_data ≡ (some schedule, true)
      → ((handle_request_save c req s).1.name2timer ≡ (save_schedule c schedule s).name2timer)
        × ((handle_request_save c req s).1.world ≡ (save_schedule c schedule s).world)
  unfolding handle_request_save save_element
  handle_request_save_lem req schedule s e =
      let after = list_lem c req.request_id (save_schedule c schedule s) in
      (
        ap (λ x. (save_element c req.request_id x s).1.name2timer) e ∙ after.0,
        ap (λ x. (save_element c req.request_id x s).1.world) e ∙ after.1,
      )
