-- ===== src/Scheduler/Requests.antt =====
-- cpp/scheduler.hh: the start of the scheduler and its requests. A timer's own name is the key that it
-- has in the map, so a timer has no name here.
use espidf_component_webmana.Prelude.{
  ℕ, ◌+◌, Bool, true, false, not, Option, none, some, List, [], ◌∷◌, ◌++◌, ltb, ◌==◌, if◌then◌else◌,
  length,
}
use espidf_component_webmana.Prelude.Text.{Bytes, codes}
use espidf_component_webmana.Esp.{◌>>=◌, esp_ok}
use espidf_component_webmana.Wifi.Requests.{Receipt, ok, not_for_me, for_me_but_failed}
use espidf_component_webmana.Web.Socket.{Httpd, Link, send_raw_async}
use espidf_component_webmana.Scheduler.{
  Timer, Timers, always, never, daily_6_22, working_days_7_18, test_even_minutes_on_odd_minutes_off,
  one_week_in_15_minutes, sun_random, find_timer,
}
use espidf_component_webmana.Scheduler.Flash.{
  Blobs, Codec, Variant, predefined, one_week, sun, ScheduleType, predefined_type, one_week_type,
  sun_random_type, Schedule, NameRequest, RenameRequest, SaveRequest, is_some,
}
use espidf_component_webmana.Scheduler.Map.{set_timer, erase_timer}

-- `link` is what the callback sends through.
pub record State (h : Httpd) (b : Blobs) : Type 0 where
  pub name2timer : Timers
  pub world : b.World
  pub link : Link h

abbrev pub get_schedule_type : Timer → ScheduleType
get_schedule_type (one_week_in_15_minutes bytes) = one_week_type
get_schedule_type (sun_random offset_hours random_hours todays_start todays_end) = sun_random_type
get_schedule_type timer = predefined_type

-- push_back of each key to `names`
unfoldable pub fill_available_schedule_names : List Bytes → Timers → List Bytes
fill_available_schedule_names names [] = names
fill_available_schedule_names names ((key, timer) ∷ timers) =
    fill_available_schedule_names (names ++ (key ∷ [])) timers

-- The timers that Begin puts into the map first, under the names that they have after a start.
unfoldable pub predefined_timers : Timers
unfolding set_timer
predefined_timers = set_timer (codes "TestEvenOdd") test_even_minutes_on_odd_minutes_off (
    set_timer (codes "WORKING_DAYS_7_18") working_days_7_18 (
      set_timer (codes "DAILY_6_22") daily_6_22
        (set_timer (codes "NEVER") never (set_timer (codes "ALWAYS") always []))))

module _ (c : Codec) where
  abbrev pub build_from_variant : Variant → Option Timer
  build_from_variant predefined = none
  build_from_variant (one_week bytes) = some (one_week_in_15_minutes bytes)
  build_from_variant (sun offset_minutes random_minutes) =
      some (sun_random (c.hours_of_minutes offset_minutes) (c.hours_of_minutes random_minutes) 0 0)

  -- Builder::BuildFromSchedule
  unfoldable pub build_from_schedule : Schedule → Option Timer
  build_from_schedule schedule = c.decode_variant schedule.schedule_data >>= build_from_variant

  abbrev pub variant_of : Timer → Variant
  variant_of (one_week_in_15_minutes bytes) = one_week bytes
  variant_of (sun_random offset_hours random_hours todays_start todays_end) =
      sun (c.minutes_of_hours offset_hours) (c.minutes_of_hours random_hours)
  variant_of timer = predefined

  -- EncodeScheduleVariant into a buffer of 128 bytes.
  unfoldable pub encode_schedule_variant : Timer → Bytes
  encode_schedule_variant timer = c.encode_variant (variant_of timer) 128

  unfoldable pub fill_nvs_blob : (name : Bytes) → Timer → Bytes
  unfolding encode_schedule_variant
  fill_nvs_blob name timer =
      c.encode_schedule (record { name = name; schedule_data = encode_schedule_variant timer }) 128

  -- The items that fit into the buffer, and their number.
  unfoldable pub list_items : Timers → (items : Bytes) (items_count : ℕ) → Bytes × ℕ
  list_items [] items items_count = (items, items_count)
  list_items ((key, timer) ∷ timers) items items_count =
      elim (c.append_item key (get_schedule_type timer) items 2560) [
        | none ↦ list_items timers items items_count
        | some items' ↦ list_items timers items' (items_count + 1)
      ]

module _ (b : Blobs) (c : Codec) where
  -- One blob of the loop in Begin.
  unfoldable pub restore : (key : Bytes) → b.World → Timers → Timers
  unfolding build_from_schedule set_timer
  restore key w name2timer = elim (c.decode_schedule (b.get_blob key w)) [
    | none ↦ name2timer
    | some schedule ↦ elim (build_from_schedule c schedule) [
      | none ↦ name2timer
      | some timer ↦ set_timer schedule.name timer name2timer
    ]
  ]

  unfoldable pub restore_all : List Bytes → b.World → Timers → Timers
  unfolding restore
  restore_all [] w name2timer = name2timer
  restore_all (key ∷ keys) w name2timer = restore_all keys w (restore key w name2timer)

  -- Begin: the map that it builds.
  unfoldable pub begin : b.World → Timers
  unfolding restore_all predefined_timers
  begin w = restore_all (b.keys w) w predefined_timers

module _ {h : Httpd} {b : Blobs} where
  -- An answer that was encoded, and its receipt.
  unfoldable pub answer : Bytes → State h b → Receipt × State h b
  unfolding send_raw_async
  answer buf s =
      let (ret, link) = send_raw_async buf s.link in
      if not (ltb 0 (length buf))
      then (for_me_but_failed, s)
      else (if ret == esp_ok then ok else for_me_but_failed, record s { link = link })

  -- handleRequestSave first drops the timer that has the name.
  unfoldable pub forget_timer : (name : Bytes) → State h b → State h b
  unfolding find_timer erase_timer
  forget_timer name s =
      if is_some (find_timer s.name2timer name)
      then record s {
        name2timer = erase_timer name s.name2timer;
        world = (b.erase_key name s.world).1;
      }
      else s

module _ {h : Httpd} {b : Blobs} (c : Codec) where
  unfoldable pub handle_request_open : NameRequest → State h b → Receipt × State h b
  unfolding find_timer encode_schedule_variant answer
  handle_request_open req s = elim (find_timer s.name2timer req.name) [
    | none ↦ (for_me_but_failed, s)
    | some timer ↦
        let schedule : Schedule = record {
          name = req.name;
          schedule_data = encode_schedule_variant c timer;
        } in
        answer (c.encode_open req.request_id (c.schedule_element schedule 160) 256) s
  ]

  unfoldable pub handle_request_list : (request_id : ℕ) → State h b → Receipt × State h b
  unfolding list_items answer
  handle_request_list request_id s =
      let (items, items_count) = list_items c s.name2timer [] 0 in
      answer (c.encode_list request_id items_count items 4096) s

  -- handleRequestDelete of a name that the map contains or not.
  unfoldable pub delete_timer : (known : Bool) → NameRequest → State h b → Receipt × State h b
  unfolding erase_timer handle_request_list
  delete_timer false req s = (for_me_but_failed, s)
  delete_timer true req s = handle_request_list req.request_id (record s {
    name2timer = erase_timer req.name s.name2timer;
    world = (b.commit (b.erase_key req.name s.world).1).1;
  })

  unfoldable pub handle_request_delete : NameRequest → State h b → Receipt × State h b
  unfolding find_timer delete_timer
  handle_request_delete req s = delete_timer (is_some (find_timer s.name2timer req.name)) req s

  -- The timer of the old name under its new one.
  unfoldable pub rename_timer : RenameRequest → Timer → State h b → State h b
  unfolding fill_nvs_blob set_timer erase_timer
  rename_timer req timer s =
      let blob = fill_nvs_blob c req.new_name timer in
      record s {
        name2timer = set_timer req.new_name timer (erase_timer req.old_name s.name2timer);
        world = (b.commit (b.set_blob req.new_name blob (b.erase_key req.old_name s.world).1).1).1;
      }

  -- With the timer of the old name, and whether the map contains the new one.
  unfoldable pub rename_found :
      Option Timer → (taken : Bool) → RenameRequest → State h b → Receipt × State h b
  unfolding rename_timer handle_request_list
  rename_found none taken req s = (for_me_but_failed, s)
  rename_found (some timer) true req s = (for_me_but_failed, s)
  rename_found (some timer) false req s =
      handle_request_list req.request_id (rename_timer req timer s)

  unfoldable pub handle_request_rename : RenameRequest → State h b → Receipt × State h b
  unfolding find_timer rename_found
  handle_request_rename req s =
      rename_found (find_timer s.name2timer req.old_name)
        (is_some (find_timer s.name2timer req.new_name)) req s

  -- The timer that was built for a schedule, if one was.
  unfoldable pub put_timer : (name : Bytes) → Option Timer → State h b → State h b
  unfolding set_timer fill_nvs_blob
  put_timer name none s = s
  put_timer name (some timer) s = record s {
    name2timer = set_timer name timer s.name2timer;
    world = (b.commit (b.set_blob name (fill_nvs_blob c name timer) s.world).1).1;
  }

  -- The callback of handleRequestSave.
  unfoldable pub save_schedule : Schedule → State h b → State h b
  unfolding forget_timer build_from_schedule put_timer
  save_schedule schedule s =
      put_timer schedule.name (build_from_schedule c schedule) (forget_timer schedule.name s)

  -- With what DecodeRequestSchedulerSavePayloadElements has found.
  unfoldable pub save_element :
      (request_id : ℕ) → Option Schedule × Bool → State h b → Receipt × State h b
  unfolding save_schedule handle_request_list
  save_element request_id (none, decoded) s =
      if not decoded then (for_me_but_failed, s) else handle_request_list request_id s
  save_element request_id (some schedule, decoded) s =
      let s' = save_schedule schedule s in
      if not decoded then (for_me_but_failed, s') else handle_request_list request_id s'

  unfoldable pub handle_request_save : SaveRequest → State h b → Receipt × State h b
  unfolding save_element
  handle_request_save req s = save_element req.request_id (c.save_elements req.payload_data) s

  -- A request that decodes, or FOR_ME_BUT_FAILED.
  abbrev on_decoded :
      {A : Type 0}
      → Option A
      → (A → State h b → Receipt × State h b)
      → State h b
      → Receipt × State h b
  on_decoded none handle s = (for_me_but_failed, s)
  on_decoded (some req) handle s = handle req s

  unfoldable pub provide_websocket_message :
      (the_namespace message_type_id : ℕ) → Bytes → State h b → Receipt × State h b
  unfolding handle_request_list handle_request_delete handle_request_rename handle_request_save
      handle_request_open
  provide_websocket_message the_namespace message_type_id frame s =
      if not (the_namespace == c.namespace_id)
      then (not_for_me, s)
      else if message_type_id == c.list_id
      then on_decoded (c.decode_list frame) handle_request_list s
      else if message_type_id == c.delete_id
      then on_decoded (c.decode_delete frame) handle_request_delete s
      else if message_type_id == c.rename_id
      then on_decoded (c.decode_rename frame) handle_request_rename s
      else if message_type_id == c.save_id
      then on_decoded (c.decode_save frame) handle_request_save s
      else if message_type_id == c.open_id
      then on_decoded (c.decode_open frame) handle_request_open s
      else (for_me_but_failed, s)
