-- ===== src/Scheduler/RequestTests.antt =====
-- Requests to the scheduler at concrete data.
use espidf_component_webmana.Prelude.{◌≡◌, refl, true, some, [], ◌∷◌, ◌++◌, replicate}
use espidf_component_webmana.Prelude.Text.{Bytes, codes, same_text}
use espidf_component_webmana.Esp.{esp_ok}
use espidf_component_webmana.Web.Socket.{Httpd}
use espidf_component_webmana.Scheduler.{always, one_week_in_15_minutes, find_timer}
use espidf_component_webmana.Scheduler.Flash.{SaveRequest, RenameRequest}
use espidf_component_webmana.Scheduler.Requests.{
  State, predefined_timers, begin, fill_nvs_blob, handle_request_save, handle_request_rename,
  handle_request_delete,
}
use espidf_component_webmana.Scheduler.Restart.{begin-handle_request_save}
use espidf_component_webmana.Scheduler.Naming.{handle_request_rename_lem}
use espidf_component_webmana.Scheduler.Restore.{NamesAgree}
use espidf_component_webmana.Scheduler.Memory.{blobs, blobs-KeepsBlobs, codec, codec-RoundTrips}

abbrev httpd : Httpd
httpd = record {
  World = Unit;
  send_frame = λ fd f w. (esp_ok, w);
  trigger_close = λ fd w. w;
  is_websocket = λ fd w. true;
  queue_work = λ w. (esp_ok, w);
}

abbrev state : State httpd blobs
state = record {
  name2timer = (codes "ALWAYS", always) ∷ [];
  world = ([], []);
  link = record {
    http_server = true;
    websocket_file_descriptor = some 3;
    current_ws_username = codes "root";
    current_ws_roles = 1;
    sessions = [];
    queue = [];
    world = tt;
  };
}

-- On at all times.
abbrev week : Bytes
week = replicate 84 255

abbrev save_week : SaveRequest
save_week = record { request_id = 7; payload_data = 4 ∷ codes "week" ++ 2 ∷ week }

begin-handle_request_save_example :
    (find_timer (handle_request_save codec save_week state).1.name2timer (codes "week")
      ≡ some (one_week_in_15_minutes week))
    × (find_timer
          (begin blobs codec
            (blobs-KeepsBlobs.restart (handle_request_save codec save_week state).1.world))
          (codes "week")
        ≡ some (one_week_in_15_minutes week))
    × NamesAgree blobs codec blobs-KeepsBlobs (handle_request_save codec save_week state).1.world
    × NamesAgree blobs codec blobs-KeepsBlobs
        (blobs-KeepsBlobs.restart (handle_request_save codec save_week state).1.world)
unfolding same_text fill_nvs_blob
begin-handle_request_save_example =
    begin-handle_request_save blobs codec blobs-KeepsBlobs save_week
      (record { name = codes "week"; schedule_data = 2 ∷ week }) week state (codes "week")
      codec-RoundTrips (λ n v s e d. cc) refl refl (λ e. cc) (λ e. cc) refl refl

abbrev rename_always : RenameRequest
rename_always = record { request_id = 8; old_name = codes "ALWAYS"; new_name = codes "on" }

handle_request_rename_lem_example :
    find_timer (handle_request_rename codec rename_always state).1.name2timer (codes "on")
    ≡ some always
unfolding same_text find_timer
handle_request_rename_lem_example = handle_request_rename_lem codec rename_always state (codes "on")

-- The list that answers a deletion.
run_delete :
    (handle_request_delete codec
      (record { request_id = 9; name = codes "ALWAYS" })
      state).1.link.queue
    ≡ (9 ∷ 0 ∷ []) ∷ []
unfolding handle_request_delete same_text
run_delete = refl

run_begin :
    find_timer (begin blobs codec ([], [])) (codes "TestEvenOdd")
    ≡ find_timer predefined_timers (codes "TestEvenOdd")
unfolding begin
run_begin = refl
