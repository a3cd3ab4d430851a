-- ===== src/Web/SocketTests.antt =====
-- A web server that records what it sends, and the theorems on the websocket at concrete data.
use espidf_component_webmana.Prelude.{
  ℕ, ◌≡◌, refl, true, some, List, [], ◌∷◌, ◌==◌, if◌then◌else◌, arith,
}
use espidf_component_webmana.Prelude.Text.{Bytes, codes}
use espidf_component_webmana.Esp.{esp_ok, esp_err_invalid_state}
use espidf_component_webmana.Wifi.Requests.{ok, not_for_me}
use espidf_component_webmana.Web.Socket.{
  Frame, Httpd, Link, Plugin, SocketRequest, handle_webmanager_ws, send_raw_async,
  close_active_websocket_before_ap_shutdown,
}
use espidf_component_webmana.Web.Handshake.{Opens, handle_webmanager_ws-Opens}
use espidf_component_webmana.Web.Delivery.{
  run_queue, reconnected, close_active_websocket_before_ap_shutdown_lem,
}

abbrev httpd : Httpd
httpd = record {
  World = List (ℕ × Frame);
  send_frame = λ fd f w. (esp_ok, (fd, f) ∷ w);
  trigger_close = λ fd w. w;
  is_websocket = λ fd w. true;
  queue_work = λ w. (esp_ok, w);
}

-- An administrator's websocket, with an answer that waits.
abbrev link : Link httpd
link = record {
  http_server = true;
  websocket_file_descriptor = some 3;
  current_ws_username = codes "root";
  current_ws_roles = 1;
  sessions = record { token = codes "ab"; username = codes "root"; roles = 1; expiry_us = 9 } ∷ [];
  queue = codes "late" ∷ [];
  world = [];
}

-- A plugin of one namespace.
abbrev plugin_of : ℕ → Plugin httpd
plugin_of n m t frame s =
    if m == n then (ok, record s { queue = frame ∷ s.queue }) else (not_for_me, s)

abbrev hello : SocketRequest
hello = record {
  is_get = true;
  cookie = (esp_ok, codes "session=ab");
  fd = 4;
  head = (esp_ok, true, 0);
  payload = (esp_ok, []);
}

handle_webmanager_ws-Opens_example :
    Opens hello 3 link (handle_webmanager_ws (plugin_of 1) [] hello 3 link)
handle_webmanager_ws-Opens_example =
    handle_webmanager_ws-Opens httpd (plugin_of 1) [] hello 3 link refl (omega arith)
      (omega arith, tt)

abbrev message : Bytes
message = 3 ∷ 0 ∷ 1 ∷ 0 ∷ []

abbrev closed : Link httpd
closed = close_active_websocket_before_ap_shutdown link

-- The answer that waited is not sent to the websocket 5, which is opened afterwards.
close_active_websocket_before_ap_shutdown_lem_example :
    (send_raw_async (codes "new") closed ≡ (esp_err_invalid_state, closed))
    × (run_queue 1 closed ≡ record closed { queue = [] })
    × (run_queue 2 closed ≡ record closed { queue = [] })
    × (run_queue 2 (reconnected 5 (run_queue 1 closed))
        ≡ reconnected 5 (record closed { queue = [] }))
close_active_websocket_before_ap_shutdown_lem_example =
    close_active_websocket_before_ap_shutdown_lem httpd link 1 2 5 (codes "new") refl (omega arith)
