-- ===== src/Wifi/Tests.antt =====
-- A driver and a storage that meet the assumptions, runs on them, and the theorems at concrete data.
use espidf_component_webmana.Prelude.{
  ℕ, ◌+◌, ◌^◌, ◌<◌, ◌≡◌, ◌≢◌, refl, true, false, Option, none, some, List, [], ◌∷◌, arith, ltb,
  length, if◌then◌else◌, inr, ◌||◌,
}
use espidf_component_webmana.Prelude.Text.{Bytes, codes, same_text, is_empty}
use espidf_component_webmana.Prelude.Word.{add64, lt64}
use espidf_component_webmana.Esp.{esp_ok, esp_err_nvs_not_found}
use espidf_component_webmana.Constants.{ap_started, keep_connection, far_future}
use espidf_component_webmana.Wifi.Device.{
  Device, KeepsMode, KeepsStrings, WifiMode, null_mode, sta_mode, apsta_mode, Key, ssid_key,
  password_key, Credentials, Response, ConnectRequest,
}
use espidf_component_webmana.Wifi.State.{
  Manager, connect_as_sta, open_access_point, is_apsta,
  configure_and_open_access_point_and_set_status,
}
use espidf_component_webmana.Wifi.Config.{create_or_update_sta_config, read_sta_config}
use espidf_component_webmana.Wifi.Events.{
  wifi_event_handler, sta_connected, sta_got_ip, on_sta_disconnected, on_sta_connected, on_ip_event,
  supervise, start_network_state_machine, give_up, supervise_reconnect,
}
use espidf_component_webmana.Wifi.Reach.{wifi, ip, IsWatched, here, next}
use espidf_component_webmana.Wifi.Supervision.{
  NothingDue, access_point, no_access_point, supervise-NothingDue,
}
use espidf_component_webmana.Wifi.Deadline.{
  fallen_back, disconnects, disconnects-deadline, connected_then_lost,
}
use espidf_component_webmana.Wifi.Watch.{Reach-start-IsWatched}
use espidf_component_webmana.Wifi.Storage.{read_sta_config-create_or_update_sta_config}

-- `kept_ssid` and `kept_password` are committed.
record Radio : Type 0 where
  mode : WifiMode
  ssid : Option Bytes
  password : Option Bytes
  kept_ssid : Option Bytes
  kept_password : Option Bytes
  sent : List Response

abbrev reboot : Radio → Radio
reboot w = record w { mode = null_mode; ssid = w.kept_ssid; password = w.kept_password; sent = [] }

abbrev stored : Key → Radio → Option Bytes
stored ssid_key w = w.ssid
stored password_key w = w.password

abbrev store : Key → Option Bytes → Radio → Radio
store ssid_key s w = record w { ssid = s }
store password_key s w = record w { password = s }

abbrev read : ℕ → Option Bytes → ℕ × Bytes
read n none = (esp_err_nvs_not_found, [])
read n (some s) = if ltb (length s) n then (esp_ok, s) else (0x110c, [])

abbrev radio : Device
radio = record {
  World = Radio;
  get_mode = λ w. w.mode;
  set_mode = λ m w. (esp_ok, record w { mode = m });
  set_sta_config = λ c w. (esp_ok, w);
  set_ap_config = λ c w. (esp_ok, w);
  connect = λ w. (esp_ok, w);
  disconnect = λ w. (esp_ok, w);
  start = λ w. (esp_ok, w);
  sta_rssi = λ w. 60;
  nvs_open = λ w. (esp_ok, w);
  nvs_get_str = λ k n w. read n (stored k w);
  nvs_set_str = λ k s w. (esp_ok, store k (some s) w);
  nvs_erase_key = λ k w. (esp_ok, store k none w);
  nvs_commit = λ w. (esp_ok, record w { kept_ssid = w.ssid; kept_password = w.password });
  nvs_close = λ w. w;
  send = λ r w. (esp_ok, record w { sent = r ∷ w.sent });
  close_websocket = λ w. w;
  sntp_init = λ w. w;
  take_semaphore = λ w. true;
  decode_connect =
      λ frame. some (record { request_id = 7; ssid = frame; password = codes "12345678" });
  decode_disconnect = λ frame. some 8;
}

radio-KeepsMode : KeepsMode radio
radio-KeepsMode = record {
  set_mode-mode = λ m w w' e. ground arith;
  set_ap_config-mode = λ c w. refl;
  start-mode = λ w. refl;
  send-mode = λ r w. refl;
}

get-set :
    (k : Key) (n : ℕ) (s : Bytes) (w w' : Radio)
    → length s < n
    → ◌≡◌ {A = ℕ × Radio} (esp_ok, store k (some s) w) (esp_ok, w')
    → read n (stored k w') ≡ (esp_ok, s)
get-set ssid_key n s w w' h e = ground arith
get-set password_key n s w w' h e = ground arith

get-set_ne :
    (k j : Key) (n : ℕ) (s : Bytes) (w : Radio)
    → k ≢ j
    → read n (stored j (store k (some s) w)) ≡ read n (stored j w)
get-set_ne ssid_key ssid_key n s w ne = absurd (ne refl)
get-set_ne ssid_key password_key n s w ne = refl
get-set_ne password_key ssid_key n s w ne = refl
get-set_ne password_key password_key n s w ne = absurd (ne refl)

read-grow :
    (m n : ℕ) (s : Bytes) (o : Option Bytes)
    → length s < m
    → read n o ≡ (esp_ok, s)
    → read m o ≡ (esp_ok, s)
read-grow m n s o h e = ground arith

abbrev committed : Radio → Radio
committed w = record w { kept_ssid = w.ssid; kept_password = w.password }

get-commit : (k : Key) (n : ℕ) (w : Radio) → read n (stored k (committed w)) ≡ read n (stored k w)
get-commit ssid_key n w = refl
get-commit password_key n w = refl

restart-commit :
    (k : Key) (n : ℕ) (w : Radio) → read n (stored k (reboot (committed w))) ≡ read n (stored k w)
restart-commit ssid_key n w = refl
restart-commit password_key n w = refl

abbrev radio-KeepsStrings : KeepsStrings radio
radio-KeepsStrings = record {
  get-open = λ k n w. refl;
  get-set = get-set;
  get-set_ne = get-set_ne;
  get-commit = get-commit;
  get-close = λ k n w. refl;
  get-grow = λ k m n s w. read-grow m n s (stored k w);
  restart = reboot;
  restart-commit = λ k n w e. restart-commit k n w;
  restart-open = λ k n w. refl;
  restart-close = λ k n w. refl;
}

abbrev home : Credentials
home = record { ssid = codes "home"; password = codes "secret42" }

abbrev idle : Radio
idle = record {
  mode = null_mode;
  ssid = none;
  password = none;
  kept_ssid = none;
  kept_password = none;
  sent = [];
}

idle-IsCommitted :
    (k : Key) (n : ℕ)
    → read n (stored k (reboot (record idle { mode = sta_mode })))
      ≡ read n (stored k (record idle { mode = sta_mode }))
idle-IsCommitted ssid_key n = refl
idle-IsCommitted password_key n = refl

-- Just constructed, with the default fallback period.
abbrev fresh : Manager radio
fresh = record {
  sta = record { ssid = []; password = [] };
  ap = record { ssid = codes "esp"; password = codes "password" };
  fallback_to_stored_sta_config = false;
  working_state = ap_started;
  t_timeout_us = far_future;
  t_shutdown_ap_us = far_future;
  t_reconnect_us = far_future;
  sta_connection_state = false;
  ap_fallback_timeout_us = far_future;
  give_up_at_us = far_future;
  last_wifi_connect_request_id = 0;
  reset_stored_wifi_connection_on_start = false;
  world = idle;
}

-- Connected to `home`, with a fallback period of a minute.
abbrev at_home : Manager radio
at_home = record fresh {
  sta = home;
  working_state = keep_connection;
  sta_connection_state = true;
  ap_fallback_timeout_us = 60_000_000;
  world = record {
    mode = sta_mode;
    ssid = some home.ssid;
    password = some home.password;
    kept_ssid = some home.ssid;
    kept_password = some home.password;
    sent = [];
  };
}

run_start :
    start_network_state_machine 5 fresh
    ≡ some (record fresh { world = record idle { mode = apsta_mode } })
unfolding start_network_state_machine read_sta_config configure_and_open_access_point_and_set_status
    open_access_point is_apsta is_empty
run_start = refl

abbrev overdue : Manager radio
overdue = record fresh { working_state = keep_connection; t_timeout_us = 30_000_000 }

supervise-NothingDue_example :
    (record idle { mode = apsta_mode } ≡ (
      if lt64 overdue.t_reconnect_us 40_000_000
      then overdue.world
      else if lt64 overdue.t_shutdown_ap_us 40_000_000
      then no_access_point radio overdue.world
      else if lt64 overdue.t_timeout_us 40_000_000
      then access_point radio overdue.ap overdue.world
      else overdue.world))
    × (ap_started ≡ (
        if lt64 overdue.t_reconnect_us 40_000_000 || lt64 overdue.t_shutdown_ap_us 40_000_000
        then keep_connection
        else if lt64 overdue.t_timeout_us 40_000_000
        then ap_started
        else overdue.working_state))
    × NothingDue 40_000_000 (record fresh { world = record idle { mode = apsta_mode } })
unfolding supervise supervise_reconnect connect_as_sta
    configure_and_open_access_point_and_set_status lt64 open_access_point is_apsta
supervise-NothingDue_example =
    supervise-NothingDue 40_000_000 overdue
      (record fresh { world = record idle { mode = apsta_mode } }) (omega arith) refl

disconnects-deadline_example :
    disconnects (100 ∷ 60_000_000 ∷ []) at_home
    ≡ some (record at_home {
      sta_connection_state = false;
      give_up_at_us = 60_000_100;
      t_timeout_us = 90_000_000;
      t_reconnect_us = 68_000_000;
    })
unfolding add64
disconnects-deadline_example =
    disconnects-deadline 100 (60_000_000 ∷ []) at_home refl (omega arith) (omega arith)

abbrev late : Manager radio
late = record at_home { give_up_at_us = 60_000_100 }

abbrev given_up : Manager radio
given_up = record late {
  sta_connection_state = false;
  working_state = ap_started;
  world = record late.world {
    mode = apsta_mode;
    sent = Response.wifi_connect 0 false [] (record { ip = 0; netmask = 0; gateway = 0 }) 0 ∷ [];
  };
}

abbrev impatient : Manager radio
impatient = record given_up { give_up_at_us = 2 ^ 63 + 99; ap_fallback_timeout_us = far_future }

connected_then_lost_example :
    (impatient.working_state ≡ ap_started)
    × (impatient.t_reconnect_us ≡ far_future)
    × (impatient.world ≡ fallen_back at_home)
unfolding on_sta_disconnected on_sta_connected give_up
    configure_and_open_access_point_and_set_status open_access_point is_apsta lt64 add64
    read_sta_config create_or_update_sta_config is_empty same_text
connected_then_lost_example =
    connected_then_lost 50 100 (record at_home { ap_fallback_timeout_us = far_future }) impatient
      refl (omega arith) (omega arith) refl refl

abbrev joined : Manager radio
joined = record at_home {
  sta = record { ssid = codes "ab"; password = codes "12345678" };
  last_wifi_connect_request_id = 7;
  t_timeout_us = 30_000_100;
  give_up_at_us = 60_000_100;
}

abbrev to_ab : ConnectRequest
to_ab = record { request_id = 7; ssid = codes "ab"; password = codes "12345678" }

abbrev started : Manager radio
started = record fresh { world = record idle { mode = apsta_mode } }

Reach-start-IsWatched_example : IsWatched (
    on_ip_event
      (sta_got_ip (record { ip = 1; netmask = 2; gateway = 3 }))
      9
      (on_sta_connected 7 started))
unfolding wifi_event_handler on_sta_connected
Reach-start-IsWatched_example =
    Reach-start-IsWatched radio-KeepsMode 5 fresh started (omega arith) run_start (
      next (ip (sta_got_ip (record { ip = 1; netmask = 2; gateway = 3 })) 9)
        (next (wifi sta_connected 7) here (omega arith) refl) (omega arith, refl) refl)

read_sta_config-create_or_update_sta_config_example :
    ((read_sta_config radio fresh.sta (reboot at_home.world)).0 ≡ esp_ok)
    × ((read_sta_config radio fresh.sta (reboot at_home.world)).1 ≡ home)
unfolding create_or_update_sta_config
read_sta_config-create_or_update_sta_config_example =
    read_sta_config-create_or_update_sta_config radio radio-KeepsStrings home fresh.sta
      (record idle { mode = sta_mode }) at_home.world (λ e. cc) (omega arith) (omega arith)
      idle-IsCommitted (inr refl) (inr refl) refl refl
