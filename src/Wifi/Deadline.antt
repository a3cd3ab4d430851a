-- ===== src/Wifi/Deadline.antt =====
-- When the station gives up, and what it falls back to (`WIFI_EVENT_STA_DISCONNECTED`).
use espidf_component_webmana.Prelude.{
  ℕ, ◌+◌, ◌≤◌, ◌<◌, ◌≡◌, refl, true, false, Option, some, List, [], ◌∷◌, All, arith, if◌then◌else◌,
}
use espidf_component_webmana.Prelude.Word.{add64, lt64}
use espidf_component_webmana.Esp.{◌>>=◌, esp_ok}
use espidf_component_webmana.Constants.{
  ap_started, keep_connection, far_future, common_timeout_us, reconnect_timeout_us,
}
use espidf_component_webmana.Wifi.Device.{Device, apsta_mode, wifi_connect}
use espidf_component_webmana.Wifi.State.{
  Manager, is_apsta, open_access_point, configure_and_open_access_point_and_set_status,
  send_wifi_connection_not_successful_message,
}
use espidf_component_webmana.Wifi.Config.{read_sta_config}
use espidf_component_webmana.Wifi.Events.{
  give_up, fallback_test, on_sta_disconnected, on_sta_connected,
}

-- The time of the last event.
abbrev pub last_time : ℕ → List ℕ → ℕ
last_time t [] = t
last_time t (u ∷ us) = last_time u us

module _ {d : Device} where
  pub give_up-ap_started :
      (now : ℕ) (m m' : Manager d)
      → m.fallback_to_stored_sta_config ≡ false
      → give_up now m ≡ some m'
      → (m'.working_state ≡ ap_started)
        × (m'.t_timeout_us ≡ far_future)
        × (m'.give_up_at_us ≡ m.give_up_at_us)
  unfolding give_up configure_and_open_access_point_and_set_status
  give_up-ap_started now m m' f e = ground arith

  -- The state after a lost connection that is to be retried until `deadline`.
  abbrev retried : (now deadline : ℕ) → Manager d → Manager d
  retried now deadline m = record m {
    sta_connection_state = false;
    give_up_at_us = deadline;
    working_state = keep_connection;
    t_timeout_us = add64 now common_timeout_us;
    t_shutdown_ap_us = far_future;
    t_reconnect_us = add64 now reconnect_timeout_us;
  }

  first_disconnect :
      (now : ℕ) (m : Manager d)
      → m.give_up_at_us ≡ far_future
      → now + m.ap_fallback_timeout_us < far_future
      → on_sta_disconnected now m ≡ some (retried now (now + m.ap_fallback_timeout_us) m)
  unfolding on_sta_disconnected lt64 add64
  first_disconnect now m g h = ground arith

  later_disconnect :
      (now : ℕ) (m : Manager d)
      → m.give_up_at_us < far_future
      → now ≤ m.give_up_at_us
      → on_sta_disconnected now m ≡ some (retried now m.give_up_at_us m)
  unfolding on_sta_disconnected lt64
  later_disconnect now m g h = ground arith

  -- The handler run at each of the times.
  abbrev pub disconnects : List ℕ → Manager d → Option (Manager d)
  disconnects [] m = some m
  disconnects (t ∷ ts) m = on_sta_disconnected t m >>= disconnects ts

  retries :
      (deadline t : ℕ) (ts : List ℕ) (m : Manager d)
      → deadline < far_future
      → All (λ u. u ≤ deadline) ts
      → disconnects ts (retried t deadline m) ≡ some (retried (last_time t ts) deadline m)
  retries deadline t [] m h a = refl
  retries deadline t (u ∷ us) m h a =
      rw (later_disconnect u (retried t deadline m) h a.0) (retries deadline u us m h a.1)

  -- With a fallback period that ends before FAR_FUTURE and no deadline armed, the deadline is armed
  -- by the first lost connection, and the later ones up to the deadline do not move it: the station
  -- keeps retrying, which is to say that the time to reconnect is armed by each of them, 8 seconds
  -- behind the last one, the time to succeed 30 seconds behind it, the status is KEEP_CONNECTION, the
  -- access point is not opened, and nothing else has changed.
  pub disconnects-deadline :
      (t₀ : ℕ) (ts : List ℕ) (m : Manager d)
      → m.give_up_at_us ≡ far_future
      → t₀ + m.ap_fallback_timeout_us < far_future
      → All (λ t. t ≤ t₀ + m.ap_fallback_timeout_us) ts
      → disconnects (t₀ ∷ ts) m
        ≡ some (record m {
          sta_connection_state = false;
          give_up_at_us = t₀ + m.ap_fallback_timeout_us;
          working_state = keep_connection;
          t_timeout_us = add64 (last_time t₀ ts) 30_000_000;
          t_shutdown_ap_us = far_future;
          t_reconnect_us = add64 (last_time t₀ ts) 8_000_000;
        })
  disconnects-deadline t₀ ts m g h a =
      rw (first_disconnect t₀ m g h) (retries (t₀ + m.ap_fallback_timeout_us) t₀ ts m h a)

  -- A connection that is lost behind the deadline opens the access point, unless the stored
  -- configuration is the fallback or the driver fails.
  pub on_sta_disconnected-ap_started :
      (now : ℕ) (m m' : Manager d)
      → m.fallback_to_stored_sta_config ≡ false
      → m.give_up_at_us < now
      → now < far_future
      → on_sta_disconnected now m ≡ some m'
      → (m'.working_state ≡ ap_started)
        × (m'.sta_connection_state ≡ false)
        × (m'.t_timeout_us ≡ far_future)
        × (m'.t_reconnect_us ≡ far_future)
  unfolding on_sta_disconnected give_up configure_and_open_access_point_and_set_status lt64
  on_sta_disconnected-ap_started now m m' f g h e = ground arith

  -- The default fallback period is FAR_FUTURE, which is meant to say "never open the access point".
  -- The sum `now + FAR_FUTURE` wraps below zero, so the first lost connection opens it, where no
  -- deadline is armed, the access point is the fallback and the driver does not fail.
  on_sta_disconnected_default :
      (now : ℕ) (m m' : Manager d)
      → m.ap_fallback_timeout_us ≡ far_future
      → m.give_up_at_us ≡ far_future
      → m.fallback_to_stored_sta_config ≡ false
      → 0 < now
      → now < far_future
      → on_sta_disconnected now m ≡ some m'
      → m'.working_state ≡ ap_started
  unfolding on_sta_disconnected give_up configure_and_open_access_point_and_set_status lt64 add64
  on_sta_disconnected_default now m m' d' g f h k e = ground arith

  -- What is left to do for the driver when the access point is the fallback: the answer without
  -- success is sent, and the access point is opened unless it is open.
  abbrev pub fallen_back : Manager d → d.World
  fallen_back m =
      let answered =
        (d.send
          (wifi_connect m.last_wifi_connect_request_id false []
            (record { ip = 0; netmask = 0; gateway = 0 }) 0)
          m.world).1 in
      if is_apsta (d.get_mode answered)
      then answered
      else (d.set_ap_config m.ap (d.set_mode apsta_mode answered).1).1

  give_up_readable :
      (now : ℕ) (m m' : Manager d)
      → m.fallback_to_stored_sta_config ≡ true
      → (read_sta_config d m.sta m.world).0 ≡ esp_ok
      → give_up now m ≡ some m'
      → (m'.working_state ≡ ap_started)
        × (m'.t_reconnect_us ≡ far_future)
        × (m'.world ≡ fallen_back (record m { world = (read_sta_config d m.sta m.world).2 }))
  unfolding give_up configure_and_open_access_point_and_set_status open_access_point
      send_wifi_connection_not_successful_message fallback_test
  give_up_readable now m m' f r e = ground arith

  -- So, with the default fallback period FAR_FUTURE, which is meant to say "never open the access
  -- point", a station that was connected and loses its connection opens the access point at once, if
  -- the driver does not fail and the stored configuration can be read. Of the driver nothing is asked
  -- but to send the answer without success and to open the access point, no time to reconnect is
  -- armed, and so there is not one attempt to reconnect: the sum `now + FAR_FUTURE` wraps below zero,
  -- and `fallbackToStoredStaConfig && read_sta_config()` holds only if the read fails.
  pub connected_then_lost :
      (t now : ℕ) (m m' : Manager d)
      → m.ap_fallback_timeout_us ≡ far_future
      → 0 < now
      → now < far_future
      → let connected = on_sta_connected t m in
        (read_sta_config d connected.sta connected.world).0 ≡ esp_ok
        → on_sta_disconnected now connected ≡ some m'
        → (m'.working_state ≡ ap_started)
          × (m'.t_reconnect_us ≡ far_future)
          × (m'.world
              ≡ fallen_back (record connected {
                world = (read_sta_config d connected.sta connected.world).2;
              }))
  unfolding on_sta_disconnected on_sta_connected lt64 add64
  connected_then_lost t now m m' p h k r e =
      give_up_readable now
        (record (on_sta_connected t m) {
          sta_connection_state = false;
          give_up_at_us = add64 now far_future;
        })
        m' refl r (ground arith)
