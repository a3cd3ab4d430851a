-- ===== src/Wifi/Events.antt =====
-- cpp/webmanager.hh: `wifi_event_handler`, `OnIpEvent`, `Supervise` and `StartNetworkStateMachine`.
-- The semaphore makes each of them one step. `now` is esp_timer_get_time() at its start.
use espidf_component_webmana.Prelude.{ℕ, Bool, true, false, not, Option, some, ◌==◌, if◌then◌else◌}
use espidf_component_webmana.Prelude.Word.{add64, lt64}
use espidf_component_webmana.Esp.{◌>>=◌, esp_error_check, esp_ok}
use espidf_component_webmana.Constants.{
  keep_connection, far_future, common_timeout_us, reconnect_timeout_us, shutdown_ap_timeout_us,
}
use espidf_component_webmana.Wifi.Device.{Device, sta_mode, IpInfo, wifi_connect}
use espidf_component_webmana.Wifi.State.{
  Manager, set_status, connect_as_sta, configure_and_open_access_point_and_set_status,
  send_wifi_connection_not_successful_message, is_sta,
}
use espidf_component_webmana.Wifi.Config.{
  delete_sta_config, create_or_update_sta_config, read_sta_config,
}

pub data WifiEvent : Type 0 where
  scan_done sta_disconnected sta_connected ap_start ap_stop : WifiEvent
  ap_sta_connected ap_sta_disconnected other_wifi_event : WifiEvent

pub data IpEvent : Type 0 where
  assigned_ip_to_client sta_lost_ip other_ip_event : IpEvent
  sta_got_ip : IpInfo → IpEvent

module _ {d : Device} where
  -- `fallbackToStoredStaConfig && read_sta_config()`: the second operand is an esp_err_t, which is
  -- true if the read failed. It is evaluated only if the first is true.
  unfoldable pub fallback_test : Manager d → Bool × Manager d
  fallback_test m =
      if m.fallback_to_stored_sta_config
      then (let (ret, sta, w) = read_sta_config d m.sta m.world in
          (not (ret == esp_ok), record m { sta = sta; world = w }))
      else (false, m)

  -- The branch on which `now_us > giveUpAt_us`.
  unfoldable pub give_up : ℕ → Manager d → Option (Manager d)
  unfolding fallback_test set_status send_wifi_connection_not_successful_message
  give_up now m =
      let (fall_back, m₁) = fallback_test m in
      if fall_back
      then (do
        m₂ ← connect_as_sta now (record m₁ {
          fallback_to_stored_sta_config = false;
          give_up_at_us = add64 now m₁.ap_fallback_timeout_us;
        })
        some (
            send_wifi_connection_not_successful_message
              (set_status m₂ keep_connection (add64 now common_timeout_us) far_future far_future)))
      else configure_and_open_access_point_and_set_status
          (send_wifi_connection_not_successful_message m₁)

  unfoldable pub arm_deadline : ℕ → Manager d → Manager d
  arm_deadline now m = record m {
    sta_connection_state = false;
    give_up_at_us =
        if m.give_up_at_us == far_future
        then add64 now m.ap_fallback_timeout_us
        else m.give_up_at_us;
  }

  unfoldable pub on_sta_disconnected : ℕ → Manager d → Option (Manager d)
  unfolding arm_deadline set_status
  on_sta_disconnected now m =
      let armed = arm_deadline now m in
      if lt64 armed.give_up_at_us now
      then give_up now armed
      else some (
          set_status armed keep_connection (add64 now common_timeout_us) far_future
            (add64 now reconnect_timeout_us))

  unfoldable pub on_sta_connected : ℕ → Manager d → Manager d
  unfolding set_status
  on_sta_connected now m =
      set_status
        (record m {
          sta_connection_state = true;
          world = (create_or_update_sta_config d m.sta m.world).1;
          fallback_to_stored_sta_config = true;
          give_up_at_us = far_future;
        })
        keep_connection (add64 now common_timeout_us) far_future far_future

  unfoldable pub wifi_event_handler : WifiEvent → ℕ → Manager d → Option (Manager d)
  unfolding on_sta_disconnected on_sta_connected
  wifi_event_handler scan_done now m = some m
  wifi_event_handler sta_disconnected now m = on_sta_disconnected now m
  wifi_event_handler sta_connected now m = some (on_sta_connected now m)
  wifi_event_handler ap_start now m = some m
  wifi_event_handler ap_stop now m = some m
  wifi_event_handler ap_sta_connected now m = some m
  wifi_event_handler ap_sta_disconnected now m = some m
  wifi_event_handler other_wifi_event now m = some m

  -- The configuration is stored before the answer is sent.
  unfoldable pub send_wifi_connection_successful_message : IpInfo → Manager d → Manager d
  send_wifi_connection_successful_message info m =
      let stored = (create_or_update_sta_config d m.sta m.world).1 in
      record m {
        world =
            (d.send
              (wifi_connect m.last_wifi_connect_request_id true m.sta.ssid info (d.sta_rssi stored))
              stored).1;
      }

  unfoldable pub on_ip_event : IpEvent → ℕ → Manager d → Manager d
  unfolding set_status send_wifi_connection_successful_message
  on_ip_event assigned_ip_to_client now m = m
  on_ip_event (sta_got_ip info) now m =
      let answered =
        send_wifi_connection_successful_message info
          (set_status m keep_connection far_future (add64 now shutdown_ap_timeout_us) far_future) in
      record answered { world = d.sntp_init answered.world }
  on_ip_event sta_lost_ip now m = m
  on_ip_event other_ip_event now m = m

  -- The three tests of `Supervise`, in their order.
  unfoldable pub supervise_reconnect : ℕ → Manager d → Option (Manager d)
  supervise_reconnect now m = if lt64 m.t_reconnect_us now then connect_as_sta now m else some m

  unfoldable pub supervise_shutdown_ap : ℕ → Manager d → Manager d
  unfolding set_status is_sta
  supervise_shutdown_ap now m =
      if lt64 m.t_shutdown_ap_us now
      then set_status
          (record m {
            world =
                if is_sta (d.get_mode m.world)
                then m.world
                else (d.set_mode sta_mode (d.close_websocket m.world)).1;
          })
          keep_connection far_future far_future far_future
      else m

  unfoldable pub supervise_timeout : ℕ → Manager d → Option (Manager d)
  supervise_timeout now m =
      if lt64 m.t_timeout_us now then configure_and_open_access_point_and_set_status m else some m

  unfoldable pub supervise : ℕ → Manager d → Option (Manager d)
  unfolding supervise_reconnect supervise_shutdown_ap supervise_timeout
  supervise now m = do
    m₁ ← supervise_reconnect now m
    supervise_timeout now (supervise_shutdown_ap now m₁)

  abbrev pub start_wifi : Manager d → Option (Manager d)
  start_wifi m = do started ← esp_error_check (d.start m.world); some (record m { world = started })

  unfoldable pub start_network_state_machine : ℕ → Manager d → Option (Manager d)
  unfolding set_status
  start_network_state_machine now m =
      let (ret, sta, w) = read_sta_config d m.sta m.world in
      let forgotten = record m { world = (delete_sta_config d m.world).1 } in
      let read = record m { sta = sta; world = w } in
      if m.reset_stored_wifi_connection_on_start
      then configure_and_open_access_point_and_set_status forgotten >>= start_wifi
      else (if not (ret == esp_ok)
          then configure_and_open_access_point_and_set_status read >>= start_wifi
          else (do
            station ← esp_error_check (d.set_mode sta_mode read.world)
            m₁ ← start_wifi (record read { world = station })
            m₂ ←
                connect_as_sta now
                  (record m₁ { give_up_at_us = add64 now m₁.ap_fallback_timeout_us })
            start_wifi (
                set_status m₂ keep_connection (add64 now common_timeout_us) far_future far_future)))
