-- ===== src/Wifi/State.antt =====
-- cpp/webmanager.hh: the state of class M, `setStatus`, and the helpers that both the events and the
-- requests call. Times are int64_t bit patterns. A result `none` is an abort by ESP_ERROR_CHECK.
use espidf_component_webmana.Prelude.{ℕ, Bool, true, false, [], Option, some, if◌then◌else◌}
use espidf_component_webmana.Prelude.Word.{add64}
use espidf_component_webmana.Esp.{◌>>=◌, esp_error_check}
use espidf_component_webmana.Constants.{
  WorkingState, ap_started, keep_connection, far_future, common_timeout_us,
}
use espidf_component_webmana.Wifi.Device.{
  Device, WifiMode, null_mode, sta_mode, ap_mode, apsta_mode, Credentials, wifi_connect,
}

pub record Manager (d : Device) : Type 0 where
  pub sta : Credentials
  pub ap : Credentials
  pub fallback_to_stored_sta_config : Bool
  pub working_state : WorkingState
  pub t_timeout_us : ℕ
  pub t_shutdown_ap_us : ℕ
  pub t_reconnect_us : ℕ
  pub sta_connection_state : Bool
  pub ap_fallback_timeout_us : ℕ
  pub give_up_at_us : ℕ
  pub last_wifi_connect_request_id : ℕ
  pub reset_stored_wifi_connection_on_start : Bool
  pub world : d.World

-- `mode != WIFI_MODE_APSTA`
unfoldable pub is_apsta : WifiMode → Bool
is_apsta null_mode = false
is_apsta sta_mode = false
is_apsta ap_mode = false
is_apsta apsta_mode = true

-- `mode != WIFI_MODE_STA`
unfoldable pub is_sta : WifiMode → Bool
is_sta null_mode = false
is_sta sta_mode = true
is_sta ap_mode = false
is_sta apsta_mode = false

-- The mode is set only if it is another, since setting it drops the stations.
unfoldable pub open_access_point : (d : Device) → d.World → Credentials → Option d.World
unfolding is_apsta
open_access_point d w ap = if is_apsta (d.get_mode w) then some w else (do
  both ← esp_error_check (d.set_mode apsta_mode w)
  esp_error_check (d.set_ap_config ap both))

module _ {d : Device} where
  -- The tests of the source only keep an unchanged value out of the log.
  unfoldable pub set_status : Manager d → WorkingState → ℕ → ℕ → ℕ → Manager d
  set_status m state timeout shutdown_ap reconnect = record m {
    working_state = state;
    t_reconnect_us = reconnect;
    t_timeout_us = timeout;
    t_shutdown_ap_us = shutdown_ap;
  }

  unfoldable pub connect_as_sta : ℕ → Manager d → Option (Manager d)
  unfolding set_status
  connect_as_sta now m = do
    configured ← esp_error_check (d.set_sta_config m.sta m.world)
    connecting ← esp_error_check (d.connect configured)
    some (
        set_status (record m { world = connecting }) keep_connection (add64 now common_timeout_us)
          far_future far_future)

  unfoldable pub configure_and_open_access_point_and_set_status : Manager d → Option (Manager d)
  unfolding set_status
  configure_and_open_access_point_and_set_status m = do
    opened ← open_access_point d m.world m.ap
    some (
        set_status (record m { fallback_to_stored_sta_config = false; world = opened }) ap_started
          far_future far_future far_future)

  unfoldable pub send_wifi_connection_not_successful_message : Manager d → Manager d
  send_wifi_connection_not_successful_message m = record m {
    world =
        (d.send
          (wifi_connect m.last_wifi_connect_request_id false []
            (record { ip = 0; netmask = 0; gateway = 0 }) 0)
          m.world).1;
  }
