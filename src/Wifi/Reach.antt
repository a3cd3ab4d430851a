-- ===== src/Wifi/Reach.antt =====
-- The manager as a state machine: what its tasks and the network may do to it, in any order.
use espidf_component_webmana.Prelude.{ℕ, ◌^◌, ◌<◌, ◌≡◌, ◌⊎◌, true, Option, some}
use espidf_component_webmana.Prelude.Text.{Bytes}
use espidf_component_webmana.Esp.{◌>>=◌}
use espidf_component_webmana.Constants.{ap_started, keep_connection, far_future}
use espidf_component_webmana.Wifi.Device.{Device, apsta_mode}
use espidf_component_webmana.Wifi.State.{Manager}
use espidf_component_webmana.Wifi.Events.{
  WifiEvent, IpEvent, sta_got_ip, wifi_event_handler, on_ip_event, supervise,
}
use espidf_component_webmana.Wifi.Requests.{
  handle_request_wifi_connect, handle_request_wifi_disconnect,
}

pub data Input : Type 0 where
  wifi : WifiEvent → ℕ → Input
  ip : IpEvent → ℕ → Input
  supervises : ℕ → Input
  connects : ℕ → Bytes → Input
  disconnects : Bytes → Input

module _ {d : Device} where
  abbrev pub step : Input → Manager d → Option (Manager d)
  step (wifi e now) m = wifi_event_handler e now m
  step (ip e now) m = some (on_ip_event e now m)
  step (supervises now) m = supervise now m
  step (connects now frame) m = handle_request_wifi_connect now frame m >>= λ r. some r.1
  step (disconnects frame) m = handle_request_wifi_disconnect frame m >>= λ r. some r.1

  -- The clock is below 2 ^ 62 microseconds, and the driver reports an address only to a station that
  -- is connected.
  abbrev pub IsTimely : Input → Manager d → Type 0
  IsTimely (wifi e now) m = now < 2 ^ 62
  IsTimely (ip (sta_got_ip info) now) m = (now < 2 ^ 62) × (m.sta_connection_state ≡ true)
  IsTimely (ip e now) m = now < 2 ^ 62
  IsTimely (supervises now) m = now < 2 ^ 62
  IsTimely (connects now frame) m = now < 2 ^ 62
  IsTimely (disconnects frame) m = Unit

  -- In the access point state the access point is open and no period runs. Otherwise the station is
  -- connected, or a period runs that will try again or open the access point. The period that closes
  -- the access point runs only while the station is connected.
  pub record IsWatched (m : Manager d) : Type 0 where
    pub open_mode : m.working_state ≡ ap_started → d.get_mode m.world ≡ apsta_mode
    pub quiet :
        m.working_state ≡ ap_started
        → (m.t_timeout_us ≡ far_future) × (m.t_reconnect_us ≡ far_future)
    pub alive :
        m.working_state ≡ keep_connection
        → (m.sta_connection_state ≡ true) ⊎ (m.t_timeout_us < far_future)
    pub closing :
        (m.t_shutdown_ap_us ≡ far_future)
        ⊎ ((m.sta_connection_state ≡ true) × (m.working_state ≡ keep_connection))

  pub data Reach (m₀ : Manager d) : Manager d → Type 0 where
    here : Reach m₀ m₀
    next :
        {m m' : Manager d} (i : Input)
        → Reach m₀ m
        → IsTimely i m
        → step i m ≡ some m'
        → Reach m₀ m'
