-- ===== src/Wifi/Supervision.antt =====
-- What `Supervise` leaves behind.
use espidf_component_webmana.Prelude.{ℕ, ◌^◌, ◌<◌, ◌≡◌, false, some, arith, ◌||◌, if◌then◌else◌}
use espidf_component_webmana.Prelude.Word.{add64, lt64}
use espidf_component_webmana.Constants.{ap_started, keep_connection}
use espidf_component_webmana.Wifi.Device.{Device, sta_mode, apsta_mode, Credentials}
use espidf_component_webmana.Wifi.State.{
  Manager, is_apsta, is_sta, open_access_point, connect_as_sta,
  configure_and_open_access_point_and_set_status,
}
use espidf_component_webmana.Wifi.Events.{
  supervise, supervise_reconnect, supervise_shutdown_ap, supervise_timeout,
}

module _ (d : Device) where
  -- The driver opens the access point, unless it is open.
  abbrev pub access_point : Credentials → d.World → d.World
  access_point ap w =
      if is_apsta (d.get_mode w) then w else (d.set_ap_config ap (d.set_mode apsta_mode w).1).1

  -- The websocket is closed and the driver closes the access point, unless there is none.
  abbrev pub no_access_point : d.World → d.World
  no_access_point w =
      if is_sta (d.get_mode w) then w else (d.set_mode sta_mode (d.close_websocket w)).1

module _ {d : Device} where
  -- None of the three periods has run out.
  abbrev pub NothingDue : ℕ → Manager d → Type 0
  NothingDue now m =
      (lt64 m.t_reconnect_us now ≡ false)
      × (lt64 m.t_shutdown_ap_us now ≡ false)
      × (lt64 m.t_timeout_us now ≡ false)

  -- `Supervise` may abort on a driver error; where it returns, with a clock below 2 ^ 62, it has acted
  -- on the first period that had run out, and on that one alone: when it is time to reconnect, the
  -- driver is configured with the credentials and told to connect; otherwise, when it is time to shut
  -- the access point, that is closed; otherwise, when the time to succeed is over, it is opened, and
  -- the state says so. None of the periods is due any more at the time of the call.
  pub supervise-NothingDue :
      (now : ℕ) (m m' : Manager d)
      → now < 2 ^ 62
      → supervise now m ≡ some m'
      → (m'.world ≡ (
          if lt64 m.t_reconnect_us now
          then (d.connect (d.set_sta_config m.sta m.world).1).1
          else if lt64 m.t_shutdown_ap_us now
          then no_access_point d m.world
          else if lt64 m.t_timeout_us now
          then access_point d m.ap m.world
          else m.world))
        × (m'.working_state ≡ (
            if lt64 m.t_reconnect_us now || lt64 m.t_shutdown_ap_us now
            then keep_connection
            else if lt64 m.t_timeout_us now
            then ap_started
            else m.working_state))
        × NothingDue now m'
  unfolding supervise supervise_reconnect supervise_shutdown_ap supervise_timeout connect_as_sta
      configure_and_open_access_point_and_set_status open_access_point lt64 add64
  supervise-NothingDue now m m' h e = ground arith
