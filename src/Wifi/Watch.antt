-- ===== src/Wifi/Watch.antt =====
-- Every input keeps the manager watched.
use espidf_component_webmana.Prelude.{
  ℕ, ◌^◌, ◌<◌, ◌≡◌, refl, true, some, arith, Bool-cases, Option-cases, inl, inr,
}
use mathlib.Core.Path.{subst}
use espidf_component_webmana.Prelude.Text.{Bytes}
use espidf_component_webmana.Prelude.Word.{add64, lt64}
use espidf_component_webmana.Esp.{◌>>=◌, bind-eq-some, eq_of_some, esp_error_check}
use espidf_component_webmana.Wifi.Device.{
  Device, wifi_disconnect, KeepsMode, WifiMode, null_mode, sta_mode, ap_mode, apsta_mode,
  Credentials,
}
use espidf_component_webmana.Wifi.State.{
  Manager, connect_as_sta, configure_and_open_access_point_and_set_status, open_access_point,
  is_apsta, send_wifi_connection_not_successful_message,
}
use espidf_component_webmana.Wifi.Events.{
  scan_done, sta_disconnected, sta_connected, sta_got_ip, supervise, start_wifi,
  start_network_state_machine, give_up, fallback_test, arm_deadline, on_sta_disconnected,
  on_sta_connected, wifi_event_handler, on_ip_event, supervise_reconnect, supervise_shutdown_ap,
  supervise_timeout,
}
use espidf_component_webmana.Wifi.Config.{delete_sta_config, read_sta_config}
use espidf_component_webmana.Wifi.Requests.{
  Receipt, handle_request_wifi_connect, handle_request_wifi_disconnect, accept, refuse,
  forget_and_open,
}
use espidf_component_webmana.Wifi.Reach.{
  Input, wifi, ip, supervises, connects, disconnects, step, IsTimely, IsWatched, Reach, here, next,
}

is_apsta-eq : (m : WifiMode) → is_apsta m ≡ true → m ≡ apsta_mode
unfolding is_apsta
is_apsta-eq null_mode e = cc
is_apsta-eq sta_mode e = cc
is_apsta-eq ap_mode e = cc
is_apsta-eq apsta_mode e = refl

module _ {d : Device} (law : KeepsMode d) where
  open law use {set_mode-mode, set_ap_config-mode, start-mode, send-mode}

  open_access_point-mode :
      (w w' : d.World) (ap : Credentials)
      → open_access_point d w ap ≡ some w'
      → d.get_mode w' ≡ apsta_mode
  unfolding open_access_point
  open_access_point-mode w w' ap e = ground (
    arith,
    is_apsta-eq (d.get_mode w),
    set_mode-mode apsta_mode w (d.set_mode apsta_mode w).1,
    set_ap_config-mode ap (d.set_mode apsta_mode w).1,
  )

  configure-IsWatched :
      (m m' : Manager d) → configure_and_open_access_point_and_set_status m ≡ some m' → IsWatched m'
  unfolding configure_and_open_access_point_and_set_status
  configure-IsWatched m m' e = ground (arith, open_access_point-mode m.world m'.world m.ap)

  connect_as_sta-IsWatched :
      (now : ℕ) (m m' : Manager d) → now < 2 ^ 62 → connect_as_sta now m ≡ some m' → IsWatched m'
  unfolding connect_as_sta add64
  connect_as_sta-IsWatched now m m' h e = ground arith

  give_up-IsWatched :
      (now : ℕ) (m m' : Manager d) → now < 2 ^ 62 → give_up now m ≡ some m' → IsWatched m'
  unfolding give_up add64
  give_up-IsWatched now m m' h e = elim (Bool-cases (fallback_test m).0) [
    | inl yes_fall ↦ ground arith
    | inr no_fall ↦ ground (
      arith,
      configure-IsWatched (send_wifi_connection_not_successful_message (fallback_test m).1) m',
    )
  ]

  on_sta_disconnected-IsWatched :
      (now : ℕ) (m m' : Manager d)
      → now < 2 ^ 62
      → on_sta_disconnected now m ≡ some m'
      → IsWatched m'
  unfolding on_sta_disconnected add64
  on_sta_disconnected-IsWatched now m m' h e =
      ground (arith, give_up-IsWatched now (arm_deadline now m) m')

  supervise-IsWatched :
      (now : ℕ) (m m' : Manager d)
      → now < 2 ^ 62
      → IsWatched m
      → supervise now m ≡ some m'
      → IsWatched m'
  unfolding supervise supervise_reconnect supervise_shutdown_ap supervise_timeout connect_as_sta
      lt64 add64
  supervise-IsWatched now m m' h v e = ground (arith, configure-IsWatched m m')

  handle_request_wifi_connect-IsWatched :
      (now : ℕ) (frame : Bytes) (m : Manager d) (r : Receipt × Manager d)
      → now < 2 ^ 62
      → IsWatched m
      → handle_request_wifi_connect now frame m ≡ some r
      → IsWatched r.1
  unfolding handle_request_wifi_connect accept refuse connect_as_sta add64
  handle_request_wifi_connect-IsWatched now frame m r h v e = grind (arith, send-mode)

  forget_and_open-IsWatched :
      (w : d.World) (m : Manager d) (r : Receipt × Manager d)
      → forget_and_open w m ≡ some r
      → IsWatched r.1
  unfolding forget_and_open
  forget_and_open-IsWatched w m r e =
      let (left, _, e') = bind-eq-some (esp_error_check (d.disconnect w)) _ e in
      let forgotten : Manager d = record m { world = (delete_sta_config d left).1 } in
      let (opened, o, found) =
        bind-eq-some (configure_and_open_access_point_and_set_status forgotten) _ e' in
      subst (λ (x : Receipt × Manager d). IsWatched x.1) (eq_of_some found)
        (configure-IsWatched forgotten opened o)

  handle_request_wifi_disconnect-IsWatched :
      (frame : Bytes) (m : Manager d) (r : Receipt × Manager d)
      → IsWatched m
      → handle_request_wifi_disconnect frame m ≡ some r
      → IsWatched r.1
  unfolding handle_request_wifi_disconnect
  handle_request_wifi_disconnect-IsWatched frame m r v e =
      elim (Option-cases (d.decode_disconnect frame)) [
        | inl unread ↦ ground arith
        | inr (id, read) ↦ ground (
          arith,
          send-mode (wifi_disconnect id) m.world,
          forget_and_open-IsWatched (d.send (wifi_disconnect id) m.world).1 m r,
        )
      ]

  step-IsWatched :
      (i : Input) (m m' : Manager d)
      → IsTimely i m
      → IsWatched m
      → step i m ≡ some m'
      → IsWatched m'
  unfolding wifi_event_handler on_sta_connected on_ip_event add64
  step-IsWatched (wifi scan_done now) m m' t v e = ground arith
  step-IsWatched (wifi sta_disconnected now) m m' t v e = on_sta_disconnected-IsWatched now m m' t e
  step-IsWatched (wifi sta_connected now) m m' t v e = ground arith
  step-IsWatched (wifi _ now) m m' t v e = ground arith
  step-IsWatched (ip (sta_got_ip info) now) m m' t v e = ground arith
  step-IsWatched (ip _ now) m m' t v e = ground arith
  step-IsWatched (supervises now) m m' t v e = supervise-IsWatched now m m' t v e
  step-IsWatched (connects now frame) m m' t v e =
      let (r, p, q) = bind-eq-some (handle_request_wifi_connect now frame m) _ e in
      subst IsWatched (eq_of_some q) (handle_request_wifi_connect-IsWatched now frame m r t v p)
  step-IsWatched (disconnects frame) m m' t v e =
      let (r, p, q) = bind-eq-some (handle_request_wifi_disconnect frame m) _ e in
      subst IsWatched (eq_of_some q) (handle_request_wifi_disconnect-IsWatched frame m r v p)

  Reach-IsWatched : {m₀ m : Manager d} → IsWatched m₀ → Reach m₀ m → IsWatched m
  Reach-IsWatched v here = v
  Reach-IsWatched v (next i r t e) = step-IsWatched i _ _ t (Reach-IsWatched v r) e

  start_wifi-IsWatched : (m m' : Manager d) → IsWatched m → start_wifi m ≡ some m' → IsWatched m'
  start_wifi-IsWatched m m' v e = grind (arith, start-mode)

  open_and_start-IsWatched :
      (m m' : Manager d)
      → (configure_and_open_access_point_and_set_status m >>= start_wifi) ≡ some m'
      → IsWatched m'
  open_and_start-IsWatched m m' e =
      let (opened, o, e') = bind-eq-some (configure_and_open_access_point_and_set_status m) _ e in
      start_wifi-IsWatched opened m' (configure-IsWatched m opened o) e'

  start_network_state_machine-IsWatched :
      (now : ℕ) (m m' : Manager d)
      → now < 2 ^ 62
      → start_network_state_machine now m ≡ some m'
      → IsWatched m'
  unfolding start_network_state_machine add64
  start_network_state_machine-IsWatched now m m' h e =
      let (ret, sta, w) = read_sta_config d m.sta m.world in
      ground (
        arith,
        open_and_start-IsWatched (record m { world = (delete_sta_config d m.world).1 }) m',
        open_and_start-IsWatched (record m { sta = sta; world = w }) m',
      )

  -- The state machine is watched from its start on, on each of the three ways in, and in every
  -- state that its tasks and the network lead to without an abort: it is never without a
  -- connection, without an access point and without a running period at once. The clock stays below
  -- 2 ^ 62, the driver keeps its mode, and reports an address only to a station that is connected.
  pub Reach-start-IsWatched :
      (now : ℕ) (m m₀ : Manager d) {m' : Manager d}
      → now < 2 ^ 62
      → start_network_state_machine now m ≡ some m₀
      → Reach m₀ m'
      → IsWatched m'
  Reach-start-IsWatched now m m₀ h e r =
      Reach-IsWatched (start_network_state_machine-IsWatched now m m₀ h e) r
