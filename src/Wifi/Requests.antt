-- ===== src/Wifi/Requests.antt =====
-- cpp/webmanager.hh: `handleRequestWifiConnect` and `handleRequestWifiDisconnect`, and the part of
-- cpp/webmanager_interfaces.hh that they answer with. `none` is an abort by ESP_ERROR_CHECK.
use espidf_component_webmana.Prelude.{
  ℕ, ◌-◌, Bool, false, not, ◌&&◌, Option, none, some, ◌==◌, leb, ltb, if◌then◌else◌, length,
}
use espidf_component_webmana.Prelude.Text.{Bytes}
use espidf_component_webmana.Prelude.Word.{add64}
use espidf_component_webmana.Esp.{◌>>=◌, esp_error_check, esp_ok}
use espidf_component_webmana.Wifi.Device.{Device, ConnectRequest, wifi_connect, wifi_disconnect}
use espidf_component_webmana.Wifi.State.{
  Manager, connect_as_sta, configure_and_open_access_point_and_set_status,
}
use espidf_component_webmana.Wifi.Config.{delete_sta_config}

-- eMessageReceiverResult
pub data Receipt : Type 0 where
  ok not_for_me for_me_but_failed : Receipt

-- MAX_SSID_LEN and MAX_PASSPHRASE_LEN of esp_wifi_types.h
abbrev pub max_ssid_len : ℕ
max_ssid_len = 32

abbrev pub max_passphrase_len : ℕ
max_passphrase_len = 64

-- The three ESP_GOTO_ON_FALSE tests.
unfoldable pub is_acceptable : ConnectRequest → Bool
is_acceptable req =
    leb (length req.ssid) (max_ssid_len - 1)
    && leb (length req.password) (max_passphrase_len - 1)
    && ltb 0 (length req.password)

module _ {d : Device} where
  -- `negativeresponse:`
  unfoldable pub refuse : ConnectRequest → Manager d → Receipt × Manager d
  refuse req m =
      let (err, w) =
        d.send
          (wifi_connect req.request_id false m.sta.ssid
            (record { ip = 0; netmask = 0; gateway = 0 }) 0)
          m.world in
      (if err == esp_ok then ok else for_me_but_failed, record m { world = w })

  -- The credentials are overwritten before the semaphore is taken.
  unfoldable pub accept : ℕ → ConnectRequest → Manager d → Option (Receipt × Manager d)
  accept now req m =
      let configured = record m { sta = record { ssid = req.ssid; password = req.password } } in
      if not (d.take_semaphore configured.world) then some (for_me_but_failed, configured) else (do
        connecting ←
            connect_as_sta now
              (record configured { give_up_at_us = add64 now configured.ap_fallback_timeout_us })
        some (ok, connecting))

  unfoldable pub handle_request_wifi_connect : ℕ → Bytes → Manager d → Option (Receipt × Manager d)
  unfolding is_acceptable refuse accept
  handle_request_wifi_connect now frame m = elim (d.decode_connect frame) [
    | none ↦ some (for_me_but_failed, m)
    | some req ↦
        let known = record m { last_wifi_connect_request_id = req.request_id } in
        if is_acceptable req then accept now req known else some (refuse req known)
  ]

  unfoldable pub forget_and_open : d.World → Manager d → Option (Receipt × Manager d)
  forget_and_open w m = do
    left ← esp_error_check (d.disconnect w)
    opened ←
        configure_and_open_access_point_and_set_status
          (record m { world = (delete_sta_config d left).1 })
    some (ok, opened)

  -- The answer is sent first, while the station still has its connection.
  unfoldable pub handle_request_wifi_disconnect : Bytes → Manager d → Option (Receipt × Manager d)
  unfolding forget_and_open
  handle_request_wifi_disconnect frame m = elim (d.decode_disconnect frame) [
    | none ↦ some (for_me_but_failed, m)
    | some request_id ↦
        let answered = (d.send (wifi_disconnect request_id) m.world).1 in
        if not (d.take_semaphore answered)
        then some (for_me_but_failed, record m { world = answered })
        else forget_and_open answered m
  ]
