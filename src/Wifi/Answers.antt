-- ===== src/Wifi/Answers.antt =====
-- What a request to connect changes, and what it leaves alone.
use espidf_component_webmana.Prelude.{ℕ, ◌≡◌, false}
use espidf_component_webmana.Wifi.Device.{Device, ConnectRequest, wifi_connect}
use espidf_component_webmana.Wifi.State.{Manager}

module _ {d : Device} where
  -- The state is that of `m`, but for the id of the request and the effects of the answer.
  abbrev pub LeavesAlone : (m m' : Manager d) → Type 0
  LeavesAlone m m' =
      (m'.sta ≡ m.sta)
      × (m'.working_state ≡ m.working_state)
      × (m'.t_timeout_us ≡ m.t_timeout_us)
      × (m'.t_shutdown_ap_us ≡ m.t_shutdown_ap_us)
      × (m'.t_reconnect_us ≡ m.t_reconnect_us)
      × (m'.give_up_at_us ≡ m.give_up_at_us)
      × (m'.sta_connection_state ≡ m.sta_connection_state)

  -- The answer that a refused request is sent, with its result.
  abbrev pub refusal : ConnectRequest → Manager d → ℕ × d.World
  refusal req m =
      d.send
        (wifi_connect req.request_id false m.sta.ssid (record { ip = 0; netmask = 0; gateway = 0 })
          0)
        m.world
