-- ===== src/Wifi/Device.antt =====
-- What cpp/webmanager.hh calls and does not define: the Wi-Fi driver, the `wifimananger` namespace of
-- the non-volatile storage, the websocket and the generated message codec.
use espidf_component_webmana.Prelude.{ℕ, ◌≡◌, ◌≢◌, ◌<◌, Bool, Option, length}
use espidf_component_webmana.Prelude.Text.{Bytes}
use espidf_component_webmana.Esp.{esp_ok}

-- wifi_mode_t
pub data WifiMode : Type 0 where
  null_mode sta_mode ap_mode apsta_mode : WifiMode

-- The ssid and the password of a wifi_config_t, read as C strings.
pub record Credentials : Type 0 where
  pub ssid : Bytes
  pub password : Bytes

-- The keys `nvs_key_wifi_ssid` and `nvs_key_wifi_password`.
pub data Key : Type 0 where
  ssid_key password_key : Key

pub record IpInfo : Type 0 where
  pub ip : ℕ
  pub netmask : ℕ
  pub gateway : ℕ

-- WsProtocol::wifimanager::RequestWifiConnect::Payload
pub record ConnectRequest : Type 0 where
  pub request_id : ℕ
  pub ssid : Bytes
  pub password : Bytes

-- WsProtocol::wifimanager::ResponseWifiConnect::Payload, and ResponseWifiDisconnect::Payload
pub data Response : Type 0 where
  wifi_connect :
      (request_id : ℕ) (success : Bool) (ssid : Bytes) (info : IpInfo) (rssi : ℕ) → Response
  wifi_disconnect : (request_id : ℕ) → Response

pub record Device : Type 1 where
  pub World : Type 0
  pub get_mode : World → WifiMode
  pub set_mode : WifiMode → World → ℕ × World
  pub set_sta_config : Credentials → World → ℕ × World
  pub set_ap_config : Credentials → World → ℕ × World
  pub connect : World → ℕ × World
  pub disconnect : World → ℕ × World
  pub start : World → ℕ × World
  pub sta_rssi : World → ℕ
  pub nvs_open : World → ℕ × World
  -- The capacity of the caller's buffer, the terminator included.
  pub nvs_get_str : Key → ℕ → World → ℕ × Bytes
  pub nvs_set_str : Key → Bytes → World → ℕ × World
  pub nvs_erase_key : Key → World → ℕ × World
  pub nvs_commit : World → ℕ × World
  pub nvs_close : World → World
  -- Encode, and SendRawAsync where the encoded frame fits its buffer. A frame that does not is
  -- dropped, with the error ESP_FAIL here.
  pub send : Response → World → ℕ × World
  pub close_websocket : World → World
  pub sntp_init : World → World
  pub take_semaphore : World → Bool
  pub decode_connect : Bytes → Option ConnectRequest
  pub decode_disconnect : Bytes → Option ℕ

-- The driver's mode is what the last successful esp_wifi_set_mode said, and no other call changes it.
pub record KeepsMode (d : Device) : Type 0 where
  pub set_mode-mode :
      (m : WifiMode) (w w' : d.World) → d.set_mode m w ≡ (esp_ok, w') → d.get_mode w' ≡ m
  pub set_ap_config-mode :
      (c : Credentials) (w : d.World) → d.get_mode (d.set_ap_config c w).1 ≡ d.get_mode w
  pub start-mode : (w : d.World) → d.get_mode (d.start w).1 ≡ d.get_mode w
  pub send-mode : (r : Response) (w : d.World) → d.get_mode (d.send r w).1 ≡ d.get_mode w

-- nvs_set_str stores, nvs_get_str reads what is stored where it fits, and neither opening, committing
-- nor closing the namespace changes what is read. `restart` is what is left after a restart of the
-- device: of what was written, only what a successful nvs_commit has followed is sure to be.
pub record KeepsStrings (d : Device) : Type 0 where
  pub get-open :
      (k : Key) (n : ℕ) (w : d.World) → d.nvs_get_str k n (d.nvs_open w).1 ≡ d.nvs_get_str k n w
  pub get-set :
      (k : Key) (n : ℕ) (s : Bytes) (w w' : d.World)
      → length s < n
      → d.nvs_set_str k s w ≡ (esp_ok, w')
      → d.nvs_get_str k n w' ≡ (esp_ok, s)
  pub get-set_ne :
      (k j : Key) (n : ℕ) (s : Bytes) (w : d.World)
      → k ≢ j
      → d.nvs_get_str j n (d.nvs_set_str k s w).1 ≡ d.nvs_get_str j n w
  pub get-commit :
      (k : Key) (n : ℕ) (w : d.World) → d.nvs_get_str k n (d.nvs_commit w).1 ≡ d.nvs_get_str k n w
  pub get-close :
      (k : Key) (n : ℕ) (w : d.World) → d.nvs_get_str k n (d.nvs_close w) ≡ d.nvs_get_str k n w
  -- A larger buffer reads the same string.
  pub get-grow :
      (k : Key) (m n : ℕ) (s : Bytes) (w : d.World)
      → length s < m
      → d.nvs_get_str k n w ≡ (esp_ok, s)
      → d.nvs_get_str k m w ≡ (esp_ok, s)
  pub restart : d.World → d.World
  pub restart-commit :
      (k : Key) (n : ℕ) (w : d.World)
      → (d.nvs_commit w).0 ≡ esp_ok
      → d.nvs_get_str k n (restart (d.nvs_commit w).1) ≡ d.nvs_get_str k n w
  pub restart-open :
      (k : Key) (n : ℕ) (w : d.World)
      → d.nvs_get_str k n (restart (d.nvs_open w).1) ≡ d.nvs_get_str k n (restart w)
  pub restart-close :
      (k : Key) (n : ℕ) (w : d.World)
      → d.nvs_get_str k n (restart (d.nvs_close w)) ≡ d.nvs_get_str k n (restart w)
