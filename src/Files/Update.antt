-- ===== src/Files/Update.antt =====
-- cpp/webmanager_base.hh: the page for updates of the firmware.
use espidf_component_webmana.Prelude.{
  ℕ, zero, suc, ◌^◌, ◌≤◌, ◌<◌, min, ◌≡◌, Bool, true, not, ◌||◌, Option, none, some, [], ◌++◌, leb,
  ◌==◌, if◌then◌else◌, length, take, drop,
}
use espidf_component_webmana.Prelude.Text.{Bytes}
use espidf_component_webmana.Prelude.Word.{sub32}
use espidf_component_webmana.Esp.{◌>>=◌, esp_ok}
use espidf_component_webmana.Files.Disk.{Connection}
use espidf_component_webmana.Files.{Reception, complete, receive_failed, write_failed}

-- The next partition for updates, esp_ota_begin and so on.
pub record Updater : Type 1 where
  pub World : Type 0
  pub begin : World → ℕ × World
  pub write : Bytes → World → ℕ × World
  pub end_update : World → ℕ × World
  pub set_boot_partition : World → ℕ × World

-- The updater keeps what was written, and finishes an image that is valid only.
pub record KeepsImage (u : Updater) : Type 0 where
  pub image : u.World → Bytes
  pub is_valid : Bytes → Bool
  pub image-begin : (w : u.World) → (u.begin w).0 ≡ esp_ok → image (u.begin w).1 ≡ []
  pub image-write :
      (s : Bytes) (w : u.World) → (u.write s w).0 ≡ esp_ok → image (u.write s w).1 ≡ image w ++ s
  pub end_update_valid : (w : u.World) → (u.end_update w).0 ≡ esp_ok → is_valid (image w) ≡ true
  pub image-end_update : (w : u.World) → image (u.end_update w).1 ≡ image w
  pub image-set_boot_partition : (w : u.World) → image (u.set_boot_partition w).1 ≡ image w

-- Bytes that are received are the next ones of those under way; the connection may fail at any time.
pub record Arrives (k : Connection) : Type 0 where
  pub pending : k.Peer → Bytes
  pub recv_bounded :
      (size : ℕ) (p : k.Peer)
      → 0 < (k.recv size p).0
      → (k.recv size p).0 < 2 ^ 31
      → ((k.recv size p).0 ≤ size) × ((k.recv size p).0 ≤ length (pending p))
  pub recv-pending :
      (size : ℕ) (p : k.Peer)
      → 0 < (k.recv size p).0
      → (k.recv size p).0 < 2 ^ 31
      → ((k.recv size p).1 ≡ take (k.recv size p).0 (pending p))
        × (pending (k.recv size p).2 ≡ drop (k.recv size p).0 (pending p))

-- abort() of ESP_ERROR_CHECK, an error 500, or a restart with the new image.
pub data Outcome : Type 0 where
  aborted refused restarted : Outcome

-- `recv_len <= 0` of an int. The test for HTTPD_SOCK_ERR_TIMEOUT, a negative number, comes behind it
-- and never holds.
unfoldable pub is_not_positive : ℕ → Bool
is_not_positive recv_len = recv_len == 0 || leb (2 ^ 31) recv_len

module _ (u : Updater) where
  -- After the loop.
  unfoldable pub activate : Reception × u.World → Outcome × u.World
  activate (complete, w) =
      let (ended, w₁) = u.end_update w in
      let (ret, w₂) = u.set_boot_partition w₁ in
      if not (ended == esp_ok)
      then (refused, w₁)
      else if not (ret == esp_ok)
      then (refused, w₂)
      else (restarted, w₂)
  activate (receive_failed, w) = (refused, w)
  activate (write_failed, w) = (refused, w)

module _ (u : Updater) (k : Connection) where
  unfoldable pub ota_loop : (fuel remaining : ℕ) → u.World → k.Peer → Option (Reception × u.World)
  unfolding is_not_positive sub32
  ota_loop zero remaining w peer = if remaining == 0 then some (complete, w) else none
  ota_loop (suc fuel) remaining w peer =
      let (recv_len, buf, peer') = k.recv (min remaining 1024) peer in
      let (ret, w') = u.write buf w in
      let rest = ota_loop fuel (sub32 remaining recv_len) w' peer' in
      if remaining == 0
      then some (complete, w)
      else if is_not_positive recv_len
      then some (receive_failed, w)
      else if not (ret == esp_ok)
      then some (write_failed, w')
      else rest

  unfoldable pub handle_ota_post :
      (fuel content_len : ℕ) → u.World → k.Peer → Option (Outcome × u.World)
  unfolding ota_loop activate
  handle_ota_post fuel content_len w peer =
      let (ret, w') = u.begin w in
      if not (ret == esp_ok)
      then some (aborted, w')
      else (ota_loop fuel content_len w' peer >>= λ x. some (activate u x))
