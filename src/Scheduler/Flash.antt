-- ===== src/Scheduler/Flash.antt =====
-- What cpp/scheduler.hh and cpp/scheduler_timers.hh call: the blobs in the non-volatile storage, the
-- generated codec of the schedules, and the floating-point arithmetic of the hours.
use espidf_component_webmana.Prelude.{
  ℕ, ◌≡◌, ◌≢◌, Bool, true, false, Option, none, some, List, [], ◌∷◌, ◌||◌, if◌then◌else◌,
}
use espidf_component_webmana.Prelude.Text.{Bytes, same_text}
use espidf_component_webmana.Esp.{esp_ok}

-- The handle nvsSchedulerHandle. `keys` are the keys that the iterator over its blobs visits.
pub record Blobs : Type 1 where
  pub World : Type 0
  pub keys : World → List Bytes
  pub get_blob : Bytes → World → Bytes
  pub set_blob : Bytes → Bytes → World → ℕ × World
  pub erase_key : Bytes → World → ℕ × World
  pub commit : World → ℕ × World

unfoldable pub listed : List Bytes → Bytes → Bool
listed [] key = false
listed (k ∷ ks) key = same_text k key || listed ks key

abbrev pub is_some {ℓ} : {A : Type ℓ} → Option A → Bool
is_some none = false
is_some (some a) = true

-- The storage behaves as a map from keys to blobs, all of which the iterator visits: a blob that was
-- set is there, and a call touches no other key than its own. `restart` is what is left after a restart
-- of the device: of what was written, only what a successful nvs_commit has followed is sure to be.
pub record KeepsBlobs (b : Blobs) : Type 0 where
  pub blob : Bytes → b.World → Option Bytes
  pub listed-keys : (k : Bytes) (w : b.World) → listed (b.keys w) k ≡ is_some (blob k w)
  pub get_blob-some : (k v : Bytes) (w : b.World) → blob k w ≡ some v → b.get_blob k w ≡ v
  pub blob-set_blob :
      (k v : Bytes) (w : b.World) (j : Bytes)
      → (b.set_blob k v w).0 ≡ esp_ok
      → blob j (b.set_blob k v w).1 ≡ (if same_text k j then some v else blob j w)
  pub blob-erase_key :
      (k : Bytes) (w : b.World) (j : Bytes)
      → same_text k j ≡ false
      → blob j (b.erase_key k w).1 ≡ blob j w
  pub blob-commit : (w : b.World) (j : Bytes) → blob j (b.commit w).1 ≡ blob j w
  pub restart : b.World → b.World
  pub blob-restart :
      (w : b.World) (j : Bytes)
      → (b.commit w).0 ≡ esp_ok
      → blob j (restart (b.commit w).1) ≡ blob j w

-- A tagged variant of a schedule; the minutes are uint16_t.
pub data Variant : Type 0 where
  predefined : Variant
  one_week : Bytes → Variant
  sun : (offset_minutes random_minutes : ℕ) → Variant

pub data ScheduleType : Type 0 where
  predefined_type one_week_type sun_random_type : ScheduleType

-- Schedule::Payload, and the payloads of the requests.
pub record Schedule : Type 0 where
  pub name : Bytes
  pub schedule_data : Bytes

pub record SaveRequest : Type 0 where
  pub request_id : ℕ
  pub payload_data : Bytes

pub record NameRequest : Type 0 where
  pub request_id : ℕ
  pub name : Bytes

pub record RenameRequest : Type 0 where
  pub request_id : ℕ
  pub old_name : Bytes
  pub new_name : Bytes

-- The namespace WsProtocol::scheduler. Where nothing was written or appended there is [].
pub record Codec : Type 0 where
  pub namespace_id : ℕ
  pub list_id : ℕ
  pub delete_id : ℕ
  pub rename_id : ℕ
  pub save_id : ℕ
  pub open_id : ℕ
  pub decode_list : Bytes → Option ℕ
  pub decode_delete : Bytes → Option NameRequest
  pub decode_rename : Bytes → Option RenameRequest
  pub decode_save : Bytes → Option SaveRequest
  pub decode_open : Bytes → Option NameRequest
  -- DecodeRequestSchedulerSavePayloadElements for one element: what it gives to the callback, and its
  -- result.
  pub save_elements : Bytes → Option Schedule × Bool
  pub decode_schedule : Bytes → Option Schedule
  pub encode_schedule : Schedule → (size : ℕ) → Bytes
  pub decode_variant : Bytes → Option Variant
  pub encode_variant : Variant → (size : ℕ) → Bytes
  -- AppendResponseSchedulerOpenPayloadScheduleElement
  pub schedule_element : Schedule → (size : ℕ) → Bytes
  pub encode_open : (request_id : ℕ) → Bytes → (size : ℕ) → Bytes
  -- AppendResponseSchedulerListItemsSchedulerListItemElement to what is in the buffer, if there is room
  pub append_item : Bytes → ScheduleType → Bytes → (size : ℕ) → Option Bytes
  pub encode_list : (request_id items_count : ℕ) → Bytes → (size : ℕ) → Bytes
  -- `minutes / 60.0` as a float, and `(uint16_t)(hours * 60)`
  pub hours_of_minutes : ℕ → ℕ
  pub minutes_of_hours : ℕ → ℕ

-- What was written decodes to what was encoded.
pub record RoundTrips (c : Codec) : Type 0 where
  pub decode_schedule-encode_schedule :
      (s : Schedule) (size : ℕ)
      → c.encode_schedule s size ≢ []
      → c.decode_schedule (c.encode_schedule s size) ≡ some s
  pub decode_variant-encode_variant :
      (v : Variant) (size : ℕ)
      → c.encode_variant v size ≢ []
      → c.decode_variant (c.encode_variant v size) ≡ some v
