-- ===== src/Fingers/Storage.antt =====
-- What cpp/r503pro_manager.hh calls of the non-volatile storage, in the three namespaces that it holds.
use espidf_component_webmana.Prelude.{
  ℕ, ◌≡◌, Bool, true, false, ◌&&◌, Option, none, some, if◌then◌else◌,
}
use espidf_component_webmana.Prelude.Text.{Bytes, same_text}
use espidf_component_webmana.Esp.{esp_ok, esp_err_nvs_not_found}

-- nvsFingerName2FingerIndex, nvsFingerIndex2SchedulerName and nvsFingerIndex2ActionIndex
pub data Namespace : Type 0 where
  names schedulers actions : Namespace

abbrev pub same_namespace : Namespace → Namespace → Bool
same_namespace names names = true
same_namespace schedulers schedulers = true
same_namespace actions actions = true
same_namespace a b = false

pub data Value : Type 0 where
  number : ℕ → Value
  text : Bytes → Value

pub record Nvs : Type 1 where
  pub World : Type 0
  pub get_u16 : Namespace → Bytes → World → ℕ × ℕ
  pub set_u16 : Namespace → Bytes → ℕ → World → ℕ × World
  pub get_str : Namespace → Bytes → World → ℕ × Bytes
  pub set_str : Namespace → Bytes → Bytes → World → ℕ × World
  pub erase_key : Namespace → Bytes → World → ℕ × World
  pub erase_all : Namespace → World → ℕ × World
  pub commit : Namespace → World → ℕ × World

abbrev pub same_entry : Namespace → Bytes → Namespace → Bytes → Bool
same_entry a k b j = same_namespace a b && same_text k j

-- The storage behaves as a map of typed entries: a call that succeeds changes its own entry alone, and
-- a read gives the entry's value, or ESP_ERR_NVS_NOT_FOUND where there is none.
pub record KeepsEntries (n : Nvs) : Type 0 where
  pub entry : Namespace → Bytes → n.World → Option Value
  pub entry-set_u16 :
      (a : Namespace) (k : Bytes) (v : ℕ) (w w' : n.World) (b : Namespace) (j : Bytes)
      → n.set_u16 a k v w ≡ (esp_ok, w')
      → entry b j w' ≡ (if same_entry a k b j then some (number v) else entry b j w)
  pub entry-set_str :
      (a : Namespace) (k s : Bytes) (w w' : n.World) (b : Namespace) (j : Bytes)
      → n.set_str a k s w ≡ (esp_ok, w')
      → entry b j w' ≡ (if same_entry a k b j then some (text s) else entry b j w)
  pub entry-erase_key :
      (a : Namespace) (k : Bytes) (w w' : n.World) (b : Namespace) (j : Bytes)
      → n.erase_key a k w ≡ (esp_ok, w')
      → entry b j w' ≡ (if same_entry a k b j then none else entry b j w)
  -- A key that is there can be erased, and erasing one that is not changes nothing.
  pub erase_key_present :
      (a : Namespace) (k : Bytes) (v : Value) (w : n.World)
      → entry a k w ≡ some v
      → (n.erase_key a k w).0 ≡ esp_ok
  pub erase_key_missing :
      (a : Namespace) (k : Bytes) (w : n.World) (b : Namespace) (j : Bytes)
      → entry a k w ≡ none
      → entry b j (n.erase_key a k w).1 ≡ entry b j w
  pub entry-erase_all :
      (a : Namespace) (w w' : n.World) (b : Namespace) (j : Bytes)
      → n.erase_all a w ≡ (esp_ok, w')
      → entry b j w' ≡ (if same_namespace a b then none else entry b j w)
  pub entry-commit :
      (a : Namespace) (w : n.World) (b : Namespace) (j : Bytes)
      → entry b j (n.commit a w).1 ≡ entry b j w
  pub get_u16-number :
      (a : Namespace) (k : Bytes) (v : ℕ) (w : n.World)
      → entry a k w ≡ some (number v)
      → n.get_u16 a k w ≡ (esp_ok, v)
  pub get_u16_found :
      (a : Namespace) (k : Bytes) (v : ℕ) (w : n.World)
      → n.get_u16 a k w ≡ (esp_ok, v)
      → entry a k w ≡ some (number v)
  pub get_u16_missing :
      (a : Namespace) (k : Bytes) (w : n.World)
      → (n.get_u16 a k w).0 ≡ esp_err_nvs_not_found
      → entry a k w ≡ none
  pub get_u16-none :
      (a : Namespace) (k : Bytes) (w : n.World)
      → entry a k w ≡ none
      → (n.get_u16 a k w).0 ≡ esp_err_nvs_not_found
  pub get_str-text :
      (a : Namespace) (k s : Bytes) (w : n.World)
      → entry a k w ≡ some (text s)
      → n.get_str a k w ≡ (esp_ok, s)
