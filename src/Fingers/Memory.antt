-- ===== src/Fingers/Memory.antt =====
-- A storage in memory that meets the assumptions, for the theorems at concrete data.
use espidf_component_webmana.Prelude.{
  ℕ, ◌≡◌, refl, sym, ap, Option, none, some, [], arith, if◌then◌else◌,
}
use espidf_component_webmana.Prelude.Text.{Bytes}
use espidf_component_webmana.Esp.{esp_ok, esp_err_nvs_not_found}
use espidf_component_webmana.Fingers.Storage.{
  Nvs, Namespace, Value, number, text, KeepsEntries, same_entry, same_namespace,
}

abbrev pub Entries : Type 0
Entries = Namespace → Bytes → Option Value

abbrev pub update : Namespace → Bytes → Option Value → Entries → Entries
update a k v w b j = if same_entry a k b j then v else w b j

-- ESP_ERR_NVS_TYPE_MISMATCH
abbrev type_mismatch : ℕ
type_mismatch = 0x1103

abbrev read_number : Option Value → ℕ × ℕ
read_number none = (esp_err_nvs_not_found, 0)
read_number (some (number v)) = (esp_ok, v)
read_number (some (text s)) = (type_mismatch, 0)

abbrev read_text : Option Value → ℕ × Bytes
read_text none = (esp_err_nvs_not_found, [])
read_text (some (number v)) = (type_mismatch, [])
read_text (some (text s)) = (esp_ok, s)

abbrev erase : Namespace → Bytes → Entries → Option Value → ℕ × Entries
erase a k w none = (esp_err_nvs_not_found, w)
erase a k w (some v) = (esp_ok, update a k none w)

abbrev pub memory : Nvs
memory = record {
  World = Entries;
  get_u16 = λ a k w. read_number (w a k);
  set_u16 = λ a k v w. (esp_ok, update a k (some (number v)) w);
  get_str = λ a k w. read_text (w a k);
  set_str = λ a k s w. (esp_ok, update a k (some (text s)) w);
  erase_key = λ a k w. erase a k w (w a k);
  erase_all = λ a w. (esp_ok, λ b j. if same_namespace a b then none else w b j);
  commit = λ a w. (esp_ok, w);
}

abbrev read_number_found :
    (o : Option Value) (v : ℕ) → read_number o ≡ (esp_ok, v) → o ≡ some (number v)
read_number_found none v e = absurd (omega (arith, ap (λ (q : ℕ × ℕ). q.0) e))
read_number_found (some (number x)) v e = ap (λ (q : ℕ × ℕ). some (number q.1)) e
read_number_found (some (text s)) v e = absurd (omega (arith, ap (λ (q : ℕ × ℕ). q.0) e))

abbrev read_number_missing :
    (o : Option Value) → (read_number o).0 ≡ esp_err_nvs_not_found → o ≡ none
read_number_missing none e = refl
read_number_missing (some (number x)) e = absurd (omega arith)
read_number_missing (some (text s)) e = absurd (omega arith)

abbrev erase_ok :
    (a : Namespace) (k : Bytes) (w w' : Entries) (o : Option Value)
    → erase a k w o ≡ (esp_ok, w')
    → update a k none w ≡ w'
erase_ok a k w w' none e = absurd (omega (arith, ap (λ (q : ℕ × Entries). q.0) e))
erase_ok a k w w' (some v) e = ap (λ (q : ℕ × Entries). q.1) e

unfoldable pub memory-KeepsEntries : KeepsEntries memory
memory-KeepsEntries = record {
  entry = λ a k w. w a k;
  entry-set_u16 = λ a k v w w' b j e. ap (λ (q : ℕ × Entries). q.1 b j) (sym e);
  entry-set_str = λ a k s w w' b j e. ap (λ (q : ℕ × Entries). q.1 b j) (sym e);
  entry-erase_key =
      λ a k w w' b j e. ap (λ (q : Entries). q b j) (sym (erase_ok a k w w' (w a k) e));
  erase_key_present = λ a k v w e. rw e refl;
  erase_key_missing = λ a k w b j e. rw e refl;
  entry-erase_all = λ a w w' b j e. ap (λ (q : ℕ × Entries). q.1 b j) (sym e);
  entry-commit = λ a w b j. refl;
  get_u16-number = λ a k v w e. rw e refl;
  get_u16_found = λ a k v w e. read_number_found (w a k) v e;
  get_u16_missing = λ a k w e. read_number_missing (w a k) e;
  get_u16-none = λ a k w e. rw e refl;
  get_str-text = λ a k s w e. rw e refl;
}
