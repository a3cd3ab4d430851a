-- ===== src/Users/Form.antt =====
-- cpp/webmanager_base.hh: how the handlers take the fields of a form out of a request's body.
pub mod Encoding
pub mod Fields
use espidf_component_webmana.Prelude.{
  ℕ, ◌+◌, ◌*◌, Bool, true, false, ◌&&◌, Option, none, some, [], ◌∷◌, ◌==◌, if◌then◌else◌, drop,
  length,
}
use espidf_component_webmana.Prelude.Text.{Bytes, c_str}
use espidf_component_webmana.CLib.{is_xdigit, xdigit_value, strstr, scan_field}

-- `'+'` is a space, and any other byte that begins no escape stands for itself.
unfoldable pub plain : ℕ → ℕ
plain c = if c == b'+' then 32 else c

-- The text that is left at the beginning of the buffer. An escape has two digits, both before the
-- terminator.
unfoldable pub url_decode : Bytes → Bytes
unfolding plain
url_decode [] = []
url_decode (c ∷ []) = plain c ∷ []
url_decode (c ∷ h ∷ []) = plain c ∷ url_decode (h ∷ [])
url_decode (c ∷ h ∷ l ∷ s) = elim (c == b'%' && is_xdigit h && is_xdigit l) [
  | true ↦ (16 * xdigit_value h + xdigit_value l) ∷ url_decode s
  | false ↦ plain c ∷ url_decode (h ∷ l ∷ s)
]

-- The content of a buffer of 64 bytes, from the text behind the field's name.
unfoldable pub field_value : Bytes → Bytes
unfolding scan_field url_decode c_str
field_value s = c_str (url_decode (scan_field 63 s))

-- `strstr(buf, name)`, and the value behind it.
unfoldable pub find_field : Bytes → Bytes → Option Bytes
unfolding field_value
find_field name buf = elim (strstr name buf) [
  | none ↦ none
  | some s ↦ some (field_value (drop (length name) s))
]
