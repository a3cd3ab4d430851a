-- ===== src/Scheduler/Memory.antt =====
-- A flash in memory and a codec with a length before each name, which meet the assumptions.
use espidf_component_webmana.Prelude.{
  ℕ, zero, suc, ◌≡◌, refl, sym, ap, ◌∙◌, inl, inr, true, false, Option, none, some, List, [], ◌∷◌,
  ◌++◌, ◌==◌, if◌then◌else◌, length, arith, Bool-cases,
}
use espidf_component_webmana.Prelude.Text.{Bytes, same_text, same_text_iff}
use espidf_component_webmana.Esp.{esp_ok}
use espidf_component_webmana.Scheduler.Flash.{
  Blobs, KeepsBlobs, Codec, RoundTrips, Variant, predefined, one_week, sun, Schedule, listed,
  is_some,
}

abbrev Store : Type 0
Store = List (Bytes × Bytes)

abbrev look_up : Bytes → Store → Option Bytes
look_up k [] = none
look_up k ((j, v) ∷ w) = if same_text j k then some v else look_up k w

abbrev remove : Bytes → Store → Store
remove k [] = []
remove k ((j, v) ∷ w) = let rest = remove k w in if same_text j k then rest else (j, v) ∷ rest

abbrev keys : Store → List Bytes
keys [] = []
keys ((j, v) ∷ w) = j ∷ keys w

abbrev value_or_empty : Option Bytes → Bytes
value_or_empty none = []
value_or_empty (some v) = v

-- What is written, and what of it is committed and survives a restart.
abbrev pub blobs : Blobs
blobs = record {
  World = Store × Store;
  keys = λ w. keys w.0;
  get_blob = λ k w. value_or_empty (look_up k w.0);
  set_blob = λ k v w. (esp_ok, ((k, v) ∷ remove k w.0, w.1));
  erase_key = λ k w. (esp_ok, (remove k w.0, w.1));
  commit = λ w. (esp_ok, (w.0, w.0));
}

pub listed-keys : (k : Bytes) (w : Store) → listed (keys w) k ≡ is_some (look_up k w)
unfolding listed
listed-keys k [] = refl
listed-keys k ((j, v) ∷ w) = ground (arith, listed-keys k w)

same_join : (a b n : Bytes) → same_text a n ≡ true → same_text b n ≡ true → same_text a b ≡ true
same_join a b n e f =
    (same_text_iff a b).1 ((same_text_iff a n).0 e ∙ sym ((same_text_iff b n).0 f))

pub look_up-remove :
    (k : Bytes) (w : Store) (j : Bytes)
    → same_text k j ≡ false
    → look_up j (remove k w) ≡ look_up j w
look_up-remove k [] j other = refl
look_up-remove k ((i, v) ∷ w) j other = elim (Bool-cases (same_text i k)) [
  | inl same ↦
      let differs : same_text i j ≡ false =
        ap (λ s. same_text s j) ((same_text_iff i k).0 same) ∙ other in
      rw (same, differs) (look_up-remove k w j other)
  | inr kept ↦ rw (kept, look_up-remove k w j other) refl
]

pub look_up-set :
    (k v : Bytes) (w : Store) (j : Bytes)
    → look_up j ((k, v) ∷ remove k w) ≡ (if same_text k j then some v else look_up j w)
look_up-set k v w j = elim (Bool-cases (same_text k j)) [
  | inl same ↦ rw same refl
  | inr other ↦ rw other (look_up-remove k w j other)
]

abbrev pub blobs-KeepsBlobs : KeepsBlobs blobs
blobs-KeepsBlobs = record {
  blob = λ k w. look_up k w.0;
  listed-keys = λ k w. listed-keys k w.0;
  get_blob-some = λ k v w e. ap value_or_empty e;
  blob-set_blob = λ k v w j e. look_up-set k v w.0 j;
  blob-erase_key = λ k w j other. look_up-remove k w.0 j other;
  blob-commit = λ w j. refl;
  restart = λ w. (w.1, w.1);
  blob-restart = λ w j e. refl;
}

-- The first `n` bytes, and the rest.
abbrev split_at : ℕ → Bytes → Bytes × Bytes
split_at zero s = ([], s)
split_at (suc n) [] = ([], [])
split_at (suc n) (c ∷ s) = let (front, rest) = split_at n s in (c ∷ front, rest)

split_at-length : (a s : Bytes) → split_at (length a) (a ++ s) ≡ (a, s)
split_at-length [] s = refl
split_at-length (c ∷ a) s = ap (λ (p : Bytes × Bytes). (c ∷ p.0, p.1)) (split_at-length a s)

abbrev decode_schedule : Bytes → Option Schedule
decode_schedule [] = none
decode_schedule (n ∷ s) =
    let (name, schedule_data) = split_at n s in
    some (record { name = name; schedule_data = schedule_data })

abbrev encode_variant : Variant → Bytes
encode_variant predefined = 1 ∷ []
encode_variant (one_week bytes) = 2 ∷ bytes
encode_variant (sun offset random) = 3 ∷ offset ∷ random ∷ []

abbrev decode_sun : Bytes → Option Variant
decode_sun (offset ∷ random ∷ []) = some (sun offset random)
decode_sun s = none

abbrev decode_variant : Bytes → Option Variant
decode_variant [] = none
decode_variant (tag ∷ s) =
    if tag == 1 then some predefined else if tag == 2 then some (one_week s) else decode_sun s

abbrev pub codec : Codec
codec = record {
  namespace_id = 3;
  list_id = 1;
  delete_id = 2;
  rename_id = 3;
  save_id = 4;
  open_id = 5;
  decode_list = λ s. none;
  decode_delete = λ s. none;
  decode_rename = λ s. none;
  decode_save = λ s. none;
  decode_open = λ s. none;
  save_elements = λ s. (decode_schedule s, is_some (decode_schedule s));
  decode_schedule = decode_schedule;
  encode_schedule = λ s size. length s.name ∷ s.name ++ s.schedule_data;
  decode_variant = decode_variant;
  encode_variant = λ v size. encode_variant v;
  schedule_element = λ s size. s.name ++ s.schedule_data;
  encode_open = λ id s size. id ∷ s;
  append_item = λ name type items size. some (items ++ name);
  encode_list = λ id n items size. id ∷ n ∷ items;
  hours_of_minutes = λ m. m;
  minutes_of_hours = λ m. m;
}

decode_variant-encode_variant : (v : Variant) → decode_variant (encode_variant v) ≡ some v
decode_variant-encode_variant predefined = refl
decode_variant-encode_variant (one_week bytes) = refl
decode_variant-encode_variant (sun offset random) = refl

pub codec-RoundTrips : RoundTrips codec
codec-RoundTrips = record {
  decode_schedule-encode_schedule = λ s size written.
      ap (λ (p : Bytes × Bytes). some (record { name = p.0; schedule_data = p.1 }))
        (split_at-length s.name s.schedule_data);
  decode_variant-encode_variant = λ v size written. decode_variant-encode_variant v;
}
