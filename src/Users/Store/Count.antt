-- ===== src/Users/Store/Count.antt =====
-- What the number of administrators says: with two of them, any user can be spared.
use espidf_component_webmana.Prelude.{
  take-drop, ◌-◌, ◌<◌, ◌≡◌, ◌≢◌, sym, ◌∙◌, ap, inl, inr, true, List, [], ◌∷◌, ◌++◌, arith, All,
  length, take, drop, Bool-cases, Option-cases,
}
use espidf_component_webmana.Prelude.Text.{Bytes, codes, same_text, same_text_iff}
use espidf_component_webmana.Users.Platform.{Entry, Platform, KeepsFiles, AllApart, Apart}
use espidf_component_webmana.Users.Store.{
  is_record_name, record_names, list_usernames, is_admin, count_among, count_admins,
}

-- The user's name of a record's file.
abbrev stem : Bytes → Bytes
stem name = take (length name - 4) name

stem_lem : (name : Bytes) → is_record_name name ≡ true → name ≡ stem name ++ codes ".bin"
unfolding is_record_name
stem_lem name h =
    let suffix : drop (length name - 4) name ≡ codes ".bin" =
      (same_text_iff (drop (length name - 4) name) (codes ".bin")).0 (ground arith) in
    sym (take-drop (length name - 4) name) ∙ ap (λ x. stem name ++ x) suffix

stem-injective :
    (m n : Bytes) → is_record_name m ≡ true → is_record_name n ≡ true → stem m ≡ stem n → m ≡ n
stem-injective m n h k e = stem_lem m h ∙ ap (λ x. x ++ codes ".bin") e ∙ sym (stem_lem n k)

abbrev Distinct : List Bytes → Type 0
Distinct [] = Unit
Distinct (n ∷ ns) = All (λ m. n ≢ m) ns × Distinct ns

record_names-Apart :
    (e : Entry) (es : List Entry)
    → is_record_name e.name ≡ true
    → Apart e es
    → All (λ m. stem e.name ≢ m) (record_names es)
unfolding record_names
record_names-Apart e [] h a = tt
record_names-Apart e (f ∷ fs) h a =
    ground (arith, stem-injective e.name f.name, record_names-Apart e fs h)

record_names-Distinct : (es : List Entry) → AllApart es → Distinct (record_names es)
unfolding record_names
record_names-Distinct [] a = tt
record_names-Distinct (e ∷ es) a = ground (arith, record_names-Distinct es, record_names-Apart e es)

list_usernames-Distinct :
    (p : Platform) → KeepsFiles p → (w : p.World) → Distinct (list_usernames p w)
unfolding list_usernames
list_usernames-Distinct p k w = elim (Option-cases (p.opendir (codes "/spiffs/users") w)) [
  | inl missing ↦ rw (missing, list_usernames) tt
  | inr (es, found) ↦
      rw (found, list_usernames) (record_names-Distinct es (k.opendir-AllApart _ w es found))
]

module _ (p : Platform) (w : p.World) where
  some_admin :
      (name : Bytes) (names : List Bytes)
      → All (λ m. name ≢ m) names
      → 0 < count_among p names w
      → (m : Bytes) × (is_admin p m w ≡ true) × (name ≢ m)
  unfolding count_among
  some_admin name [] a h = absurd (omega arith)
  some_admin name (m ∷ names) a h = elim (Bool-cases (is_admin p m w)) [
    | inl holds ↦ (m, holds, a.0)
    | inr lacks ↦ some_admin name names a.1 (ground arith)
  ]

  other_admin :
      (username : Bytes) (names : List Bytes)
      → Distinct names
      → 1 < count_among p names w
      → (m : Bytes) × (is_admin p m w ≡ true) × (username ≢ m)
  unfolding count_among
  other_admin username [] d h = absurd (omega arith)
  other_admin username (m ∷ names) d h = elim (Bool-cases (is_admin p m w)) [
    | inl holds ↦ elim (Bool-cases (same_text username m)) [
      | inl same ↦
          let (n, admin_n, ne) = some_admin m names d.0 (ground arith) in
          (n, admin_n, λ e. ne (sym ((same_text_iff username m).0 same) ∙ e))
      | inr differs ↦ (m, holds, λ e. cc (differs, (same_text_iff username m).1 e))
    ]
    | inr lacks ↦ other_admin username names d.1 (ground arith)
  ]

-- If there is more than one administrator, then one has another name than the given.
pub count_admins-other :
    (p : Platform)
    → KeepsFiles p
    → (w : p.World) (username : Bytes) → 1 < count_admins p w
    → (m : Bytes) × (is_admin p m w ≡ true) × (username ≢ m)
unfolding count_admins
count_admins-other p k w username h =
    other_admin p w username (list_usernames p w) (list_usernames-Distinct p k w) h
