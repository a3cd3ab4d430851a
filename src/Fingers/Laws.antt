-- ===== src/Fingers/Laws.antt =====
-- What the operations on the stored fingers do to the entries.
use espidf_component_webmana.Prelude.{
  ℕ, ◌≡◌, ◌≢◌, refl, sym, ap, ◌∙◌, inl, inr, true, none, some, arith, ◌==◌, ==_iff, if◌then◌else◌,
  Bool-cases, Option-cases,
}
use espidf_component_webmana.Prelude.Text.{Bytes, codes, same_text_iff}
use espidf_component_webmana.Esp.{esp_ok, esp_err_nvs_not_found}
use espidf_component_webmana.Fingerprint.Ret
use espidf_component_webmana.Fingers.Storage.{
  Nvs, Namespace, names, schedulers, actions, Value, number, text, KeepsEntries, same_entry,
}
use espidf_component_webmana.Fingers.{
  index_key, or_error, or_return, store_finger, rename, x_nvs_not_available,
}

pub or_error-ok :
    {W : Type 0} (r : ℕ × W) (next : W → ℕ × W) (w' : W)
    → or_error r next ≡ (esp_ok, w')
    → (w : W) × (r ≡ (esp_ok, w)) × (next w ≡ (esp_ok, w'))
unfolding or_error
or_error-ok (err, w) next w' e = elim (Bool-cases (err == esp_ok)) [
  | inl ok ↦ (w, ap (λ c. (c, w)) ((==_iff err esp_ok).0 ok), rw ok at e)
  | inr bad ↦ cc (bad, (==_iff err esp_ok).1 (ap (λ r. r.0) (rw bad at e)))
]

pub or_return-ok :
    {W : Type 0} (code : ℕ) (r : ℕ × W) (next : W → ℕ × W) (w' : W)
    → code ≢ 0
    → or_return code r next ≡ (Ret.ok, w')
    → (w : W) × (r ≡ (esp_ok, w)) × (next w ≡ (Ret.ok, w'))
unfolding or_return
or_return-ok code (err, w) next w' ne e = elim (Bool-cases (err == esp_ok)) [
  | inl ok ↦ (w, ap (λ c. (c, w)) ((==_iff err esp_ok).0 ok), rw ok at e)
  | inr bad ↦ absurd (ne (ap (λ r. r.0) (rw bad at e)))
]

module _ (n : Nvs) (k : KeepsEntries n) where
  erase_present :
      (a : Namespace) (key : Bytes) (v : Value) (w : n.World) (b : Namespace) (j : Bytes)
      → k.entry a key w ≡ some v
      → k.entry b j (n.erase_key a key w).1 ≡ (if same_entry a key b j then none else k.entry b j w)
  erase_present a key v w b j e =
      k.entry-erase_key a key w (n.erase_key a key w).1 b j
        (ap (λ c. (c, (n.erase_key a key w).1)) (k.erase_key_present a key v w e))

  pub same_entry_eq :
      (a b : Namespace) (key j : Bytes) (w : n.World)
      → same_entry a key b j ≡ true
      → k.entry b j w ≡ k.entry a key w
  same_entry_eq names names key j w e =
      ap (λ s. k.entry names s w) (sym ((same_text_iff key j).0 e))
  same_entry_eq schedulers schedulers key j w e =
      ap (λ s. k.entry schedulers s w) (sym ((same_text_iff key j).0 e))
  same_entry_eq actions actions key j w e =
      ap (λ s. k.entry actions s w) (sym ((same_text_iff key j).0 e))
  same_entry_eq names schedulers key j w e = cc
  same_entry_eq names actions key j w e = cc
  same_entry_eq schedulers names key j w e = cc
  same_entry_eq schedulers actions key j w e = cc
  same_entry_eq actions names key j w e = cc
  same_entry_eq actions schedulers key j w e = cc

  -- An erasure that is not checked leaves no entry behind either.
  pub erase_lem :
      (a : Namespace) (key : Bytes) (w : n.World) (b : Namespace) (j : Bytes)
      → k.entry b j (n.erase_key a key w).1 ≡ (if same_entry a key b j then none else k.entry b j w)
  erase_lem a key w b j = elim (Option-cases (k.entry a key w)) [
    | inl missing ↦
        k.erase_key_missing a key w b j missing ∙ elim (Bool-cases (same_entry a key b j)) [
          | inl same ↦ rw same (same_entry_eq a b key j w same ∙ missing)
          | inr other ↦ rw other refl
        ]
    | inr (v, found) ↦ erase_present a key v w b j found
  ]

  pub commit_lem :
      (a : Namespace) (w w' : n.World) (b : Namespace) (j : Bytes) (err : ℕ)
      → n.commit a w ≡ (err, w')
      → k.entry b j w' ≡ k.entry b j w
  commit_lem a w w' b j err e = ap (λ q. k.entry b j q.1) (sym e) ∙ k.entry-commit a w b j

  -- Enrolment stores the index, the action 0 and the schedule ALWAYS.
  pub store_finger_lem :
      (name : Bytes) (i : ℕ) (w w' : n.World) (b : Namespace) (j : Bytes)
      → store_finger n name i w ≡ (esp_ok, w')
      → k.entry b j w' ≡ (
          if same_entry schedulers (index_key i) b j
          then some (text (codes "ALWAYS"))
          else if same_entry actions (index_key i) b j
          then some (number 0)
          else if same_entry names name b j
          then some (number i)
          else k.entry b j w)
  unfolding store_finger
  store_finger_lem name i w w' b j e =
      let key = index_key i in
      let (w₁, e₁, r₁) = or_error-ok (n.set_u16 names name i w) _ w' e in
      let (w₂, e₂, r₂) = or_error-ok (n.set_u16 actions key 0 w₁) _ w' r₁ in
      let (w₃, e₃, r₃) = or_error-ok (n.set_str schedulers key (codes "ALWAYS") w₂) _ w' r₂ in
      let (w₄, e₄, r₄) = or_error-ok (n.commit names w₃) _ w' r₃ in
      let (w₅, e₅, e₆) = or_error-ok (n.commit actions w₄) _ w' r₄ in
      commit_lem schedulers w₅ w' b j esp_ok e₆
      ∙ commit_lem actions w₄ w₅ b j esp_ok e₅
      ∙ commit_lem names w₃ w₄ b j esp_ok e₄
      ∙ k.entry-set_str schedulers key (codes "ALWAYS") w₂ w₃ b j e₃
      ∙ ap (λ v. if same_entry schedulers key b j then some (text (codes "ALWAYS")) else v)
          (k.entry-set_u16 actions key 0 w₁ w₂ b j e₂
            ∙ ap (λ v. if same_entry actions key b j then some (number 0) else v)
                (k.entry-set_u16 names name i w w₁ b j e₁))

  -- A successful renaming moves the index from a name that was stored to one that was not, and changes
  -- no other entry.
  pub rename_lem :
      (old_name new_name : Bytes) (w w' : n.World) (b : Namespace) (j : Bytes)
      → rename n old_name new_name w ≡ (Ret.ok, w')
      → (i : ℕ) × (k.entry names old_name w ≡ some (number i))
        × (k.entry names new_name w ≡ none)
        × (k.entry b j w' ≡ (
            if same_entry names new_name b j
            then some (number i)
            else if same_entry names old_name b j
            then none
            else k.entry b j w))
  unfolding rename
  rename_lem old_name new_name w w' b j e =
      elim (Bool-cases ((n.get_u16 names new_name w).0 == esp_err_nvs_not_found)) [
        | inl free ↦ elim (Bool-cases ((n.get_u16 names old_name w).0 == esp_ok)) [
          | inl known ↦
              let i = (n.get_u16 names old_name w).1 in
              let stored : k.entry names old_name w ≡ some (number i) =
                k.get_u16_found names old_name i w
                  (ap (λ c. (c, i)) ((==_iff (n.get_u16 names old_name w).0 esp_ok).0 known)) in
              let missing : k.entry names new_name w ≡ none =
                k.get_u16_missing names new_name w
                  ((==_iff (n.get_u16 names new_name w).0 esp_err_nvs_not_found).0 free) in
              let w₁ = (n.erase_key names old_name w).1 in
              let (w₂, e₂, r₂) =
                or_return-ok x_nvs_not_available (n.set_u16 names new_name i w₁) _ w'
                  (λ z. omega arith) (rw (free, known) at e) in
              let (w₃, e₃, r₃) =
                or_return-ok x_nvs_not_available (n.commit names w₂) _ w' (λ z. omega arith) r₂ in
              (
                i,
                stored,
                missing,
                ap (λ q. k.entry b j q.1) (sym r₃)
                    ∙ commit_lem names w₂ w₃ b j esp_ok e₃
                    ∙ k.entry-set_u16 names new_name i w₁ w₂ b j e₂
                    ∙ ap (λ v. if same_entry names new_name b j then some (number i) else v)
                        (erase_lem names old_name w b j),
              )
          | inr unknown ↦ absurd (ground arith)
        ]
        | inr taken ↦ absurd (ground arith)
      ]
