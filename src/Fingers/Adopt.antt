-- ===== src/Fingers/Adopt.antt =====
-- cpp/r503pro_manager.hh: `Begin` stores a name, an action and a schedule for each finger that the reader
-- knows and the storage does not. `none` is the abort of ESP_ERROR_CHECK.
use espidf_component_webmana.Prelude.{
  ℕ, zero, suc, ◌+◌, ◌*◌, ◌^◌, ◌<◌, ◌≡◌, ◌≢◌, sym, ap, ◌∙◌, ◌⊎◌, inl, inr, bit_and, Bool, true,
  false, not, Option, none, some, [], ◌∷◌, ◌++◌, arith, ◌==◌, ==_iff, if◌then◌else◌, Bool-cases,
  length, get_or,
}
use mathlib.Core.Path.{subst}
use espidf_component_webmana.Prelude.Text.{Bytes, codes, same_text, same_text_refl}
use espidf_component_webmana.Esp.{
  ◌>>=◌, esp_ok, esp_err_nvs_not_found, esp_error_check, bind-eq-some, esp_error_check-eq-some,
  eq_of_some,
}
use espidf_component_webmana.Fingers.Storage.{Nvs, actions, number, KeepsEntries}
use espidf_component_webmana.Fingers.{index_key, store_finger}
use espidf_component_webmana.Fingers.Laws.{store_finger_lem}

-- `the_byte & (1 << biti)`
abbrev pub bit_set : (byte biti : ℕ) → Bool
bit_set byte biti = not (bit_and byte (2 ^ biti) == 0)

module _ (n : Nvs) where
  -- The six calls are those of store_finger, and each aborts on an error.
  unfoldable pub adopt_finger : ℕ → n.World → Option n.World
  unfolding index_key store_finger
  adopt_finger finger_index w =
      let key = index_key finger_index in
      if (n.get_u16 actions key w).0 == esp_err_nvs_not_found
      then esp_error_check (store_finger n (codes "Finger " ++ key) finger_index w)
      else some w

  -- The `left` bits of a byte from `biti` on; `finger_index` counts the bits of all bytes.
  unfoldable pub adopt_bits : (left byte biti finger_index : ℕ) → n.World → Option n.World
  unfolding adopt_finger
  adopt_bits zero byte biti finger_index w = some w
  adopt_bits (suc left) byte biti finger_index w =
      (if bit_set byte biti then adopt_finger finger_index w else some w) >>= λ w'.
      adopt_bits left byte (suc biti) (suc finger_index) w'

  unfoldable pub adopt_all :
      (library_indices_used : Bytes) (finger_index : ℕ) → n.World → Option n.World
  unfolding adopt_bits
  adopt_all [] finger_index w = some w
  adopt_all (the_byte ∷ bytes) finger_index w =
      adopt_bits 8 the_byte 0 finger_index w >>= λ w'. adopt_all bytes (8 + finger_index) w'

module _ (n : Nvs) (k : KeepsEntries n) where
  -- A finger has an action.
  abbrev pub IsKnown : ℕ → n.World → Type 0
  IsKnown i w = k.entry actions (index_key i) w ≢ none

  adopt_finger_cases :
      (i : ℕ) (w w' : n.World)
      → adopt_finger n i w ≡ some w'
      → (store_finger n (codes "Finger " ++ index_key i) i w ≡ (esp_ok, w'))
        ⊎ ((w ≡ w') × ((n.get_u16 actions (index_key i) w).0 ≢ esp_err_nvs_not_found))
  unfolding adopt_finger
  adopt_finger_cases i w w' e =
      elim (Bool-cases ((n.get_u16 actions (index_key i) w).0 == esp_err_nvs_not_found)) [
        | inl missing ↦ inl (
            esp_error_check-eq-some (store_finger n (codes "Finger " ++ index_key i) i w)
              (rw missing at e))
        | inr known ↦ inr (
          eq_of_some (rw known at e),
          λ z. cc (known, (==_iff (n.get_u16 actions (index_key i) w).0 esp_err_nvs_not_found).1 z),
        )
      ]

  stored_action_entry :
      (i : ℕ) (name : Bytes) (w w' : n.World) (j : Bytes)
      → store_finger n name i w ≡ (esp_ok, w')
      → k.entry actions j w'
        ≡ (if same_text (index_key i) j then some (number 0) else k.entry actions j w)
  stored_action_entry i name w w' j e = store_finger_lem n k name i w w' actions j e

  adopt_finger-keeps :
      (i : ℕ) (w w' : n.World) (j : ℕ) → adopt_finger n i w ≡ some w' → IsKnown j w → IsKnown j w'
  adopt_finger-keeps i w w' j e known z = elim (adopt_finger_cases i w w' e) [
    | inl stored ↦ elim (Bool-cases (same_text (index_key i) (index_key j))) [
      | inl same ↦ cc (
        z,
        rw same at
            (stored_action_entry i (codes "Finger " ++ index_key i) w w' (index_key j) stored),
      )
      | inr other ↦ known (
          sym (
            rw other at
              (stored_action_entry i (codes "Finger " ++ index_key i) w w' (index_key j) stored))
          ∙ z)
    ]
    | inr (same, found) ↦ known (ap (λ v. k.entry actions (index_key j) v) same ∙ z)
  ]

  adopt_finger-IsKnown : (i : ℕ) (w w' : n.World) → adopt_finger n i w ≡ some w' → IsKnown i w'
  adopt_finger-IsKnown i w w' e z = elim (adopt_finger_cases i w w' e) [
    | inl stored ↦ cc (
      z,
      rw (same_text_refl (index_key i)) at
          (stored_action_entry i (codes "Finger " ++ index_key i) w w' (index_key i) stored),
    )
    | inr (same, found) ↦ found (
        k.get_u16-none actions (index_key i) w (ap (λ v. k.entry actions (index_key i) v) same ∙ z))
  ]

  -- Every finger whose bit is set among the `left` bits has an action.
  abbrev BitsKnown : (left byte biti finger_index : ℕ) → n.World → Type 0
  BitsKnown zero byte biti i w = Unit
  BitsKnown (suc left) byte biti i w =
      (bit_set byte biti ≡ true → IsKnown i w) × BitsKnown left byte (suc biti) (suc i) w

  -- The same for a table.
  abbrev TableKnown : Bytes → (finger_index : ℕ) → n.World → Type 0
  TableKnown [] i w = Unit
  TableKnown (byte ∷ bytes) i w = BitsKnown 8 byte 0 i w × TableKnown bytes (8 + i) w

  -- What is known in `w` is known in `w'`.
  abbrev Grows : n.World → n.World → Type 0
  Grows w w' = (j : ℕ) → IsKnown j w → IsKnown j w'

  BitsKnown-Grows :
      (left byte biti i : ℕ) (w w' : n.World)
      → Grows w w'
      → BitsKnown left byte biti i w
      → BitsKnown left byte biti i w'
  BitsKnown-Grows zero byte biti i w w' g h = tt
  BitsKnown-Grows (suc left) byte biti i w w' g h =
      ((λ b. g i (h.0 b)), BitsKnown-Grows left byte (suc biti) (suc i) w w' g h.1)

  adopt_bit_lem :
      (b : Bool) (i : ℕ) (w w' : n.World)
      → (if b then adopt_finger n i w else some w) ≡ some w'
      → Grows w w' × (b ≡ true → IsKnown i w')
  adopt_bit_lem true i w w' e =
      ((λ j. adopt_finger-keeps i w w' j e), λ t. adopt_finger-IsKnown i w w' e)
  adopt_bit_lem false i w w' e =
      ((λ j known z. known (ap (λ v. k.entry actions (index_key j) v) (eq_of_some e) ∙ z)), λ t. cc)

  adopt_bits_lem :
      (left byte biti i : ℕ) (w w' : n.World)
      → adopt_bits n left byte biti i w ≡ some w'
      → Grows w w' × BitsKnown left byte biti i w'
  unfolding adopt_bits
  adopt_bits_lem zero byte biti i w w' e =
      ((λ j known z. known (ap (λ v. k.entry actions (index_key j) v) (eq_of_some e) ∙ z)), tt)
  adopt_bits_lem (suc left) byte biti i w w' e =
      let (w₁, first, rest) =
        bind-eq-some (if bit_set byte biti then adopt_finger n i w else some w)
          (λ v. adopt_bits n left byte (suc biti) (suc i) v) e in
      let (g, known) = adopt_bit_lem (bit_set byte biti) i w w₁ first in
      let (g', more) = adopt_bits_lem left byte (suc biti) (suc i) w₁ w' rest in
      ((λ j h. g' j (g j h)), ((λ b. g' i (known b)), more))

  adopt_all-TableKnown :
      (bytes : Bytes) (i : ℕ) (w w' : n.World)
      → adopt_all n bytes i w ≡ some w'
      → TableKnown bytes i w' × ((j : ℕ) → IsKnown j w → IsKnown j w')
  unfolding adopt_all
  adopt_all-TableKnown [] i w w' e =
      (tt, λ j known z. known (ap (λ v. k.entry actions (index_key j) v) (eq_of_some e) ∙ z))
  adopt_all-TableKnown (byte ∷ bytes) i w w' e =
      let (w₁, first, rest) =
        bind-eq-some (adopt_bits n 8 byte 0 i w) (λ v. adopt_all n bytes (8 + i) v) e in
      let (g, known) = adopt_bits_lem 8 byte 0 i w w₁ first in
      let (more, g') = adopt_all-TableKnown bytes (8 + i) w₁ w' rest in
      ((BitsKnown-Grows 8 byte 0 i w₁ w' g' known, more), λ j h. g' j (g j h))

  BitsKnown-at :
      (left byte biti i q : ℕ) (w : n.World)
      → q < left
      → bit_set byte (biti + q) ≡ true
      → BitsKnown left byte biti i w
      → IsKnown (i + q) w
  BitsKnown-at zero byte biti i q w h b known = elim h [ ]
  BitsKnown-at (suc left) byte biti i zero w h b known =
      subst (λ v. IsKnown v w) (omega arith)
        (known.0 (subst (λ v. bit_set byte v ≡ true) (omega arith) b))
  BitsKnown-at (suc left) byte biti i (suc q) w h b known =
      subst (λ v. IsKnown v w) (omega arith)
        (BitsKnown-at left byte (suc biti) (suc i) q w (omega arith)
          (subst (λ v. bit_set byte v ≡ true) (omega arith) b) known.1)

  TableKnown-at :
      (bytes : Bytes) (i p q : ℕ) (w : n.World)
      → p < length bytes
      → q < 8
      → bit_set (get_or bytes p 0) q ≡ true
      → TableKnown bytes i w
      → IsKnown (i + (8 * p + q)) w
  TableKnown-at [] i p q w h k' b known = absurd (omega arith)
  TableKnown-at (byte ∷ bytes) i zero q w h k' b known =
      subst (λ v. IsKnown v w) (omega arith)
        (BitsKnown-at 8 byte 0 i q w k' (subst (λ v. bit_set byte v ≡ true) (omega arith) b)
          known.0)
  TableKnown-at (byte ∷ bytes) i (suc p) q w h k' b known =
      subst (λ v. IsKnown v w) (omega arith)
        (TableKnown-at bytes (8 + i) p q w (omega arith) k' b known.1)

  -- If `Begin` is not aborted, every finger whose bit q of byte p is set in the reader's table has an
  -- action in the storage then.
  pub adopt_all-IsKnown :
      (library_indices_used : Bytes) (w w' : n.World) (p q : ℕ)
      → adopt_all n library_indices_used 0 w ≡ some w'
      → p < length library_indices_used
      → q < 8
      → bit_set (get_or library_indices_used p 0) q ≡ true
      → IsKnown (8 * p + q) w'
  adopt_all-IsKnown library_indices_used w w' p q e h k' b =
      subst (λ v. IsKnown v w') (omega arith)
        (TableKnown-at library_indices_used 0 p q w' h k' b
          (adopt_all-TableKnown library_indices_used 0 w w' e).0)
