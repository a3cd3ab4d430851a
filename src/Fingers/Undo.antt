-- ===== src/Fingers/Undo.antt =====
-- Deleting a finger undoes its enrolment.
use espidf_component_webmana.Prelude.{
  ℕ, ◌≡◌, ◌≢◌, refl, sym, ap, ◌∙◌, none, some, arith, if◌then◌else◌,
}
use espidf_component_webmana.Prelude.Text.{Bytes, same_text_refl}
use espidf_component_webmana.Esp.{esp_ok}
use espidf_component_webmana.Fingerprint.Ret
use espidf_component_webmana.Fingerprint.Port.{Port}
use espidf_component_webmana.Fingers.Storage.{
  Nvs, Namespace, names, schedulers, actions, number, KeepsEntries, same_entry,
}
use espidf_component_webmana.Fingers.{index_key, store_finger, forget, x_nvs_not_available}
use espidf_component_webmana.Fingers.Manager.{
  Manager, notify, handle_enrollment_update, delete_finger, try_delete,
}
use espidf_component_webmana.Fingers.Laws.{
  or_return-ok, store_finger_lem, erase_lem, commit_lem, same_entry_eq,
}

module _ (n : Nvs) (k : KeepsEntries n) where
  forget_lem :
      (name : Bytes) (i : ℕ) (w w' : n.World) (b : Namespace) (j : Bytes)
      → forget n name i w ≡ (Ret.ok, w')
      → k.entry b j w' ≡ (
          if same_entry schedulers (index_key i) b j
          then none
          else if same_entry actions (index_key i) b j
          then none
          else if same_entry names name b j
          then none
          else k.entry b j w)
  unfolding forget
  forget_lem name i w w' b j e =
      let key = index_key i in
      let code = x_nvs_not_available in
      let bad : code ≢ 0 = λ z. omega arith in
      let (w₁, e₁, r₁) = or_return-ok code (n.erase_key names name w) _ w' bad e in
      let (w₂, e₂, r₂) = or_return-ok code (n.commit names w₁) _ w' bad r₁ in
      let w₃ = (n.erase_key actions key w₂).1 in
      let (w₄, e₄, r₄) = or_return-ok code (n.commit actions w₃) _ w' bad r₂ in
      let w₅ = (n.erase_key schedulers key w₄).1 in
      let (w₆, e₆, r₆) = or_return-ok code (n.commit schedulers w₅) _ w' bad r₄ in
      ap (λ q. k.entry b j q.1) (sym r₆)
      ∙ commit_lem n k schedulers w₅ w₆ b j esp_ok e₆
      ∙ erase_lem n k schedulers key w₄ b j
      ∙ ap (λ v. if same_entry schedulers key b j then none else v)
          (commit_lem n k actions w₃ w₄ b j esp_ok e₄
            ∙ erase_lem n k actions key w₂ b j
            ∙ ap (λ v. if same_entry actions key b j then none else v)
                (commit_lem n k names w₁ w₂ b j esp_ok e₂
                  ∙ k.entry-erase_key names name w w₁ b j e₁))

  -- No entry is left of a finger that was not known before.
  forget-store_finger :
      (name : Bytes) (i : ℕ) (w w₁ w₂ : n.World) (b : Namespace) (j : Bytes)
      → k.entry names name w ≡ none
      → k.entry actions (index_key i) w ≡ none
      → k.entry schedulers (index_key i) w ≡ none
      → store_finger n name i w ≡ (esp_ok, w₁)
      → forget n name i w₁ ≡ (Ret.ok, w₂)
      → k.entry b j w₂ ≡ k.entry b j w
  forget-store_finger name i w w₁ w₂ b j no_name no_action no_scheduler stored forgotten = ground (
    arith,
    forget_lem name i w₁ w₂ b j forgotten,
    store_finger_lem n k name i w w₁ b j stored,
    same_entry_eq n k schedulers b (index_key i) j w,
    same_entry_eq n k actions b (index_key i) j w,
    same_entry_eq n k names b name j w,
  )

module _ {d : Port} (n : Nvs) (k : KeepsEntries n) where
  -- A deletion that succeeds has forgotten the finger with the index stored under the name.
  try_delete-ok :
      (name : Bytes) (i : ℕ) (m m' : Manager d n)
      → n.get_u16 names name m.world ≡ (esp_ok, i)
      → try_delete name m ≡ (Ret.ok, m')
      → forget n name i m.world ≡ (Ret.ok, m'.world)
  unfolding try_delete delete_finger
  try_delete-ok name i m m' known e = ground (arith, ap (λ q. q.0) known, ap (λ q. q.1) known)

  pub world-handle_enrollment_update :
      (i : ℕ) (name : Bytes) (m : Manager d n)
      → (handle_enrollment_update 0 0x0F i name m).world ≡ (store_finger n name i m.world).1
  unfolding handle_enrollment_update notify
  world-handle_enrollment_update i name m = ground arith

  -- Of a name and an index that nothing is stored of: if the enrolment of the finger is stored and the
  -- finger is deleted by its name with success, then the storage reads as before, in each namespace
  -- and at each key.
  pub try_delete-handle_enrollment_update :
      (name : Bytes) (i : ℕ) (m m' : Manager d n) (w : n.World) (b : Namespace) (j : Bytes)
      → k.entry names name m.world ≡ none
      → k.entry actions (index_key i) m.world ≡ none
      → k.entry schedulers (index_key i) m.world ≡ none
      → store_finger n name i m.world ≡ (esp_ok, w)
      → try_delete name (handle_enrollment_update 0 0x0F i name m) ≡ (Ret.ok, m')
      → k.entry b j m'.world ≡ k.entry b j m.world
  try_delete-handle_enrollment_update name i m m' w b j no_name no_action no_scheduler stored
        deleted =
      let enrolled = handle_enrollment_update 0 0x0F i name m in
      let after : enrolled.world ≡ w =
        world-handle_enrollment_update i name m ∙ ap (λ q. q.1) stored in
      let at_name : k.entry names name enrolled.world ≡ some (number i) =
        ap (λ v. k.entry names name v) after
        ∙ store_finger_lem n k name i m.world w names name stored
        ∙ rw (same_text_refl name) refl in
      let known = k.get_u16-number names name i enrolled.world at_name in
      forget-store_finger n k name i m.world w m'.world b j no_name no_action no_scheduler stored
        (ap (λ v. forget n name i v) (sym after) ∙ try_delete-ok name i enrolled m' known deleted)
