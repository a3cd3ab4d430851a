-- ===== src/Fingers/Detect.antt =====
-- When a finger that was detected leads to an action: the manager and the scheduler together.
use espidf_component_webmana.Prelude.{
  ℕ, ◌≡◌, refl, ap, ◌∙◌, true, some, List, ◌∷◌, arith, ltb, ◌==◌, ◌&&◌, if◌then◌else◌,
}
use espidf_component_webmana.Prelude.Text.{Bytes, codes, same_text_refl}
use espidf_component_webmana.Esp.{esp_ok}
use espidf_component_webmana.Fingerprint.Port.{Port}
use espidf_component_webmana.Scheduler.{
  Tm, Timers, always, find_timer, get_current_value, get_current_value_of_schedule,
}
use espidf_component_webmana.Fingers.Storage.{Nvs, schedulers, actions, number, text, KeepsEntries}
use espidf_component_webmana.Fingers.{index_key, store_finger, stored_action, stored_scheduler}
use espidf_component_webmana.Fingers.Manager.{
  Call, detected, enrollment, action, Manager, notify, handle_fingerprint_detected,
  handle_enrollment_update,
}
use espidf_component_webmana.Fingers.Laws.{store_finger_lem}
use espidf_component_webmana.Fingers.Undo.{world-handle_enrollment_update}

always_on :
    (localtime : ℕ → Tm) (name2timer : Timers) (name : Bytes) (now : ℕ)
    → find_timer name2timer name ≡ some always
    → ltb 0 (get_current_value_of_schedule localtime name2timer name now) ≡ true
unfolding get_current_value_of_schedule get_current_value
always_on localtime name2timer name now e = rw e (ground arith)

module _ (n : Nvs) (k : KeepsEntries n) where
  stored_lem :
      (i a : ℕ) (s uninitialised : Bytes) (w : n.World)
      → k.entry actions (index_key i) w ≡ some (number a)
      → k.entry schedulers (index_key i) w ≡ some (text s)
      → (stored_action n i w ≡ a) × (stored_scheduler n uninitialised i w ≡ s)
  unfolding stored_action stored_scheduler
  stored_lem i a s uninitialised w e f = (
    rw (k.get_u16-number actions (index_key i) a w e) refl,
    rw (k.get_str-text schedulers (index_key i) s w f) refl,
  )

enrolled_lem :
    {d : Port} {n : Nvs} (i : ℕ) (name : Bytes) (m : Manager d n)
    → m.has_handler ≡ true
    → ((handle_enrollment_update 0 0x0F i name m).has_handler ≡ true)
      × ((handle_enrollment_update 0 0x0F i name m).calls ≡ enrollment 0 0x0F i name ∷ m.calls)
unfolding handle_enrollment_update notify
enrolled_lem i name m h = ground arith

module _ {d : Port} (n : Nvs) (k : KeepsEntries n) where
  -- A finger with an action and a schedule in the storage, recognised by the reader while there is a
  -- handler: the handler is told of it, and then to do the finger's action, if and only if the
  -- finger's schedule has a value above 0. The storage does not change. On an error code of the
  -- reader, the handler is told of it and of nothing else.
  pub handle_fingerprint_detected_lem :
      (scheduler : Bytes → ℕ) (uninitialised : Bytes) (error i score a : ℕ) (s : Bytes)
      (m : Manager d n)
      → m.has_handler ≡ true
      → k.entry actions (index_key i) m.world ≡ some (number a)
      → k.entry schedulers (index_key i) m.world ≡ some (text s)
      → ((handle_fingerprint_detected scheduler uninitialised error i score m).calls ≡ (
          if error == 0 && ltb 0 (scheduler s)
          then action i a ∷ detected error i score ∷ m.calls
          else detected error i score ∷ m.calls))
        × ((handle_fingerprint_detected scheduler uninitialised error i score m).world ≡ m.world)
  unfolding handle_fingerprint_detected notify
  handle_fingerprint_detected_lem scheduler uninitialised error i score a s m h e f =
      let (act, name) = stored_lem n k i a s uninitialised m.world e f in ground arith

  -- With the timer ALWAYS under its name in the scheduler, at any time: a finger whose enrolment was
  -- stored, and that is then recognised, leads to its action 0, whatever its name and its index.
  pub handle_fingerprint_detected-handle_enrollment_update :
      (localtime : ℕ → Tm) (name2timer : Timers) (now : ℕ) (uninitialised name : Bytes)
      (i score : ℕ) (m : Manager d n) (w : n.World)
      → m.has_handler ≡ true
      → find_timer name2timer (codes "ALWAYS") ≡ some always
      → store_finger n name i m.world ≡ (esp_ok, w)
      → (handle_fingerprint_detected
          (λ s. get_current_value_of_schedule localtime name2timer s now)
          uninitialised
          0
          i
          score
          (handle_enrollment_update 0 0x0F i name m)).calls
        ≡ action i 0 ∷ detected 0 i score ∷ enrollment 0 0x0F i name ∷ m.calls
  handle_fingerprint_detected-handle_enrollment_update localtime name2timer now uninitialised name i
        score m w h timer stored =
      let enrolled = handle_enrollment_update 0 0x0F i name m in
      let scheduler = λ (s : Bytes). get_current_value_of_schedule localtime name2timer s now in
      let (handled, told) = enrolled_lem i name m h in
      let after : enrolled.world ≡ w =
        world-handle_enrollment_update n k i name m ∙ ap (λ q. q.1) stored in
      let at_action : k.entry actions (index_key i) enrolled.world ≡ some (number 0) =
        ap (λ v. k.entry actions (index_key i) v) after
        ∙ store_finger_lem n k name i m.world w actions (index_key i) stored
        ∙ rw (same_text_refl (index_key i)) refl in
      let at_scheduler : k.entry schedulers (index_key i) enrolled.world
          ≡ some (text (codes "ALWAYS")) =
        ap (λ v. k.entry schedulers (index_key i) v) after
        ∙ store_finger_lem n k name i m.world w schedulers (index_key i) stored
        ∙ rw (same_text_refl (index_key i)) refl in
      (handle_fingerprint_detected_lem scheduler uninitialised 0 i score 0 (codes "ALWAYS") enrolled
        handled at_action at_scheduler).0
      ∙ rw (always_on localtime name2timer (codes "ALWAYS") now timer)
          (ap (λ (c : List Call). action i 0 ∷ detected 0 i score ∷ c) told)
