-- ===== src/Fingers/Misread.antt =====
-- A code of RET above 255 is cut to its low byte on its way to the handler.
use espidf_component_webmana.Prelude.{ℕ, ◌≡◌, refl, ◌∙◌, true, false, some, ◌∷◌, ltb}
use espidf_component_webmana.Prelude.Text.{Bytes}
use espidf_component_webmana.Fingerprint.Port.{Port}
use espidf_component_webmana.Fingerprint.Ret
use espidf_component_webmana.Fingerprint.Frame.{Reader}
use espidf_component_webmana.Fingerprint.Identify.{Match, auto_identify}
use espidf_component_webmana.Fingers.Storage.{Nvs, schedulers, actions, number, text, KeepsEntries}
use espidf_component_webmana.Fingers.{index_key}
use espidf_component_webmana.Fingers.Manager.{detected, action, Manager}
use espidf_component_webmana.Fingers.Detect.{handle_fingerprint_detected_lem}
use espidf_component_webmana.Fingers.R503.{security_3, report, task_detect}

module _ {d : Port} (n : Nvs) (k : KeepsEntries n) where
  calls-report :
      (scheduler : Bytes → ℕ) (uninitialised : Bytes) (a : ℕ) (s : Bytes) (found : Match)
      (r : Reader d) (m : Manager d n)
      → m.has_handler ≡ true
      → k.entry actions (index_key 0) m.world ≡ some (number a)
      → k.entry schedulers (index_key 0) m.world ≡ some (text s)
      → ltb 0 (scheduler s) ≡ true
      → (report scheduler uninitialised (Ret.cannot_find_startcode, found, r) m).calls
        ≡ action 0 a ∷ detected 0 0 0 ∷ m.calls
  unfolding report
  calls-report scheduler uninitialised a s found r m h e f on =
      (handle_fingerprint_detected_lem n k scheduler uninitialised 0 0 0 a s
        (record m { reader = r }) h e f).0
      ∙ rw on refl

  -- On a falling edge of the interrupt line, an identification that ends with the error that a package
  -- has no start code is reported as a success with finger 0: if finger 0 has an action and a
  -- schedule whose value is above 0, that action is done, though no finger was recognised.
  pub task_detect_misread :
      (fuel : ℕ) (scheduler : Bytes → ℕ) (uninitialised : Bytes) (a : ℕ) (s : Bytes) (found : Match)
      (r : Reader d) (m : Manager d n)
      → m.previous_irq_line_value ≡ true
      → m.has_handler ≡ true
      → auto_identify fuel (record { finger_index = 0; score = 0 }) security_3 true 1 m.reader
        ≡ some (Ret.cannot_find_startcode, found, r)
      → k.entry actions (index_key 0) m.world ≡ some (number a)
      → k.entry schedulers (index_key 0) m.world ≡ some (text s)
      → ltb 0 (scheduler s) ≡ true
      → (m' : Manager d n) × (task_detect fuel false scheduler uninitialised m ≡ some m')
        × (m'.calls ≡ action 0 a ∷ detected 0 0 0 ∷ m.calls)
  unfolding task_detect
  task_detect_misread fuel scheduler uninitialised a s found r m edge h identified e f on = (
    record (report scheduler uninitialised (Ret.cannot_find_startcode, found, r) m) {
      previous_irq_line_value = false;
    },
    simp (edge, identified),
    calls-report scheduler uninitialised a s found r m h e f on,
  )
