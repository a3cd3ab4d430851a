-- ===== src/Scheduler/Restore.antt =====
-- What a start of the scheduler (Begin of cpp/scheduler.hh) finds in the flash.
use espidf_component_webmana.Prelude.{
  ◌≡◌, refl, sym, ap, ◌∙◌, inl, inr, true, Option, none, some, List, [], ◌∷◌, arith, if◌then◌else◌,
  Bool-cases, Option-cases,
}
use espidf_component_webmana.Prelude.Text.{Bytes, same_text, same_text_iff, same_text_refl}
use espidf_component_webmana.Esp.{◌>>=◌}
use espidf_component_webmana.Scheduler.{Timer, Timers, find_timer}
use espidf_component_webmana.Scheduler.Flash.{Blobs, KeepsBlobs, Codec, Schedule, listed, is_some}
use espidf_component_webmana.Scheduler.Map.{set_timer, find_timer-set_timer}
use espidf_component_webmana.Scheduler.Requests.{
  predefined_timers, build_from_schedule, restore, restore_all, begin,
}

abbrev pub or_else {ℓ} : {A : Type ℓ} → Option A → Option A → Option A
or_else none o = o
or_else (some a) o = some a

or_else_twice {ℓ} : {A : Type ℓ} (o p : Option A) → or_else o (or_else o p) ≡ or_else o p
or_else_twice none p = refl
or_else_twice (some a) p = refl

module _ (b : Blobs) (c : Codec) (k : KeepsBlobs b) where
  -- The timer in the blob of a name, if there is one that can be built.
  abbrev pub restored : Bytes → b.World → Option Timer
  restored n w = k.blob n w >>= c.decode_schedule >>= build_from_schedule c

  -- Each schedule is stored under its name.
  abbrev pub NamesAgree : b.World → Type 0
  NamesAgree w =
      (n v : Bytes) (s : Schedule) → k.blob n w ≡ some v → c.decode_schedule v ≡ some s → s.name ≡ n

  restore_cases :
      (key v : Bytes) (w : b.World) (timers : Timers)
      → k.blob key w ≡ some v
      → restore b c key w timers ≡ (elim (c.decode_schedule v) as (λ _. Timers) [
        | none ↦ timers
        | some schedule ↦ elim (build_from_schedule c schedule) as (λ _. Timers) [
          | none ↦ timers
          | some timer ↦ set_timer schedule.name timer timers
        ]
      ])
  unfolding restore
  restore_cases key v w timers e =
      ap
        (λ blob. elim (c.decode_schedule blob) as (λ _. Timers) [
          | none ↦ timers
          | some schedule ↦ elim (build_from_schedule c schedule) as (λ _. Timers) [
            | none ↦ timers
            | some timer ↦ set_timer schedule.name timer timers
          ]
        ])
        (k.get_blob-some key v w e)

  find_timer-restore :
      (key v : Bytes) (w : b.World) (timers : Timers) (n : Bytes)
      → NamesAgree w
      → k.blob key w ≡ some v
      → find_timer (restore b c key w timers) n ≡ (
          if same_text key n
          then or_else (restored key w) (find_timer timers n)
          else find_timer timers n)
  find_timer-restore key v w timers n agree e =
      ap (λ ts. find_timer ts n) (restore_cases key v w timers e)
      ∙ elim (Option-cases (c.decode_schedule v)) [
        | inl none_decoded ↦ rw (e, none_decoded) (ground arith)
        | inr (s, decoded) ↦ elim (Option-cases (build_from_schedule c s)) [
          | inl none_built ↦ rw (e, decoded, none_built) (ground arith)
          | inr (t, built) ↦
              rw (e, decoded, built)
                (find_timer-set_timer s.name t timers n ∙ rw (agree key v s e decoded) refl)
        ]
      ]

  find_timer-restore_all :
      (keys : List Bytes) (w : b.World) (timers : Timers) (n : Bytes)
      → NamesAgree w
      → ((j : Bytes) → listed keys j ≡ true → is_some (k.blob j w) ≡ true)
      → find_timer (restore_all b c keys w timers) n ≡ (
          if listed keys n
          then or_else (restored n w) (find_timer timers n)
          else find_timer timers n)
  unfolding restore_all listed
  find_timer-restore_all [] w timers n agree there = refl
  find_timer-restore_all (key ∷ keys) w timers n agree there = elim (Option-cases (k.blob key w)) [
    | inl missing ↦ cc (missing, there key (rw (same_text_refl key) refl))
    | inr (v, found) ↦
        let first = find_timer-restore key v w timers n agree found in
        let rest =
          find_timer-restore_all keys w (restore b c key w timers) n agree
            (λ j h. there j (rw h (ground arith))) in
        elim (Bool-cases (same_text key n)) [
          | inl same ↦
              let at : key ≡ n = (same_text_iff key n).0 same in
              let first' : find_timer (restore b c key w timers) n
                  ≡ or_else (restored n w) (find_timer timers n) =
                rw same at first ∙ ap (λ j. or_else (restored j w) (find_timer timers n)) at in
              rest
              ∙ rw (same, first')
                  (elim (Bool-cases (listed keys n)) [
                    | inl more ↦ rw more (or_else_twice (restored n w) (find_timer timers n))
                    | inr last ↦ rw last refl
                  ])
          | inr other ↦ rest ∙ rw (other, rw other at first) refl
        ]
  ]

  -- Begin finds the timers in the blobs, and the predefined ones where there is none.
  pub begin_lem :
      (w : b.World) (n : Bytes)
      → NamesAgree w
      → find_timer (begin b c w) n ≡ or_else (restored n w) (find_timer predefined_timers n)
  unfolding begin
  begin_lem w n agree =
      find_timer-restore_all (b.keys w) w predefined_timers n agree
        (λ j h. sym (k.listed-keys j w) ∙ h)
      ∙ elim (Option-cases (k.blob n w)) [
        | inl missing ↦ rw (k.listed-keys n w, missing) refl
        | inr (v, found) ↦ rw (k.listed-keys n w, found) refl
      ]
