-- ===== src/Fingerprint/Identify.antt =====
-- cpp/grow_fingerprint_serial_protocol.hh: `AutoIdentify`, which reads packages until one is the last.
use espidf_component_webmana.Prelude.{
  ℕ, zero, suc, ◌≤◌, ◌≡◌, ◌≢◌, ap, false, Bool-cases, ==_iff, ◌↔◌, ◌⊎◌, inl, inr, refl, sym, ◌∙◌,
  Bool, not, Option, none, some, [], ◌∷◌, ◌++◌, ◌==◌, if◌then◌else◌, get_or, arith,
}
use mathlib.Core.Path.{subst}
use espidf_component_webmana.Prelude.Text.{Bytes}
use espidf_component_webmana.Esp.{eq_of_some}
use espidf_component_webmana.Fingerprint.Port.{Port}
use espidf_component_webmana.Fingerprint.Ret
use espidf_component_webmana.Fingerprint.Frame.{Reader, receive_and_check_package}
use espidf_component_webmana.Fingerprint.Instructions.{i_auto_identify, send_instruction}
use espidf_component_webmana.Fingerprint.Commands.{flag}

-- `fingerIndex_out` and `score_out`.
pub record Match : Type 0 where
  pub finger_index : ℕ
  pub score : ℕ

-- What one turn of the loop does: it returns, or goes on.
pub data Turn (d : Port) : Type 0 where
  returns : (ret : ℕ) → Match → Reader d → Turn d
  goes_on : Match → Reader d → Turn d

module _ (d : Port) where
  -- The finger and the score that a package of the identification carries.
  abbrev pub reported : Bytes → Match
  reported buffer = record { finger_index = d.parse_u16 buffer 11; score = d.parse_u16 buffer 13 }

module _ {d : Port} where
  unfoldable pub identify_turn : Match → Reader d → Turn d
  unfolding receive_and_check_package
  identify_turn m r =
      let (ret, buffer, r') = receive_and_check_package 17 r in
      let seen : Match = record {
        finger_index = d.parse_u16 buffer 11;
        score = d.parse_u16 buffer 13;
      } in
      if not (ret == Ret.ok)
      then returns ret m r'
      else if not (get_or buffer 9 0 == 0)
      then returns (get_or buffer 9 0) m r'
      else if get_or buffer 10 0 == 3
      then returns Ret.ok seen r'
      else goes_on seen r'

  -- The loop reads at most as many packages as there is fuel; `none` if that is too few.
  unfoldable pub identify_loop : ℕ → Match → Reader d → Option (ℕ × Match × Reader d)
  unfolding identify_turn
  identify_loop zero m r = none
  identify_loop (suc fuel) m r = elim (identify_turn m r) [
    | returns ret m' r' ↦ some (ret, m', r')
    | goes_on m' r' ↦ identify_loop fuel m' r'
  ]

  unfoldable pub auto_identify :
      ℕ
      → Match
      → (security_level : ℕ) (return_status : Bool) (max_scan_attempts : ℕ) → Reader d
      → Option (ℕ × Match × Reader d)
  unfolding identify_loop send_instruction
  auto_identify fuel m security_level return_status max_scan_attempts r = identify_loop fuel m (
      send_instruction i_auto_identify
        (security_level
          ∷ (d.u16_bytes 0
              ++ (d.u16_bytes 0x05DC ++ (flag return_status ∷ max_scan_attempts ∷ []))))
        r)

  -- The reader's last package: one that does not come whole, one whose byte 9 is an error of the
  -- reader, or one whose byte 10 is the step 3. The first two leave the finger and the score alone.
  pub data Last : Match → Reader d → ℕ × Match × Reader d → Type 0 where
    broken :
        {m : Match} {r r' : Reader d} {ret : ℕ} {buffer : Bytes}
        → receive_and_check_package 17 r ≡ (ret, buffer, r')
        → ret ≢ 0
        → Last m r (ret, m, r')
    failed :
        {m : Match} {r r' : Reader d} {buffer : Bytes}
        → receive_and_check_package 17 r ≡ (0, buffer, r')
        → get_or buffer 9 0 ≢ 0
        → Last m r (get_or buffer 9 0, m, r')
    found :
        {m : Match} {r r' : Reader d} {buffer : Bytes}
        → receive_and_check_package 17 r ≡ (0, buffer, r')
        → get_or buffer 9 0 ≡ 0
        → get_or buffer 10 0 ≡ 3
        → Last m r (0, reported d buffer, r')

  -- So many packages are read: each but the last one comes whole, without an error, and is of another
  -- step than 3.
  pub data Run : ℕ → Match → Reader d → ℕ × Match × Reader d → Type 0 where
    last : {m : Match} {r : Reader d} {x : ℕ × Match × Reader d} → Last m r x → Run 1 m r x
    more :
        {n : ℕ} {m : Match} {r r' : Reader d} {buffer : Bytes} {x : ℕ × Match × Reader d}
        → receive_and_check_package 17 r ≡ (0, buffer, r')
        → get_or buffer 9 0 ≡ 0
        → get_or buffer 10 0 ≢ 3
        → Run n (reported d buffer) r' x
        → Run (suc n) m r x

module _ {d : Port} where
  -- What a turn does, by the package that it reads.
  turn_lem :
      (m : Match) (r r' : Reader d) (ret : ℕ) (buffer : Bytes)
      → receive_and_check_package 17 r ≡ (ret, buffer, r')
      → identify_turn m r ≡ (
          if not (ret == 0)
          then returns ret m r'
          else if not (get_or buffer 9 0 == 0)
          then returns (get_or buffer 9 0) m r'
          else if get_or buffer 10 0 == 3
          then returns 0 (reported d buffer) r'
          else goes_on (reported d buffer) r')
  unfolding identify_turn
  turn_lem m r r' ret buffer e =
      ap
        (λ (q : ℕ × Bytes × Reader d).
          if not (q.0 == 0)
          then returns q.0 m q.2
          else if not (get_or q.1 9 0 == 0)
          then returns (get_or q.1 9 0) m q.2
          else if get_or q.1 10 0 == 3
          then returns 0 (reported d q.1) q.2
          else goes_on (reported d q.1) q.2)
        e

  Last-identify_turn :
      {m m' : Match} {r r' : Reader d} {ret : ℕ}
      → Last m r (ret, m', r')
      → identify_turn m r ≡ returns ret m' r'
  Last-identify_turn (broken {m = m} {r = r} {r' = r'} {ret = ret} {buffer = buffer} e ne) =
      let is_broken : (ret == 0) ≡ false = ground arith in
      turn_lem m r r' ret buffer e ∙ rw is_broken refl
  Last-identify_turn (failed {m = m} {r = r} {r' = r'} {buffer = buffer} e ne) =
      let is_failed : (get_or buffer 9 0 == 0) ≡ false = ground arith in
      turn_lem m r r' 0 buffer e ∙ rw is_failed refl
  Last-identify_turn (found {m = m} {r = r} {r' = r'} {buffer = buffer} e ok step) =
      turn_lem m r r' 0 buffer e ∙ rw (ok, step) refl

  -- Each turn reads the last package, or one that is not.
  Turn-cases :
      (m : Match) (r : Reader d)
      → ((ret : ℕ) × (m' : Match) × (r' : Reader d) × (identify_turn m r ≡ returns ret m' r')
          × Last m r (ret, m', r'))
        ⊎ ((buffer : Bytes) × (r' : Reader d) × (identify_turn m r ≡ goes_on (reported d buffer) r')
            × (receive_and_check_package 17 r ≡ (0, buffer, r'))
            × (get_or buffer 9 0 ≡ 0)
            × (get_or buffer 10 0 ≢ 3))
  Turn-cases m r =
      let (ret, buffer, r') = receive_and_check_package 17 r in
      let turn = turn_lem m r r' ret buffer refl in
      elim (Bool-cases (ret == 0)) [
        | inr bad ↦
            let last =
              broken {m = m} {r = r} {buffer = buffer} refl (λ z. cc (bad, (==_iff ret 0).1 z)) in
            inl (ret, m, r', Last-identify_turn last, last)
        | inl good ↦
            let whole : receive_and_check_package 17 r ≡ (0, buffer, r') =
              ap (λ c. (c, buffer, r')) ((==_iff ret 0).0 good) in
            elim (Bool-cases (get_or buffer 9 0 == 0)) [
              | inr bad ↦
                  let last =
                    failed {m = m} whole (λ z. cc (bad, (==_iff (get_or buffer 9 0) 0).1 z)) in
                  inl (get_or buffer 9 0, m, r', Last-identify_turn last, last)
              | inl ok ↦ elim (Bool-cases (get_or buffer 10 0 == 3)) [
                | inl step ↦
                    let last =
                      found {m = m} whole ((==_iff (get_or buffer 9 0) 0).0 ok)
                        ((==_iff (get_or buffer 10 0) 3).0 step) in
                    inl (0, reported d buffer, r', Last-identify_turn last, last)
                | inr other ↦ inr (
                  buffer,
                  r',
                  turn ∙ rw (good, ok, other) refl,
                  whole,
                  (==_iff (get_or buffer 9 0) 0).0 ok,
                  λ z. cc (other, (==_iff (get_or buffer 10 0) 3).1 z),
                )
              ]
            ]
      ]

module _ {d : Port} where
  loop_returns :
      (fuel : ℕ) (m m' : Match) (r r' : Reader d) (ret : ℕ)
      → identify_turn m r ≡ returns ret m' r'
      → identify_loop (suc fuel) m r ≡ some (ret, m', r')
  unfolding identify_loop
  loop_returns fuel m m' r r' ret e = rw (e, identify_loop) refl

  loop_goes_on :
      (fuel : ℕ) (m m' : Match) (r r' : Reader d)
      → identify_turn m r ≡ goes_on m' r'
      → identify_loop (suc fuel) m r ≡ identify_loop fuel m' r'
  unfolding identify_loop
  loop_goes_on fuel m m' r r' e = rw (e, identify_loop) refl

  Run-identify_loop :
      (n fuel : ℕ) (m : Match) (r : Reader d) (x : ℕ × Match × Reader d)
      → Run n m r x
      → n ≤ fuel
      → identify_loop fuel m r ≡ some x
  unfolding identify_loop
  Run-identify_loop n zero m r x (last e) h = absurd (omega arith)
  Run-identify_loop n zero m r x (more e ok other run) h = absurd (omega arith)
  Run-identify_loop n (suc fuel) m r (ret, m', r') (last e) h =
      loop_returns fuel m m' r r' ret (Last-identify_turn e)
  Run-identify_loop n (suc fuel) m r x (more {n = k} {r' = r'} {buffer = buffer} e ok other run) h =
      let is_other : (get_or buffer 10 0 == 3) ≡ false = ground arith in
      loop_goes_on fuel m (reported d buffer) r r'
        (turn_lem m r r' 0 buffer e ∙ rw (ok, is_other) refl)
      ∙ Run-identify_loop k fuel (reported d buffer) r' x run (omega arith)

  identify_loop-Run :
      (fuel : ℕ) (m : Match) (r : Reader d) (x : ℕ × Match × Reader d)
      → identify_loop fuel m r ≡ some x
      → (n : ℕ) × (n ≤ fuel) × Run n m r x
  unfolding identify_loop
  identify_loop-Run zero m r x e = absurd (cc)
  identify_loop-Run (suc fuel) m r x e = elim (Turn-cases m r) [
    | inl (ret, m', r', t, final) ↦
        let same : (ret, m', r') ≡ x = eq_of_some (sym (loop_returns fuel m m' r r' ret t) ∙ e) in
        (1, omega arith, subst (Run 1 m r) same (last final))
    | inr (buffer, r', t, whole, ok, other) ↦
        let (n, h, run) =
          identify_loop-Run fuel (reported d buffer) r' x
            (sym (loop_goes_on fuel m (reported d buffer) r r' t) ∙ e) in
        (suc n, omega arith, more whole ok other run)
  ]

  -- With fuel for n packages the loop returns, with this result, if and only if the last package of the
  -- reader is among the next n ones: the first one that does not come whole, with the error of the
  -- reception, or whose byte 9 is an error, with that error, or that is of step 3, with success. The
  -- finger and the score are those of the last package without an error. So more fuel changes no
  -- result.
  pub identify_loop_iff :
      (fuel : ℕ) (m : Match) (r : Reader d) (x : ℕ × Match × Reader d)
      → (identify_loop fuel m r ≡ some x) ↔ ((n : ℕ) × (n ≤ fuel) × Run n m r x)
  identify_loop_iff fuel m r x =
      (identify_loop-Run fuel m r x, λ (n, h, run). Run-identify_loop n fuel m r x run h)
