-- ===== src/Sessions/Slots.antt =====
-- Which slot a new session takes.
use espidf_component_webmana.Prelude.{
  ℕ, zero, suc, ◌+◌, ◌≤◌, ◌<◌, ◌^◌, ◌≡◌, ◌⊎◌, refl, inl, inr, true, false, none, some, List, [],
  ◌∷◌, arith, All, length, get_elem?, Bool-cases, Option-cases, set,
}
use espidf_component_webmana.Prelude.Text.{Bytes}
use espidf_component_webmana.Prelude.Word.{lt64, lt64_nonneg}
use espidf_component_webmana.Users.Record.{StoredUser}
use espidf_component_webmana.Sessions.{
  Session, in_use, first_free, oldest_loop, oldest_slot, choose_slot, create_session, new_session,
}

-- The expiry of a session is a time of the clock, not a negative number.
abbrev pub IsClocked : Session → Type 0
IsClocked s = s.expiry_us < 2 ^ 63

first_free-none :
    (ss : List Session) (i : ℕ) → first_free ss i ≡ none → All (λ s. in_use s ≡ true) ss
unfolding first_free
first_free-none [] i e = tt
first_free-none (s ∷ ss) i e = ground (arith, first_free-none ss (i + 1))

first_free-some :
    (ss : List Session) (i j : ℕ)
    → first_free ss i ≡ some j
    → (k : ℕ) × (s : Session) × (j ≡ i + k) × (get_elem? ss k ≡ some s) × (in_use s ≡ false)
unfolding first_free
first_free-some [] i j e = absurd (cc)
first_free-some (s ∷ ss) i j e = elim (Bool-cases (in_use s)) [
  | inl used ↦
      let (k, t, a, b, c) = first_free-some ss (i + 1) j (ground arith) in
      (suc k, t, omega arith, b, c)
  | inr free ↦ (0, s, ground arith, refl, free)
]

-- `best` is a lower bound of the expiries seen, and stands at `oldest`.
oldest_loop_lem :
    (ss : List Session) (i oldest best : ℕ)
    → best < 2 ^ 63
    → All IsClocked ss
    → let r = oldest_loop ss i oldest best in
      ((r ≡ oldest) × All (λ s. best ≤ s.expiry_us) ss)
      ⊎ ((k : ℕ) × (t : Session) × (r ≡ i + k)
          × (get_elem? ss k ≡ some t)
          × (t.expiry_us < best)
          × All (λ s. t.expiry_us ≤ s.expiry_us) ss)
unfolding oldest_loop
oldest_loop_lem [] i oldest best b h = inl (refl, tt)
oldest_loop_lem (s ∷ ss) i oldest best b h = elim (Bool-cases (lt64 s.expiry_us best)) [
  | inl earlier ↦ rw earlier (elim (oldest_loop_lem ss (i + 1) i s.expiry_us h.0 h.1) [
    | inl (r, a) ↦ inr (
      0,
      s,
      omega (arith, r),
      refl,
      ground (arith, lt64_nonneg s.expiry_us best),
      (omega arith, a),
    )
    | inr (k, t, r, g, lt, a) ↦ inr (
      suc k,
      t,
      omega (arith, r),
      g,
      ground (arith, lt64_nonneg s.expiry_us best),
      (omega arith, a),
    )
  ])
  | inr later ↦ rw later (elim (oldest_loop_lem ss (i + 1) oldest best b h.1) [
    | inl (r, a) ↦ inl (r, (ground (arith, lt64_nonneg s.expiry_us best), a))
    | inr (k, t, r, g, lt, a) ↦
        inr (suc k, t, omega (arith, r), g, lt, (ground (arith, lt64_nonneg s.expiry_us best), a))
  ])
]

-- The slot of the earliest expiry of a table that is not empty.
oldest_slot_lem :
    (s : Session) (ss : List Session)
    → All IsClocked (s ∷ ss)
    → (t : Session) × (get_elem? (s ∷ ss) (oldest_slot (s ∷ ss)) ≡ some t)
      × All (λ u. t.expiry_us ≤ u.expiry_us) (s ∷ ss)
unfolding oldest_slot
oldest_slot_lem s ss h = elim (oldest_loop_lem ss 1 0 s.expiry_us h.0 h.1) [
  | inl (r, a) ↦ (s, rw r refl, (omega arith, a))
  | inr (k, t, r, g, lt, a) ↦
      let place : oldest_loop ss 1 0 s.expiry_us ≡ suc k = omega (arith, r) in
      (t, rw place g, (omega arith, a))
]

-- The slot that a new session takes is free; or none is, and no session in the table expires before
-- the one that gives way.
pub choose_slot_lem :
    (ss : List Session)
    → 0 < length ss
    → All IsClocked ss
    → (t : Session) × (get_elem? ss (choose_slot ss) ≡ some t)
      × ((in_use t ≡ false)
          ⊎ (All (λ s. in_use s ≡ true) ss × All (λ s. t.expiry_us ≤ s.expiry_us) ss))
unfolding choose_slot
choose_slot_lem [] n h = absurd (omega arith)
choose_slot_lem (s ∷ ss) n h = elim (Option-cases (first_free (s ∷ ss) 0)) [
  | inl full ↦
      let (t, g, a) = oldest_slot_lem s ss h in
      (t, rw (full, choose_slot) g, inr (first_free-none (s ∷ ss) 0 full, a))
  | inr (j, found) ↦
      let (k, t, e, g, free) = first_free-some (s ∷ ss) 0 j found in
      let place : j ≡ k = omega arith in (t, rw (found, choose_slot) (rw place g), inl free)
]

pub get_elem?-lt {ℓ} :
    {A : Type ℓ} (xs : List A) (i : ℕ) {a : A} → get_elem? xs i ≡ some a → i < length xs
get_elem?-lt [] i e = absurd (cc)
get_elem?-lt (x ∷ xs) zero e = omega arith
get_elem?-lt (x ∷ xs) (suc i) e = omega (arith, get_elem?-lt xs i e)

-- A login in a table with at least one slot writes exactly one slot and leaves the others alone.
-- The slot was free; or all were in use, and no session expired before the one that gave way. The
-- expiries are times of an int64_t.
pub create_session_lem :
    (user : StoredUser) (random : Bytes) (now : ℕ) (ss : List Session)
    → 0 < length ss
    → All IsClocked ss
    → let (token, ss') = create_session user random now ss in
      (i : ℕ) × (t : Session) × (get_elem? ss i ≡ some t)
      × (ss' ≡ set ss i (new_session user random now))
      × ((in_use t ≡ false)
          ⊎ (All (λ s. in_use s ≡ true) ss × All (λ s. t.expiry_us ≤ s.expiry_us) ss))
unfolding create_session
create_session_lem user random now ss n h =
    let (t, g, c) = choose_slot_lem ss n h in (choose_slot ss, t, g, refl, c)
