-- ===== src/Sessions/Validate.antt =====
-- Who is let in by `validate_session_token`, and for how long.
use espidf_component_webmana.Prelude.{
  ℕ, zero, suc, ◌+◌, ◌<◌, ◌^◌, ◌≡◌, ◌≢◌, refl, sym, inl, inr, true, false, none, some, List, [],
  ◌∷◌, arith, All, get_elem?, Bool-cases, Option, set, ap,
}
use mathlib.Core.Path.{subst}
use espidf_component_webmana.Esp.{eq_of_some}
use espidf_component_webmana.Prelude.Text.{Bytes, same_text_iff, is_empty}
use espidf_component_webmana.Prelude.Word.{add64_exact, lt64_nonneg}
use espidf_component_webmana.Constants.{session_max_age_us}
use espidf_component_webmana.Sessions.{Session, in_use, matches, validate_loop}
use espidf_component_webmana.Sessions.Slots.{IsClocked}

-- A session that the token belongs to and that has not expired.
pub record IsLive (token : Bytes) (now : ℕ) (s : Session) : Type 0 where
  pub same : s.token ≡ token
  pub used : s.token ≢ []
  pub fresh : now < s.expiry_us

pub in_use-ne : (s : Session) → in_use s ≡ true → s.token ≢ []
unfolding in_use
in_use-ne s h e = ground (arith)

pub ne-in_use : (s : Session) → s.token ≢ [] → in_use s ≡ true
ne-in_use s h = go s.token refl
  where
    go : (t : Bytes) → s.token ≡ t → in_use s ≡ true
    go [] e = absurd (h e)
    go (c ∷ t) e = unfold in_use is_empty in rw e

pub matches→IsLive :
    (token : Bytes) (now : ℕ) (s : Session)
    → now < 2 ^ 63
    → IsClocked s
    → matches token now s ≡ true
    → IsLive token now s
unfolding matches
matches→IsLive token now s h c e = record {
  same = ground (arith, same_text_iff s.token token);
  used = in_use-ne s (ground arith);
  fresh = ground (arith, lt64_nonneg now s.expiry_us);
}

pub IsLive→matches :
    (token : Bytes) (now : ℕ) (s : Session)
    → now < 2 ^ 63
    → IsClocked s
    → IsLive token now s
    → matches token now s ≡ true
unfolding matches
IsLive→matches token now s h c v =
    ground (arith, ne-in_use s, same_text_iff s.token token, lt64_nonneg now s.expiry_us)

-- What the answer of a validation means.
abbrev pub Admits : Bytes → ℕ → List Session → Option (Bytes × ℕ) × List Session → Type 0
Admits token now ss (none, ss') =
    ((i : ℕ) (s : Session) → get_elem? ss i ≡ some s → ¬ IsLive token now s) × (ss' ≡ ss)
Admits token now ss (some (username, roles), ss') =
    (i : ℕ) × (s : Session) × (get_elem? ss i ≡ some s)
    × IsLive token now s
    × (s.username ≡ username)
    × (s.roles ≡ roles)
    × (ss' ≡ set ss i (record s { expiry_us = now + session_max_age_us }))

nobody :
    (token : Bytes) (now : ℕ) (s : Session) (ss : List Session)
    → now < 2 ^ 63
    → IsClocked s
    → matches token now s ≡ false
    → ((i : ℕ) (t : Session) → get_elem? ss i ≡ some t → ¬ IsLive token now t)
    → (i : ℕ) (t : Session) → get_elem? (s ∷ ss) i ≡ some t
    → ¬ IsLive token now t
nobody token now s ss h c m a zero t e l =
    cc (m, IsLive→matches token now s h c (subst (IsLive token now) (sym (eq_of_some e)) l))
nobody token now s ss h c m a (suc i) t e l = a i t e l

-- A validation succeeds exactly if some session has the token and has not expired. It then answers
-- with the user and the roles of such a session, sets its expiry to SESSION_MAX_AGE_US from now,
-- and changes nothing else; one that fails changes nothing at all. The clock and the expiries are
-- times of an int64_t.
pub validate_loop-Admits :
    (token : Bytes) (now : ℕ) (ss : List Session)
    → now + session_max_age_us < 2 ^ 63
    → All IsClocked ss
    → Admits token now ss (validate_loop token now ss)
unfolding validate_loop
validate_loop-Admits token now [] h c = (λ i s e. absurd (cc), refl)
validate_loop-Admits token now (s ∷ ss) h c = elim (Bool-cases (matches token now s)) [
  | inl yes_match ↦ rw yes_match (
    0,
    s,
    refl,
    matches→IsLive token now s (omega arith) c.0 yes_match,
    refl,
    refl,
    rw (add64_exact now session_max_age_us h),
  )
  | inr no_match ↦
      rw no_match
        (later (validate_loop token now ss) (validate_loop-Admits token now ss h c.1) no_match)
]
  where
    later :
        (r : Option (Bytes × ℕ) × List Session)
        → Admits token now ss r
        → matches token now s ≡ false
        → Admits token now (s ∷ ss) (r.0, s ∷ r.1)
    later (none, ss') (a, e) m = (nobody token now s ss (omega arith) c.0 m a, ap (◌∷◌ s) e)
    later (some (u, r), ss') (i, t, g, l, eu, er, e) m = (suc i, t, g, l, eu, er, ap (◌∷◌ s) e)

abbrev pub Distinct : List Session → Type 0
Distinct [] = Unit
Distinct (s ∷ ss) = All (λ t. s.token ≢ [] → s.token ≢ t.token) ss × Distinct ss

-- The token of a session that has not expired lets its owner in, if no other session has it.
pub validate_loop-slot :
    (token : Bytes) (now i : ℕ) (ss : List Session) (s : Session)
    → now < 2 ^ 63
    → All IsClocked ss
    → get_elem? ss i ≡ some s
    → IsLive token now s
    → ((j : ℕ) (t : Session) → get_elem? ss j ≡ some t → t.token ≡ token → i ≡ j)
    → (validate_loop token now ss).0 ≡ some (s.username, s.roles)
unfolding validate_loop
validate_loop-slot token now i [] s h c e l u = absurd (cc)
validate_loop-slot token now zero (t ∷ ss) s h c e l u =
    ground
      (arith, IsLive→matches token now t h c.0 (subst (IsLive token now) (sym (eq_of_some e)) l))
validate_loop-slot token now (suc i) (t ∷ ss) s h c e l u =
    elim (Bool-cases (matches token now t)) [
      | inl yes_match ↦
          let w : suc i ≡ zero =
            u zero t refl ((matches→IsLive token now t h c.0 yes_match).same) in
          absurd (omega arith)
      | inr no_match ↦
          rw no_match (
            validate_loop-slot token now i ss s h c.1 e l λ j r f g. omega (arith, u (suc j) r f g))
    ]
