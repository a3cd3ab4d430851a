-- ===== src/TimeSeries/Frame.antt =====
-- What a change of one sector leaves alone.
use espidf_component_webmana.Prelude.{
  ℕ, ◌+◌, ◌-◌, ◌*◌, ◌≤◌, ◌<◌, ◌≡◌, ◌≢◌, sym, ◌∙◌, ◌⊎◌, List, [], ◌∷◌, arith, leb, if◌then◌else◌,
  length,
}
use mathlib.Core.Path.{subst}
use native.Mathlib.Decide.{ℕ_discrete}
use espidf_component_webmana.Esp.{esp_ok}
use espidf_component_webmana.TimeSeries.Flash.{Partition, blank}
use espidf_component_webmana.TimeSeries.{FourSignals}
use espidf_component_webmana.TimeSeries.Log.{Log, capacity, before, Holds, Stored, IsClean, IsFree}

-- The steps back in the ring from `s` to `target`.
abbrev pub gap : (cnt s target : ℕ) → ℕ
gap cnt s target = if leb target s then s - target else s + cnt - target

abbrev pub InRing : (start cnt s : ℕ) → Type 0
InRing start cnt s = (start ≤ s) × (s < start + cnt)

pub before-InRing : (start cnt s : ℕ) → InRing start cnt s → InRing start cnt (before start cnt s)
before-InRing start cnt s h = ground arith

pub gap-before :
    (start cnt s target : ℕ)
    → InRing start cnt s
    → InRing start cnt target
    → gap cnt s target ≢ 0
    → gap cnt s target ≡ gap cnt (before start cnt s) target + 1
gap-before start cnt s target h k e = ground arith

pub gap-before_self :
    (start cnt s : ℕ) → InRing start cnt s → gap cnt (before start cnt s) s ≡ cnt - 1
gap-before_self start cnt s h = ground arith

module _ (p : Partition) where
  -- Nothing outside of the sector changes.
  abbrev pub Only : ℕ → p.World → p.World → Type 0
  Only s w w' =
      (o n : ℕ) → (o + n ≤ 4096 * s) ⊎ (4096 * s + 4096 ≤ o) → p.read o n w' ≡ p.read o n w

  pub Only-trans : (s : ℕ) (w₁ w₂ w₃ : p.World) → Only s w₁ w₂ → Only s w₂ w₃ → Only s w₁ w₃
  Only-trans s w₁ w₂ w₃ h k o n e = k o n e ∙ h o n e

  pub Holds-Only :
      (w w' : p.World) (s target : ℕ) (xs : List FourSignals)
      → Only target w w'
      → s ≢ target
      → length xs ≤ capacity
      → Holds p w s xs
      → Holds p w' s xs
  Holds-Only w w' s target [] f ne h k = tt
  Holds-Only w w' s target (x ∷ xs) f ne h k = (
    f (4096 * s + (64 + 8 * length xs)) 8 (omega arith) ∙ k.0,
    Holds-Only w w' s target xs f ne (omega arith) k.1,
  )

  pub Stored-Only :
      (start cnt : ℕ) (w w' : p.World) (s target : ℕ) (log : Log)
      → Only target w w'
      → InRing start cnt s
      → InRing start cnt target
      → length log ≤ gap cnt s target
      → Stored p start cnt w s log
      → Stored p start cnt w' s log
  Stored-Only start cnt w w' s target [] f hs ht h k = tt
  Stored-Only start cnt w w' s target ((t, xs) ∷ log) f hs ht h k =
      let ne : s ≢ target = ground arith in
      let near : gap cnt s target ≡ gap cnt (before start cnt s) target + 1 =
        gap-before start cnt s target hs ht (omega arith) in
      (
        f (4096 * s) 8 (omega arith) ∙ k.0,
        k.1,
        Holds-Only w w' s target xs f ne k.1 k.2,
        Stored-Only start cnt w w' (before start cnt s) target log f (before-InRing start cnt s hs)
            ht (omega arith) k.3,
      )

  -- The other sectors stay clean.
  pub IsClean-Only :
      (start cnt : ℕ) (w w' : p.World) (target : ℕ)
      → Only target w w'
      → IsClean p start cnt w
      → (p.read (4096 * target) 8 w' ≡ (esp_ok, blank 8) → IsFree p w' target 0)
      → IsClean p start cnt w'
  IsClean-Only start cnt w w' target f h changed s low high header = elim (ℕ_discrete s target) [
    | yes e ↦ subst (λ k. IsFree p w' k 0) (sym e) (changed (rw (sym e) header))
    | no ne ↦ λ i n hi hn.
        f (4096 * s + i) n (omega arith)
        ∙ h s low high (sym (f (4096 * s) 8 (omega arith)) ∙ header) i n hi hn
  ]
