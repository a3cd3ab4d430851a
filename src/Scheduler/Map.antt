-- ===== src/Scheduler/Map.antt =====
-- The std::map name2timer of cpp/scheduler.hh, which its names order: operator[] and erase.
use espidf_component_webmana.Prelude.{
  ◌≡◌, refl, sym, ap, ◌∙◌, Bool, true, false, ◌&&◌, ◌||◌, none, some, [], ◌∷◌, ltb, ◌==◌,
  if◌then◌else◌, arith,
}
use espidf_component_webmana.Prelude.Text.{Bytes, same_text, same_text_iff}
use espidf_component_webmana.Scheduler.{Timer, Timers, find_timer}

-- operator< of std::string
unfoldable pub is_before : Bytes → Bytes → Bool
is_before a [] = false
is_before [] (b ∷ bs) = true
is_before (a ∷ as') (b ∷ bs) = ltb a b || (a == b && is_before as' bs)

unfoldable pub set_timer : Bytes → Timer → Timers → Timers
unfolding is_before
set_timer name timer [] = (name, timer) ∷ []
set_timer name timer ((key, other) ∷ timers) =
    let rest = set_timer name timer timers in
    if same_text key name
    then (name, timer) ∷ timers
    else if is_before name key
    then (name, timer) ∷ (key, other) ∷ timers
    else (key, other) ∷ rest

unfoldable pub erase_timer : Bytes → Timers → Timers
erase_timer name [] = []
erase_timer name ((key, timer) ∷ timers) =
    let rest = erase_timer name timers in if same_text key name then rest else (key, timer) ∷ rest

same_text_left : (a b n : Bytes) → same_text a b ≡ true → same_text a n ≡ same_text b n
same_text_left a b n e = ap (λ s. same_text s n) ((same_text_iff a b).0 e)

same_text_join :
    (a b n : Bytes) → same_text a n ≡ true → same_text b n ≡ true → same_text a b ≡ true
same_text_join a b n e f =
    (same_text_iff a b).1 ((same_text_iff a n).0 e ∙ sym ((same_text_iff b n).0 f))

pub find_timer-set_timer :
    (name : Bytes) (timer : Timer) (timers : Timers) (n : Bytes)
    → find_timer (set_timer name timer timers) n
      ≡ (if same_text name n then some timer else find_timer timers n)
unfolding find_timer set_timer
find_timer-set_timer name timer [] n = refl
find_timer-set_timer name timer ((key, other) ∷ timers) n = ground (
  arith,
  same_text_left key name n,
  same_text_join key name n,
  find_timer-set_timer name timer timers n,
)

pub find_timer-erase_timer :
    (name : Bytes) (timers : Timers) (n : Bytes)
    → find_timer (erase_timer name timers) n
      ≡ (if same_text name n then none else find_timer timers n)
unfolding find_timer erase_timer
find_timer-erase_timer name [] n = ground arith
find_timer-erase_timer name ((key, timer) ∷ timers) n = ground (
  arith,
  same_text_left key name n,
  same_text_join key name n,
  find_timer-erase_timer name timers n,
)
