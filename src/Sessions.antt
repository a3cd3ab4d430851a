-- ===== src/Sessions.antt =====
-- cpp/webmanager_base.hh: the login sessions. The array `sessions` is a list of MAX_SESSIONS slots;
-- `now` is esp_timer_get_time(), and the semaphore makes each function one step.
pub mod Slots
pub mod Validate
pub mod Revoke
pub mod RoundTrip
mod Tests
use espidf_component_webmana.Prelude.{
  ℕ, ◌+◌, Bool, not, ◌&&◌, Option, none, some, List, [], ◌∷◌, if◌then◌else◌, set, drop, map,
  replicate,
}
use espidf_component_webmana.Prelude.Text.{Bytes, codes, same_text, is_empty}
use espidf_component_webmana.Prelude.Word.{add64, lt64}
use espidf_component_webmana.Constants.{max_sessions, session_max_age_us}
use espidf_component_webmana.CLib.{strstr, scan_word}
use espidf_component_webmana.Hex.{generate_random_token}
use espidf_component_webmana.Users.Record.{StoredUser}

pub record Session : Type 0 where
  pub token : Bytes
  pub username : Bytes
  pub roles : ℕ
  pub expiry_us : ℕ

-- InUse()
unfoldable pub in_use : Session → Bool
unfolding is_empty
in_use s = not (is_empty s.token)

abbrev pub free_slot : Session
free_slot = record { token = []; username = []; roles = 0; expiry_us = 0 }

abbrev pub no_sessions : List Session
no_sessions = replicate max_sessions free_slot

-- The first free slot, counted from `i`.
unfoldable pub first_free : List Session → ℕ → Option ℕ
unfolding in_use
first_free [] i = none
first_free (s ∷ ss) i = let later = first_free ss (i + 1) in if in_use s then later else some i

-- The loop that follows the earliest expiry; `best` is `sessions[oldest].expiry_us`.
unfoldable pub oldest_loop : List Session → (i oldest best : ℕ) → ℕ
unfolding lt64
oldest_loop [] i oldest best = oldest
oldest_loop (s ∷ ss) i oldest best =
    let earlier = lt64 s.expiry_us best in
    oldest_loop ss (i + 1) (if earlier then i else oldest) (if earlier then s.expiry_us else best)

unfoldable pub oldest_slot : List Session → ℕ
unfolding oldest_loop
oldest_slot [] = 0
oldest_slot (s ∷ ss) = oldest_loop ss 1 0 s.expiry_us

unfoldable pub choose_slot : List Session → ℕ
unfolding first_free oldest_slot
choose_slot ss = elim (first_free ss 0) [ none ↦ oldest_slot ss | some i ↦ i ]

unfoldable pub new_session : StoredUser → Bytes → ℕ → Session
unfolding generate_random_token add64
new_session user random now = record {
  token = generate_random_token random;
  username = user.username;
  roles = user.roles;
  expiry_us = add64 now session_max_age_us;
}

-- The token, and the slots.
unfoldable pub create_session : StoredUser → Bytes → ℕ → List Session → Bytes × List Session
unfolding choose_slot new_session
create_session user random now ss =
    let s = new_session user random now in (s.token, set ss (choose_slot ss) s)

-- `none` for false, else the content of `out_token_buf`.
unfoldable pub extract_session_token : Bytes → Option Bytes
unfolding strstr scan_word is_empty
extract_session_token cookie_header = elim (strstr (codes "session=") cookie_header) [
  | none ↦ none
  | some session_cookie ↦
      let token = scan_word 32 (drop 8 session_cookie) in
      if is_empty token then none else some token
]

-- The condition on a slot.
unfoldable pub matches : Bytes → ℕ → Session → Bool
unfolding in_use same_text lt64
matches token now s = in_use s && same_text s.token token && lt64 now s.expiry_us

-- The first slot that matches is renewed. `none` for false, else `outUsername` and `outRoles`.
unfoldable pub validate_loop : Bytes → ℕ → List Session → Option (Bytes × ℕ) × List Session
unfolding matches add64
validate_loop token now [] = (none, [])
validate_loop token now (s ∷ ss) =
    let (found, rest) = validate_loop token now ss in
    if matches token now s
    then (some (s.username, s.roles), record s { expiry_us = add64 now session_max_age_us } ∷ ss)
    else (found, s ∷ rest)

unfoldable pub validate_session_token : Bytes → ℕ → List Session → Option (Bytes × ℕ) × List Session
unfolding extract_session_token validate_loop
validate_session_token cookie_header now ss = elim (extract_session_token cookie_header) [
  | none ↦ (none, ss)
  | some token ↦ validate_loop token now ss
]

abbrev pub clear : Session → Session
clear s = record s { token = [] }

unfoldable pub invalidate_session_by_token : Bytes → List Session → List Session
unfolding in_use same_text is_empty
invalidate_session_by_token token ss =
    if is_empty token
    then ss
    else map (λ s. if in_use s && same_text s.token token then clear s else s) ss

unfoldable pub invalidate_all_sessions_for_user : Bytes → List Session → List Session
unfolding in_use same_text
invalidate_all_sessions_for_user username ss =
    map (λ s. if in_use s && same_text s.username username then clear s else s) ss
