-- ===== src/Sessions/Revoke.antt =====
-- Logging out, and revoking every session of a user.
use espidf_component_webmana.Prelude.{
  ℕ, ◌⊎◌, Option, none, ◌≡◌, ◌≢◌, refl, none, some, List, [], ◌∷◌, arith, map, ◌&&◌, if◌then◌else◌,
}
use espidf_component_webmana.Prelude.Text.{Bytes, same_text, same_text_iff, is_empty}
use espidf_component_webmana.Sessions.{
  Session, in_use, matches, validate_loop, clear, invalidate_session_by_token,
  invalidate_all_sessions_for_user,
}

abbrev clear_token : Bytes → Session → Session
clear_token token s = if in_use s && same_text s.token token then clear s else s

abbrev clear_user : Bytes → Session → Session
clear_user username s = if in_use s && same_text s.username username then clear s else s

token_loop :
    (token other : Bytes) (now : ℕ) (ss : List Session)
    → (validate_loop other now (map (clear_token token) ss)).0
      ≡ (if same_text token other then none else (validate_loop other now ss).0)
unfolding validate_loop matches in_use
token_loop token other now [] = ground arith
token_loop token other now (s ∷ ss) = ground (
  arith,
  same_text_iff s.token token,
  same_text_iff s.token other,
  same_text_iff token other,
  token_loop token other now ss,
)

-- After a logout with a token that is not empty nobody gets in with it, and every other token does
-- as before.
pub validate_loop-invalidate_session_by_token :
    (token other : Bytes) (now : ℕ) (ss : List Session)
    → token ≢ []
    → (validate_loop other now (invalidate_session_by_token token ss)).0
      ≡ (if same_text token other then none else (validate_loop other now ss).0)
unfolding invalidate_session_by_token is_empty
validate_loop-invalidate_session_by_token [] other now ss ne = absurd (ne refl)
validate_loop-invalidate_session_by_token (c ∷ token) other now ss ne =
    token_loop (c ∷ token) other now ss

-- The answer lets no user of the name in.
abbrev pub Excludes : Bytes → Option (Bytes × ℕ) → Type 0
Excludes username none = Unit
Excludes username (some (v, r)) = v ≢ username

-- Whoever was let in before is let in after, unless it is the user of the name.
abbrev pub KeepsOthers : Bytes → (before after : Option (Bytes × ℕ)) → Type 0
KeepsOthers username none after = Unit
KeepsOthers username (some (v, r)) after = (v ≡ username) ⊎ (after ≡ some (v, r))

user_loop :
    (username token : Bytes) (now : ℕ) (ss : List Session)
    → let after = (validate_loop token now (map (clear_user username) ss)).0 in
      Excludes username after × KeepsOthers username (validate_loop token now ss).0 after
unfolding validate_loop matches in_use
user_loop username token now [] = (tt, tt)
user_loop username token now (s ∷ ss) =
    let ih = user_loop username token now ss in ground (arith, same_text_iff s.username username)

-- After all sessions of a user are revoked no token lets that user in, and every token of another
-- user still does.
pub validate_loop-invalidate_all_sessions_for_user :
    (username token : Bytes) (now : ℕ) (ss : List Session)
    → let after = (validate_loop token now (invalidate_all_sessions_for_user username ss)).0 in
      Excludes username after × KeepsOthers username (validate_loop token now ss).0 after
unfolding invalidate_all_sessions_for_user
validate_loop-invalidate_all_sessions_for_user = user_loop
