-- ===== src/Sessions/Tests.antt =====
-- The theorems on the sessions at concrete tables.
use espidf_component_webmana.Prelude.{
  ℕ, zero, suc, replicate, ◌++◌, set, ◌≤◌, ◌≡◌, ◌⊎◌, refl, true, false, none, some, List, [], ◌∷◌,
  arith, All, get_elem?, if◌then◌else◌,
}
use espidf_component_webmana.Prelude.Text.{codes, same_text}
use espidf_component_webmana.Hex.{generate_random_token, bytes_to_hex, hex_digit}
use espidf_component_webmana.Users.Record.{StoredUser, admin}
use espidf_component_webmana.Sessions.{
  validate_session_token, Session, in_use, create_session, new_session, validate_loop,
  invalidate_session_by_token, invalidate_all_sessions_for_user,
}
use espidf_component_webmana.Sessions.RoundTrip.{IsFresh, validate_session_token-create_session}
use espidf_component_webmana.Sessions.Slots.{create_session_lem}
use espidf_component_webmana.Sessions.Validate.{Admits, validate_loop-Admits}
use espidf_component_webmana.Sessions.Revoke.{
  Excludes, KeepsOthers, validate_loop-invalidate_session_by_token,
  validate_loop-invalidate_all_sessions_for_user,
}

abbrev alice : StoredUser
alice = record { username = codes "alice"; salt = []; password_hash = []; roles = admin; epoch = 0 }

abbrev held : Session
held = record { token = codes "ab"; username = codes "alice"; roles = admin; expiry_us = 9 }

abbrev other : Session
other = record { token = codes "cd"; username = codes "bob"; roles = 4; expiry_us = 5 }

abbrev table : List Session
table = held ∷ other ∷ []

create_session_lem_example :
    let (token, ss') = create_session alice (1 ∷ []) 7 table in
    (i : ℕ) × (t : Session) × (get_elem? table i ≡ some t)
    × (ss' ≡ set table i (new_session alice (1 ∷ []) 7))
    × ((in_use t ≡ false)
        ⊎ (All (λ s. in_use s ≡ true) table × All (λ s. t.expiry_us ≤ s.expiry_us) table))
create_session_lem_example =
    create_session_lem alice (1 ∷ []) 7 table (omega arith) (omega arith, (omega arith, tt))

validate_loop-Admits_example : Admits (codes "cd") 3 table (validate_loop (codes "cd") 3 table)
validate_loop-Admits_example =
    validate_loop-Admits (codes "cd") 3 table (omega arith) (omega arith, (omega arith, tt))

validate_loop-invalidate_session_by_token_example :
    (validate_loop (codes "cd") 3 (invalidate_session_by_token (codes "ab") table)).0
    ≡ (if same_text (codes "ab") (codes "cd") then none else (validate_loop (codes "cd") 3 table).0)
validate_loop-invalidate_session_by_token_example =
    validate_loop-invalidate_session_by_token (codes "ab") (codes "cd") 3 table (λ e. cc)

validate_loop-invalidate_all_sessions_for_user_example :
    let after =
      (validate_loop (codes "cd") 3 (invalidate_all_sessions_for_user (codes "alice") table)).0 in
    Excludes (codes "alice") after
    × KeepsOthers (codes "alice") (validate_loop (codes "cd") 3 table).0 after
validate_loop-invalidate_all_sessions_for_user_example =
    validate_loop-invalidate_all_sessions_for_user (codes "alice") (codes "cd") 3 table

table-IsFresh : IsFresh (generate_random_token (replicate 16 7)) table
unfolding generate_random_token bytes_to_hex hex_digit
table-IsFresh zero t e q = cc
table-IsFresh (suc zero) t e q = cc
table-IsFresh (suc (suc j)) t e q = cc

validate_session_token-create_session_example :
    let (token, ss') = create_session alice (replicate 16 7) 7 table in
    (validate_session_token (codes "session=" ++ (token ++ codes "; a=b")) 8 ss').0
    ≡ some (codes "alice", admin)
validate_session_token-create_session_example =
    validate_session_token-create_session alice (replicate 16 7) (codes "; a=b") 7 8 table
      (omega arith) (omega arith, (omega arith, tt)) refl (ground arith) table-IsFresh (omega arith)
      (omega arith)
