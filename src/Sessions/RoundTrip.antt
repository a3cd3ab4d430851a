-- ===== src/Sessions/RoundTrip.antt =====
-- From the login to the next request: the token of a new session, in a cookie and back.
use espidf_component_webmana.Prelude.{
  ℕ, zero, suc, ◌+◌, ◌<◌, ◌^◌, ◌≡◌, ◌≢◌, refl, sym, ◌∙◌, inl, inr, ap, not, none, some, List, [],
  ◌∷◌, ◌++◌, arith, All, length, get_elem?, set, get_elem?-set_ne, get_elem?-set_self, Bool-cases,
  ◌==◌, ==_iff, if◌then◌else◌,
}
use espidf_component_webmana.Prelude.Text.{Bytes, codes, is_empty}
use espidf_component_webmana.Prelude.Word.{add64_exact}
use espidf_component_webmana.Constants.{session_max_age_us}
use espidf_component_webmana.CLib.{begins, strstr, scan_while, scan_word, skip_space, is_space}
use espidf_component_webmana.Hex.{
  IsByte, IsHex, bytes_to_hex, generate_random_token, length-bytes_to_hex, bytes_to_hex-IsHex,
}
use espidf_component_webmana.Users.Record.{StoredUser}
use espidf_component_webmana.Sessions.{
  Session, new_session, choose_slot, create_session, extract_session_token, validate_loop,
  validate_session_token,
}
use espidf_component_webmana.Sessions.Slots.{IsClocked, choose_slot_lem, get_elem?-lt}
use espidf_component_webmana.Sessions.Validate.{validate_loop-slot}

scan_while_hex :
    (n : ℕ) (token rest : Bytes)
    → All IsHex token
    → length token ≡ n
    → scan_while (λ c. not (is_space c)) n (token ++ rest) ≡ token
unfolding scan_while is_space
scan_while_hex zero [] rest h e = refl
scan_while_hex zero (c ∷ token) rest h e = absurd (omega arith)
scan_while_hex (suc n) [] rest h e = absurd (omega arith)
scan_while_hex (suc n) (c ∷ token) rest h e =
    let tail = scan_while_hex n token rest h.1 (omega arith) in ground arith

skip_space_hex : (c : ℕ) (s : Bytes) → IsHex c → skip_space (c ∷ s) ≡ c ∷ s
unfolding skip_space is_space
skip_space_hex c s h = ground arith

scan_word_hex :
    (token rest : Bytes)
    → All IsHex token
    → length token ≡ 32
    → scan_word 32 (token ++ rest) ≡ token
unfolding scan_word
scan_word_hex [] rest h n = absurd (omega arith)
scan_word_hex (c ∷ token) rest h n =
    ap (scan_while (λ x. not (is_space x)) 32) (skip_space_hex c (token ++ rest) h.0)
    ∙ scan_while_hex 32 (c ∷ token) rest h n

extract_at :
    (s : Bytes)
    → extract_session_token (codes "session=" ++ s)
      ≡ (if is_empty (scan_word 32 s) then none else some (scan_word 32 s))
unfolding extract_session_token strstr begins
extract_at s = refl

-- The token of a session comes out of a cookie header that begins with it.
extract_session_token-hex :
    (token rest : Bytes)
    → All IsHex token
    → length token ≡ 32
    → extract_session_token (codes "session=" ++ (token ++ rest)) ≡ some token
extract_session_token-hex [] rest h n = absurd (omega arith)
extract_session_token-hex (c ∷ token) rest h n =
    extract_at (c ∷ token ++ rest)
    ∙ rw (scan_word_hex (c ∷ token) rest h n) (unfold is_empty in refl)

validate_session_token_at :
    (header token : Bytes) (now : ℕ) (ss : List Session)
    → extract_session_token header ≡ some token
    → validate_session_token header now ss ≡ validate_loop token now ss
unfolding validate_session_token
validate_session_token_at header token now ss e = rw (e, validate_session_token) refl

set-IsClocked :
    (ss : List Session) (i : ℕ) (s : Session)
    → All IsClocked ss
    → IsClocked s
    → All IsClocked (set ss i s)
set-IsClocked [] i v h q = tt
set-IsClocked (x ∷ xs) zero v h q = (q, h.1)
set-IsClocked (x ∷ xs) (suc i) v h q = (h.0, set-IsClocked xs i v h.1 q)

-- No session of the table has the token.
abbrev pub IsFresh : Bytes → List Session → Type 0
IsFresh token ss = (j : ℕ) (t : Session) → get_elem? ss j ≡ some t → t.token ≢ token

module _ (user : StoredUser) (random rest : Bytes) (now later : ℕ) (ss : List Session) where
  only_slot :
      IsFresh (generate_random_token random) ss
      → (j : ℕ) (t : Session)
      → get_elem? (set ss (choose_slot ss) (new_session user random now)) j ≡ some t
      → t.token ≡ generate_random_token random
      → choose_slot ss ≡ j
  only_slot fresh j t e same = elim (Bool-cases (choose_slot ss == j)) [
    | inl yes_here ↦ (==_iff (choose_slot ss) j).0 yes_here
    | inr no_here ↦
        let ne : choose_slot ss ≢ j = λ q. cc (no_here, (==_iff (choose_slot ss) j).1 q) in
        absurd (fresh j t (sym (get_elem?-set_ne ss (choose_slot ss) j _ ne) ∙ e) same)
  ]

  -- The cookie of a new session lets its user in, with the user's roles, until SESSION_MAX_AGE_US
  -- after the login, if its 16 random bytes are those of no other session, whatever follows the
  -- token in the header. There is at least one slot, and the clock and the expiries are times of an
  -- int64_t.
  pub validate_session_token-create_session :
      0 < length ss
      → All IsClocked ss
      → length random ≡ 16
      → All IsByte random
      → IsFresh (generate_random_token random) ss
      → now + session_max_age_us < 2 ^ 63
      → later < now + session_max_age_us
      → let (token, ss') = create_session user random now ss in
        (validate_session_token (codes "session=" ++ (token ++ rest)) later ss').0
        ≡ some (user.username, user.roles)
  unfolding create_session new_session generate_random_token
  validate_session_token-create_session n c l b fresh h k =
      let token = bytes_to_hex random in
      let (t, g, unused) = choose_slot_lem ss n c in
      let size : length token ≡ 32 = omega (arith, length-bytes_to_hex random) in
      let expiry = add64_exact now session_max_age_us h in
      let ss' = set ss (choose_slot ss) (new_session user random now) in
      ap (λ r. r.0)
        (validate_session_token_at (codes "session=" ++ (token ++ rest)) token later ss'
          (extract_session_token-hex token rest (bytes_to_hex-IsHex random b) size))
      ∙ validate_loop-slot token later (choose_slot ss) ss' (new_session user random now)
          (omega arith)
          (set-IsClocked ss (choose_slot ss) (new_session user random now) c (omega arith))
          (get_elem?-set_self ss (choose_slot ss) _ (get_elem?-lt ss (choose_slot ss) g))
          (record {
            same = refl;
            used = (λ e. absurd (omega (arith, ap length e)));
            fresh = omega arith;
          })
          (only_slot fresh)
