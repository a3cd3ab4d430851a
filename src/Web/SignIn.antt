-- ===== src/Web/SignIn.antt =====
-- Logging in: from the browser's form to the session's cookie, and who gets no session.
use espidf_component_webmana.Prelude.{
  ℕ, ◌+◌, ◌<◌, ◌^◌, ◌≡◌, ◌≢◌, ◌⊎◌, refl, sym, ◌∙◌, ap, inl, inr, Option, none, some, ◌++◌, arith,
  All, length,
}
use mathlib.Core.Path.{subst}
use espidf_component_webmana.Prelude.Text.{Bytes, codes, c_str}
use espidf_component_webmana.Constants.{session_max_age_us}
use espidf_component_webmana.Hex.{IsByte, generate_random_token}
use espidf_component_webmana.Sessions.{create_session, validate_session_token}
use espidf_component_webmana.Sessions.Slots.{IsClocked}
use espidf_component_webmana.Sessions.RoundTrip.{IsFresh, validate_session_token-create_session}
use espidf_component_webmana.Users.Record.{StoredUser}
use espidf_component_webmana.Users.Form.Fields.{IsEntry, login_body, find_field-login_body}
use espidf_component_webmana.Users.Form.{find_field}
use espidf_component_webmana.Users.Platform.{Platform}
use espidf_component_webmana.Users.Store.{hash_password, load_user, validate_credentials_and_load}
use espidf_component_webmana.Users.Store.Files.{validate_credentials_and_load_iff}
use espidf_component_webmana.Web.Cases.{on_login_form}
use espidf_component_webmana.Web.Http.{Request, see_other, Answer, Server, set_session_cookies}
use espidf_component_webmana.Web.Login.{credentials, read_login_form, log_in, handle_login_post}

-- What the browser sends for the form. The whole body arrives in one call.
pub record IsSubmitted (username password : Bytes) (req : Request) : Type 0 where
  pub name : IsEntry username
  pub word : IsEntry password
  pub received : c_str (req.body 255).1 ≡ login_body username password
  pub counted : (req.body 255).0 ≢ 0

read_login_form-login_body :
    (username password : Bytes) (req : Request)
    → IsSubmitted username password req
    → read_login_form req ≡ credentials username password
unfolding read_login_form
read_login_form-login_body username password req i =
    let (a, b) = find_field-login_body username password i.name i.word in
    let u = ap (find_field (codes "username=")) i.received ∙ a in
    let p = ap (find_field (codes "password=")) i.received ∙ b in let n = i.counted in ground arith

handle_login_post_at :
    (p : Platform) (req : Request) (now : ℕ) (s : Server p) (username password : Bytes)
    → read_login_form req ≡ credentials username password
    → handle_login_post req now s
      ≡ log_in (validate_credentials_and_load p username password s.world) now s
unfolding handle_login_post
handle_login_post_at p req now s username password e = rw (e, handle_login_post) refl

log_in_valid :
    (p : Platform) (now : ℕ) (s : Server p) (username password : Bytes) (user : StoredUser)
    → load_user p username s.world ≡ some user
    → hash_password p user.salt password ≡ user.password_hash
    → log_in (validate_credentials_and_load p username password s.world) now s
      ≡ log_in (some user) now s
log_in_valid p now s username password user l h =
    rw ((validate_credentials_and_load_iff p username password s.world user).1 (l, h)) refl

-- The answer brings a cookie that lets the user in at the later time, whatever the browser sends
-- behind it.
abbrev pub Welcomes :
    {p : Platform} → StoredUser → (rest : Bytes) (later : ℕ) → Answer × Server p → Type 0
Welcomes user rest later (answer, s) =
    (token : Bytes) × (answer.reply ≡ see_other (set_session_cookies token user.username))
    × ((validate_session_token (codes "session=" ++ (token ++ rest)) later s.sessions).0
        ≡ some (user.username, user.roles))

-- The 16 random bytes of the login give a token that no session has.
pub record IsDrawn (p : Platform) (s : Server p) : Type 0 where
  pub size : length (p.fill_random s.world).0 ≡ 16
  pub bytes : All IsByte (p.fill_random s.world).0
  pub fresh : IsFresh (generate_random_token (p.fill_random s.world).0) s.sessions

log_in-Welcomes :
    (p : Platform) (now later : ℕ) (s : Server p) (rest : Bytes) (user : StoredUser)
    → 0 < length s.sessions
    → All IsClocked s.sessions
    → IsDrawn p s
    → now + session_max_age_us < 2 ^ 63
    → later < now + session_max_age_us
    → Welcomes user rest later (log_in (some user) now s)
unfolding log_in
log_in-Welcomes p now later s rest user n c d t k = (
  (create_session user (p.fill_random s.world).0 now s.sessions).0,
  refl,
  validate_session_token-create_session user (p.fill_random s.world).0 rest now later s.sessions n c
      d.size d.bytes d.fresh t k,
)

-- A user who submits the form with the right password is answered with a cookie. That cookie lets
-- the user in, with the roles of the record, until SESSION_MAX_AGE_US later. The form arrives in
-- one call, its texts have no NUL and at most 63 bytes each once they are encoded, the 16 random
-- bytes give no token in use, and the clock and the expiries are times of an int64_t.
pub handle_login_post-Welcomes :
    (p : Platform) (req : Request) (now later : ℕ) (s : Server p) (username password rest : Bytes)
    (user : StoredUser)
    → IsSubmitted username password req
    → load_user p username s.world ≡ some user
    → hash_password p user.salt password ≡ user.password_hash
    → 0 < length s.sessions
    → All IsClocked s.sessions
    → IsDrawn p s
    → now + session_max_age_us < 2 ^ 63
    → later < now + session_max_age_us
    → Welcomes user rest later (handle_login_post req now s)
handle_login_post-Welcomes p req now later s username password rest user i l h n c d t k =
    subst (Welcomes user rest later)
      (sym (
        handle_login_post_at p req now s username password
          (read_login_form-login_body username password req i)
        ∙ log_in_valid p now s username password user l h))
      (log_in-Welcomes p now later s rest user n c d t k)

-- The server is unchanged, or the request named a user with the password of the user's record, and
-- one session of that user was made.
abbrev pub OnlyWithPassword : {p : Platform} → Request → ℕ → Server p → Server p → Type 0
OnlyWithPassword {p = p} req now s s' =
    (s' ≡ s)
    ⊎ ((username password : Bytes) × (user : StoredUser) × (read_login_form req
          ≡ credentials username password)
        × (load_user p username s.world ≡ some user)
        × (hash_password p user.salt password ≡ user.password_hash)
        × (s'.sessions ≡ (create_session user (p.fill_random s.world).0 now s.sessions).1))

log_in-OnlyWithPassword :
    (p : Platform) (req : Request) (now : ℕ) (s : Server p) (username password : Bytes)
    → read_login_form req ≡ credentials username password
    → (o : Option StoredUser) → validate_credentials_and_load p username password s.world ≡ o
    → OnlyWithPassword req now s (log_in o now s).1
unfolding log_in
log_in-OnlyWithPassword p req now s username password f none e = inl refl
log_in-OnlyWithPassword p req now s username password f (some user) e =
    let (l, h) = (validate_credentials_and_load_iff p username password s.world user).0 e in
    inr (username, password, user, f, l, h, refl)

-- A request changes the sessions only if it brings the name of a user whose record is there and a
-- password with the record's hash, and then it adds one session for that user.
pub handle_login_post-OnlyWithPassword :
    (p : Platform) (req : Request) (now : ℕ) (s : Server p)
    → OnlyWithPassword req now s (handle_login_post req now s).1
unfolding handle_login_post
handle_login_post-OnlyWithPassword p req now s =
    on_login_form (λ (r : Answer × Server p). OnlyWithPassword req now s r.1) (read_login_form req)
      (inl refl) (inl refl)
      λ username password f. log_in-OnlyWithPassword p req now s username password f _ refl
