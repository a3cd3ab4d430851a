-- ===== src/Users/Form/Fields.antt =====
-- The fields of a form that a browser encoded are what the user typed.
use espidf_component_webmana.Prelude.{
  ℕ, zero, suc, ◌≤◌, ◌<◌, ◌≡◌, ◌≢◌, ◌⊎◌, refl, drop, ◌∙◌, false, some, [], ◌∷◌, ◌++◌, arith, All,
  length, ap,
}
use espidf_component_webmana.Prelude.Text.{Bytes, codes, c_str}
use espidf_component_webmana.CLib.{begins, strstr, scan_while, scan_field, is_alnum, is_digit}
use espidf_component_webmana.Users.Form.{field_value, find_field}
use espidf_component_webmana.Users.Form.Encoding.{
  url_encode, encode_byte, is_safe, escape_digit, url_decode-url_encode,
}

-- No separator of the form's syntax.
abbrev IsPlain : ℕ → Type 0
IsPlain c = (c ≢ b'&') × (c ≢ b'=')

encode_byte-IsPlain :
    (c : ℕ) (s : Bytes) → c < 256 → All IsPlain s → All IsPlain (encode_byte c ++ s)
unfolding encode_byte is_safe is_alnum is_digit escape_digit
encode_byte-IsPlain c s h a = ground arith

url_encode-IsPlain : (s : Bytes) → All (λ c. c < 256) s → All IsPlain (url_encode s)
unfolding url_encode
url_encode-IsPlain [] h = tt
url_encode-IsPlain (c ∷ s) h = encode_byte-IsPlain c (url_encode s) h.0 (url_encode-IsPlain s h.1)

-- The needle has a `=` and no `&` before it.
abbrev IsName : Bytes → Type 0
IsName [] = ⊥
IsName (n ∷ ns) = (n ≡ b'=') ⊎ ((n ≢ b'=') × (n ≢ b'&') × IsName ns)

begins_plain : (n x r : Bytes) → IsName n → All IsPlain x → begins n (x ++ b'&' ∷ r) ≡ false
unfolding begins
begins_plain [] x r h a = absurd h
begins_plain (n ∷ ns) [] r h a = ground arith
begins_plain (n ∷ ns) (c ∷ x) r h a = ground (arith, begins_plain ns x r)

strstr_plain : (n x r : Bytes) → IsName n → All IsPlain x → strstr n (x ++ b'&' ∷ r) ≡ strstr n r
unfolding strstr
strstr_plain n [] r h a = rw (begins_plain n [] r h a) refl
strstr_plain n (c ∷ x) r h a = rw (begins_plain n (c ∷ x) r h a) (strstr_plain n x r h a.1)

scan_field_plain :
    (n : ℕ) (x r : Bytes)
    → length x ≤ n
    → All IsPlain x
    → (scan_field n (x ++ b'&' ∷ r) ≡ x) × (scan_field n x ≡ x)
unfolding scan_field scan_while
scan_field_plain zero [] r h a = (refl, refl)
scan_field_plain zero (c ∷ x) r h a = absurd (omega arith)
scan_field_plain (suc n) [] r h a = (refl, refl)
scan_field_plain (suc n) (c ∷ x) r h a = ground (arith, scan_field_plain n x r)

c_str_text : (s : Bytes) → All (λ c. c ≢ 0) s → c_str s ≡ s
unfolding c_str
c_str_text [] h = refl
c_str_text (c ∷ s) h = ground (arith, c_str_text s)

-- What a user can type into the field: no NUL, and at most 63 bytes once it is encoded.
pub record IsEntry (s : Bytes) : Type 0 where
  pub bytes : All (λ c. c < 256) s
  pub text : All (λ c. c ≢ 0) s
  pub short : length (url_encode s) ≤ 63

field_value-url_encode :
    (s r : Bytes)
    → IsEntry s
    → (field_value (url_encode s ++ b'&' ∷ r) ≡ s) × (field_value (url_encode s) ≡ s)
unfolding field_value
field_value-url_encode s r e =
    let (a, b) = scan_field_plain 63 (url_encode s) r e.short (url_encode-IsPlain s e.bytes) in
    (
      rw (a, url_decode-url_encode s e.bytes) (c_str_text s e.text),
      rw (b, url_decode-url_encode s e.bytes) (c_str_text s e.text),
    )

-- The body that a browser sends for the login form.
abbrev pub login_body : Bytes → Bytes → Bytes
login_body username password =
    codes "username=" ++ (url_encode username ++ (codes "&password=" ++ url_encode password))

find_username :
    (s : Bytes) → find_field (codes "username=") (codes "username=" ++ s) ≡ some (field_value s)
unfolding find_field strstr begins
find_username s = refl

skip_username :
    (s : Bytes) → strstr (codes "password=") (codes "username=" ++ s) ≡ strstr (codes "password=") s
unfolding strstr begins
skip_username s = refl

find_password :
    (s : Bytes)
    → strstr (codes "password=") (codes "password=" ++ s) ≡ some (codes "password=" ++ s)
unfolding strstr begins
find_password s = refl

password-IsName : IsName (codes "password=")
password-IsName = ground arith

find_field_at :
    (name buf s : Bytes)
    → strstr name buf ≡ some s
    → find_field name buf ≡ some (field_value (drop (length name) s))
unfolding find_field
find_field_at name buf s e = ground arith

-- The user's name and password arrive as typed, if each is a text of bytes without NUL and has at
-- most 63 bytes once it is encoded.
pub find_field-login_body :
    (username password : Bytes)
    → IsEntry username
    → IsEntry password
    → (find_field (codes "username=") (login_body username password) ≡ some username)
      × (find_field (codes "password=") (login_body username password) ≡ some password)
unfolding find_field
find_field-login_body u p hu hp =
    let password_at : strstr (codes "password=") (login_body u p)
        ≡ some (codes "password=" ++ url_encode p) =
      skip_username (url_encode u ++ (codes "&password=" ++ url_encode p))
      ∙ strstr_plain (codes "password=") (url_encode u) (codes "password=" ++ url_encode p)
          password-IsName (url_encode-IsPlain u hu.bytes)
      ∙ find_password (url_encode p) in
    (
      find_username (url_encode u ++ (codes "&password=" ++ url_encode p))
          ∙ ap some ((field_value-url_encode u (codes "password=" ++ url_encode p) hu).0),
      find_field_at (codes "password=") (login_body u p) _ password_at
          ∙ ap some ((field_value-url_encode p [] hp).1),
    )
