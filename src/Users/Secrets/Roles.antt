-- ===== src/Users/Secrets/Roles.antt =====
-- Which roles a form grants.
use espidf_component_webmana.Prelude.{
  ℕ, zero, suc, ◌<◌, ◌≡◌, refl, ◌∙◌, ap, Bool, true, false, ◌||◌, List, [], ◌∷◌, ◌++◌, ◌≢◌, All,
  arith, bit_or, ◌==◌, if◌then◌else◌,
}
use espidf_component_webmana.Prelude.Text.{Bytes, codes, same_text, same_text_iff, is_empty}
use espidf_component_webmana.Users.Record.{admin, operator, viewer, has_role}
use espidf_component_webmana.Users.Secrets.{tokens, prepend, add_role, add_roles, parse_roles_csv}

-- Is the word one of the texts?
abbrev pub contains : Bytes → List Bytes → Bool
contains word [] = false
contains word (t ∷ ts) = same_text t word || contains word ts

-- What setting a bit does to the roles Admin and Operator of a mask of three bits.
abbrev IsMask : ℕ → Type 0
IsMask r =
    (has_role (bit_or r admin) admin ≡ true)
    × (has_role (bit_or r admin) operator ≡ has_role r operator)
    × (has_role (bit_or r operator) admin ≡ has_role r admin)
    × (has_role (bit_or r operator) operator ≡ true)
    × (has_role (bit_or r viewer) admin ≡ has_role r admin)
    × (has_role (bit_or r viewer) operator ≡ has_role r operator)
    × (bit_or r admin < 8)
    × (bit_or r operator < 8)
    × (bit_or r viewer < 8)

mask : (r : ℕ) → r < 8 → IsMask r
unfolding has_role
mask zero h = (refl, refl, refl, refl, refl, refl, omega arith, omega arith, omega arith)
mask (suc zero) h = (refl, refl, refl, refl, refl, refl, omega arith, omega arith, omega arith)
mask (suc (suc zero)) h =
    (refl, refl, refl, refl, refl, refl, omega arith, omega arith, omega arith)
mask (suc (suc (suc zero))) h =
    (refl, refl, refl, refl, refl, refl, omega arith, omega arith, omega arith)
mask (suc (suc (suc (suc zero)))) h =
    (refl, refl, refl, refl, refl, refl, omega arith, omega arith, omega arith)
mask (suc (suc (suc (suc (suc zero))))) h =
    (refl, refl, refl, refl, refl, refl, omega arith, omega arith, omega arith)
mask (suc (suc (suc (suc (suc (suc zero)))))) h =
    (refl, refl, refl, refl, refl, refl, omega arith, omega arith, omega arith)
mask (suc (suc (suc (suc (suc (suc (suc zero))))))) h =
    (refl, refl, refl, refl, refl, refl, omega arith, omega arith, omega arith)
mask (suc (suc (suc (suc (suc (suc (suc (suc r)))))))) h = absurd (omega arith)

no_operator :
    (token : Bytes)
    → same_text token (codes "Admin") ≡ true
    → same_text token (codes "Operator") ≡ false
unfolding same_text
no_operator token e = rw ((same_text_iff token (codes "Admin")).0 e) refl

add_role-mask :
    (token : Bytes) (r : ℕ)
    → r < 8
    → (add_role token r < 8)
      × (has_role (add_role token r) admin ≡ (same_text token (codes "Admin") || has_role r admin))
      × (has_role (add_role token r) operator
          ≡ (same_text token (codes "Operator") || has_role r operator))
unfolding add_role
add_role-mask token r h =
    let (aa, ao, oa, oo, va, vo, as', os, vs) = mask r h in
    (ground arith, ground arith, ground (arith, no_operator token))

add_roles-contains :
    (ts : List Bytes) (r : ℕ)
    → r < 8
    → (add_roles ts r < 8)
      × (has_role (add_roles ts r) admin ≡ (contains (codes "Admin") ts || has_role r admin))
      × (has_role (add_roles ts r) operator
          ≡ (contains (codes "Operator") ts || has_role r operator))
unfolding add_roles
add_roles-contains [] r h = (h, refl, refl)
add_roles-contains (t ∷ ts) r h =
    let (small, a, o) = add_role-mask t r h in
    let (small', a', o') = add_roles-contains ts (add_role t r) small in
    (small', ground arith, ground arith)

or_false : (b : Bool) → (b || false) ≡ b
or_false true = refl
or_false false = refl

-- `roles == 0 ? Viewer : roles`
unfoldable or_viewer : ℕ → ℕ
or_viewer r = if r == 0 then viewer else r

or_viewer-suc : (r : ℕ) → or_viewer (suc r) ≡ suc r
unfolding or_viewer
or_viewer-suc r = ground arith

or_viewer-has_role :
    (r : ℕ)
    → (has_role (or_viewer r) admin ≡ has_role r admin)
      × (has_role (or_viewer r) operator ≡ has_role r operator)
unfolding has_role or_viewer
or_viewer-has_role zero = (refl, refl)
or_viewer-has_role (suc r) =
    (ap (λ x. has_role x admin) (or_viewer-suc r), ap (λ x. has_role x operator) (or_viewer-suc r))

parse_words :
    (c : ℕ) (s : Bytes) → parse_roles_csv (c ∷ s) ≡ or_viewer (add_roles (tokens (c ∷ s)) 0)
unfolding parse_roles_csv is_empty or_viewer
parse_words c s = refl

roles-tokens :
    (s : Bytes)
    → (has_role (parse_roles_csv s) admin ≡ contains (codes "Admin") (tokens s))
      × (has_role (parse_roles_csv s) operator ≡ contains (codes "Operator") (tokens s))
unfolding parse_roles_csv has_role tokens is_empty same_text
roles-tokens [] = (refl, refl)
roles-tokens (c ∷ s) =
    let (small, a, o) = add_roles-contains (tokens (c ∷ s)) 0 (omega arith) in
    let (da, do') = or_viewer-has_role (add_roles (tokens (c ∷ s)) 0) in
    (
      ap (λ r. has_role r admin) (parse_words c s)
          ∙ da
          ∙ a
          ∙ or_false (contains (codes "Admin") (tokens (c ∷ s))),
      ap (λ r. has_role r operator) (parse_words c s)
          ∙ do'
          ∙ o
          ∙ or_false (contains (codes "Operator") (tokens (c ∷ s))),
    )

-- The words with a comma between any two.
abbrev pub with_commas : List Bytes → Bytes
with_commas [] = []
with_commas (word ∷ []) = word
with_commas (word ∷ next ∷ words) = word ++ (44 ∷ with_commas (next ∷ words))

abbrev pub HasNoComma : Bytes → Type 0
HasNoComma word = All (λ c. c ≢ 44) word

tokens_word : (word : Bytes) → HasNoComma word → tokens word ≡ word ∷ []
unfolding tokens
tokens_word [] h = refl
tokens_word (c ∷ word) h =
    let ordinary : (c == 44) ≡ false = ground arith in
    rw ordinary (ap (prepend c) (tokens_word word h.1))

tokens_comma : (word s : Bytes) → HasNoComma word → tokens (word ++ (44 ∷ s)) ≡ word ∷ tokens s
unfolding tokens
tokens_comma [] s h = refl
tokens_comma (c ∷ word) s h =
    let ordinary : (c == 44) ≡ false = ground arith in
    rw ordinary (ap (prepend c) (tokens_comma word s h.1))

tokens-with_commas :
    (word : Bytes) (words : List Bytes)
    → HasNoComma word
    → All HasNoComma words
    → tokens (with_commas (word ∷ words)) ≡ word ∷ words
tokens-with_commas word [] h a = tokens_word word h
tokens-with_commas word (next ∷ words) h a =
    tokens_comma word (with_commas (next ∷ words)) h
    ∙ ap (λ ts. word ∷ ts) (tokens-with_commas next words a.0 a.1)

-- Of any words without a comma, separated by commas: the roles that are parsed hold Admin exactly if
-- `Admin` is one of the words, and Operator exactly if `Operator` is one of them; no other word grants
-- either.
pub parse_roles_csv-contains :
    (word : Bytes) (words : List Bytes)
    → HasNoComma word
    → All HasNoComma words
    → (has_role (parse_roles_csv (with_commas (word ∷ words))) admin
        ≡ contains (codes "Admin") (word ∷ words))
      × (has_role (parse_roles_csv (with_commas (word ∷ words))) operator
          ≡ contains (codes "Operator") (word ∷ words))
parse_roles_csv-contains word words h a =
    let (is_admin, is_operator) = roles-tokens (with_commas (word ∷ words)) in
    let split = tokens-with_commas word words h a in
    (
      is_admin ∙ ap (contains (codes "Admin")) split,
      is_operator ∙ ap (contains (codes "Operator")) split,
    )
