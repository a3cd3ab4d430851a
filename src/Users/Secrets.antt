-- ===== src/Users/Secrets.antt =====
-- cpp/webmanager_base.hh: `constant_time_equals`, and `parse_roles_csv`.
pub mod Compare
pub mod Roles
use espidf_component_webmana.Prelude.{
  ℕ, zero, suc, Bool, true, false, List, [], ◌∷◌, ◌==◌, if◌then◌else◌, length, bit_or, bit_xor,
}
use espidf_component_webmana.Prelude.Text.{Bytes, codes, same_text, is_empty}
use espidf_component_webmana.Users.Record.{admin, operator, viewer}

-- The loop over two texts of one length, from the value of `diff` on.
unfoldable pub diff_loop : Bytes → Bytes → ℕ → ℕ
diff_loop [] bs diff = diff
diff_loop (a ∷ as') [] diff = diff
diff_loop (a ∷ as') (b ∷ bs) diff = diff_loop as' bs (bit_or diff (bit_xor a b))

unfoldable pub constant_time_equals : Bytes → Bytes → Bool
unfolding diff_loop
constant_time_equals a b = if length a == length b then diff_loop a b 0 == 0 else false

-- The token that `c` begins or continues.
abbrev prepend : ℕ → List Bytes → List Bytes
prepend c [] = (c ∷ []) ∷ []
prepend c (token ∷ tokens) = (c ∷ token) ∷ tokens

-- The tokens that the loop takes out between the commas, in their order. There is one more than
-- there are commas.
unfoldable pub tokens : Bytes → List Bytes
tokens [] = [] ∷ []
tokens (c ∷ s) = let rest = tokens s in if c == b',' then [] ∷ rest else prepend c rest

unfoldable pub add_role : Bytes → ℕ → ℕ
unfolding same_text
add_role token roles =
    if same_text token (codes "Admin")
    then bit_or roles admin
    else if same_text token (codes "Operator")
    then bit_or roles operator
    else if same_text token (codes "Viewer")
    then bit_or roles viewer
    else roles

unfoldable pub add_roles : List Bytes → ℕ → ℕ
unfolding add_role
add_roles [] roles = roles
add_roles (token ∷ rest) roles = add_roles rest (add_role token roles)

unfoldable pub parse_roles_csv : Bytes → ℕ
unfolding tokens add_roles is_empty
parse_roles_csv s =
    if is_empty s
    then viewer
    else (let roles = add_roles (tokens s) 0 in if roles == 0 then viewer else roles)
