-- ===== src/Users/Record.antt =====
-- cpp/webmanager_base.hh: `StoredUser`, and the role bits of
-- best_binary_buffers_schema/usermanagement.cs.
use espidf_component_webmana.Prelude.{ℕ, Bool, not, ◌==◌, bit_and}
use espidf_component_webmana.Prelude.Text.{Bytes}

pub record StoredUser : Type 0 where
  pub username : Bytes
  pub salt : Bytes
  pub password_hash : Bytes
  pub roles : ℕ
  pub epoch : ℕ

abbrev pub admin : ℕ
admin = 1

abbrev pub operator : ℕ
operator = 2

abbrev pub viewer : ℕ
viewer = 4

-- `roles & (uint8_t)role`, as a condition.
unfoldable pub has_role : ℕ → ℕ → Bool
has_role roles role = not (bit_and roles role == 0)
