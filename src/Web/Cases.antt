-- ===== src/Web/Cases.antt =====
-- What holds on each branch of a handler holds of the handler.
use Prim.Native.String.{String}
use espidf_component_webmana.Prelude.{◌≡◌, refl, Bool, true, false, if◌then◌else◌}
use espidf_component_webmana.Prelude.Text.{Bytes}
use espidf_component_webmana.Web.Http.{Reply}
use espidf_component_webmana.Web.Login.{
  Access, granted, denied, LoginForm, invalid_request, missing_credentials, credentials,
}
use espidf_component_webmana.Web.Admin.{DeleteForm, refused, target, UserForm, rejected, fields}

pub three_checks {ℓ κ} :
    {A : Type ℓ} (P : A → Type κ) (a b c : Bool) {x y z r : A}
    → P x
    → P y
    → P z
    → (c ≡ false → P r)
    → P (if a then x else if b then y else if c then z else r)
three_checks P true b c x y z r = x
three_checks P false true c x y z r = y
three_checks P false false true x y z r = z
three_checks P false false false x y z r = r refl

module _ {ℓ κ} {A : Type ℓ} (P : A → Type κ) where
  pub on_access :
      (a : Access) {x : Reply → A} {y : Bytes → A}
      → ((r : Reply) → P (x r))
      → ((u : Bytes) → P (y u))
      → P (elim a [ denied r ↦ x r | granted u ↦ y u ])
  on_access (denied r) f g = f r
  on_access (granted u) f g = g u

  pub on_delete_form :
      (d : DeleteForm) {x : String → A} {y : Bytes → A}
      → ((m : String) → P (x m))
      → ((u : Bytes) → P (y u))
      → P (elim d [ refused m ↦ x m | target u ↦ y u ])
  on_delete_form (refused m) f g = f m
  on_delete_form (target u) f g = g u

  pub on_user_form :
      (d : UserForm) {x : String → A} {y : Bytes → Bytes → Bytes → A}
      → ((m : String) → P (x m))
      → ((u v r : Bytes) → P (y u v r))
      → P (elim d [ rejected m ↦ x m | fields u v r ↦ y u v r ])
  on_user_form (rejected m) f g = f m
  on_user_form (fields u v r) f g = g u v r

pub on_login_form {ℓ κ} :
    {A : Type ℓ} (P : A → Type κ) (f : LoginForm) {a b : A} {y : Bytes → Bytes → A}
    → P a
    → P b
    → ((u v : Bytes) → f ≡ credentials u v → P (y u v))
    → P (elim f [ invalid_request ↦ a | missing_credentials ↦ b | credentials u v ↦ y u v ])
on_login_form P invalid_request h k g = h
on_login_form P missing_credentials h k g = k
on_login_form P (credentials u v) h k g = g u v refl
