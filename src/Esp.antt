-- ===== src/Esp.antt =====
-- The error codes of ESP-IDF that the component tests, and `ESP_ERROR_CHECK`.
use espidf_component_webmana.Prelude.{ℕ, ◌≡◌, refl, Option, none, some, ◌==◌, if◌then◌else◌, arith}

-- An esp_err_t, as the 32-bit pattern that it has in memory.
abbrev pub esp_ok : ℕ
esp_ok = 0

abbrev pub esp_fail : ℕ
esp_fail = 0xffff_ffff

abbrev pub esp_err_invalid_arg : ℕ
esp_err_invalid_arg = 0x102

abbrev pub esp_err_invalid_state : ℕ
esp_err_invalid_state = 0x103

abbrev pub esp_err_nvs_not_found : ℕ
esp_err_nvs_not_found = 0x1102

-- `none` is a call of abort(), which restarts the device.
infixl 5 ◌>>=◌
abbrev pub ◌>>=◌ {ℓ κ} : {A : Type ℓ} {B : Type κ} → Option A → (A → Option B) → Option B
none >>= f = none
some a >>= f = f a

-- `ESP_ERROR_CHECK(call)`: the world after the call, unless it failed.
abbrev pub esp_error_check {ℓ} : {W : Type ℓ} → ℕ × W → Option W
esp_error_check (err, world) = if err == esp_ok then some world else none

pub bind-eq-some {ℓ κ} :
    {A : Type ℓ} {B : Type κ} (o : Option A) (f : A → Option B) {b : B}
    → (o >>= f) ≡ some b
    → (a : A) × (o ≡ some a) × (f a ≡ some b)
bind-eq-some none f e = cc
bind-eq-some (some a) f e = (a, refl, e)

pub esp_error_check-eq-some {ℓ} :
    {W : Type ℓ} (call : ℕ × W) {w : W} → esp_error_check call ≡ some w → call ≡ (esp_ok, w)
esp_error_check-eq-some (err, world) e = ground arith

pub eq_of_some {ℓ} : {A : Type ℓ} {a b : A} → some a ≡ some b → a ≡ b
eq_of_some e = cc

-- A step that succeeds, and the rest.
pub bind-some {ℓ κ} :
    {A : Type ℓ} {B : Type κ} (o : Option A) (f : A → Option B) {a : A} {b : Option B}
    → o ≡ some a
    → f a ≡ b
    → (o >>= f) ≡ b
bind-some o f e h = rw e h

pub esp_error_check_ok {ℓ} :
    {W : Type ℓ} (call : ℕ × W) {w : W} → call ≡ (esp_ok, w) → esp_error_check call ≡ some w
esp_error_check_ok call e = rw e refl
