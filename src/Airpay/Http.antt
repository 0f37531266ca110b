-- ===== src/Airpay/Http.antt =====
-- `HTTPException` of FastAPI, as api/airpay_runtime raises it: a status and a detail.
use homtech_hub.Prelude.{ℕ, Text, Bool, true, false, ◌≡◌, arith}

pub data HttpError : Type 0 where
  http : ℕ → Text → HttpError

abbrev pub detail_of : HttpError → Text
detail_of (http status detail) = detail

-- What a call that may raise `HTTPException` gives.
pub data Try {ℓ} (A : Type ℓ) : Type ℓ where
  returns : A → Try A
  raises : HttpError → Try A

infixl 5 ◌>>=◌ ◌>>◌
abbrev pub ◌>>=◌ {ℓ κ} : {A : Type ℓ} {B : Type κ} → Try A → (A → Try B) → Try B
returns a >>= f = f a
raises e >>= f = raises e

abbrev pub ◌>>◌ {ℓ} : {B : Type ℓ} → Try (Unit {0}) → Try B → Try B
m >> k = m >>= λ _. k

abbrev pub refuse_if : Bool → ℕ → Text → Try (Unit {0})
refuse_if true status detail = raises (http status detail)
refuse_if false status detail = returns tt

pub returns-injective {ℓ} : {A : Type ℓ} (a b : A) → returns a ≡ returns b → a ≡ b
returns-injective a b h = ground (arith, h)
