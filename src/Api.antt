-- ===== src/Api.antt =====
-- Errors as the API sends them: an HTTP status, a code and `Retry-After`. The wording of a message
-- is left out; no code reads it.
use steakout.Prelude.{ℕ, Bool, true, false, Option, none}

pub data Code : Type 0 where
  validation wallet_not_connected intent_not_found tx_pending tx_failed tx_mismatch : Code
  rpc_unavailable rpc_malformed rpc_method_error : Code
  rate_limited challenge_expired signature_rejected internal : Code

pub record ApiError : Type 0 where
  pub http_status : ℕ
  pub code : Code
  pub retry_after : Option ℕ

abbrev pub api_error : ℕ → Code → ApiError
api_error s c = record { http_status = s; code = c; retry_after = none }

-- The error of every check of a request's body.
abbrev pub invalid : ApiError
invalid = api_error 400 validation

pub data Result {ℓ} (A : Type ℓ) : Type ℓ where
  ok : A → Result A
  err : ApiError → Result A

abbrev pub is_ok {ℓ} : {A : Type ℓ} → Result A → Bool
is_ok (err thrown) = false
is_ok (ok value) = true

-- A chain of steps, which ends at the first that throws.
module _ {ℓ κ} {A : Type ℓ} {B : Type κ} where
  infixl 5 ◌>>=◌
  abbrev pub ◌>>=◌ : Result A → (A → Result B) → Result B
  err thrown >>= step = err thrown
  ok value >>= step = step value

-- The same for a check, which returns nothing.
infixl 5 ◌>>◌
abbrev pub ◌>>◌ {κ} : {B : Type κ} → Result (Unit {0}) → Result B → Result B
check >> step = check >>= λ _. step

-- A check that throws unless its test holds.
abbrev pub require : Bool → ApiError → Result (Unit {0})
require false thrown = err thrown
require true thrown = ok tt
