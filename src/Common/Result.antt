-- ===== src/Common/Result.antt =====
-- A call that may throw: the value, or the error with the status that the HTTP layer answers.
use Prim.Native.Nat.{ℕ}
use Prim.Native.String.{String}
use mathlib.Core.Path.{◌≡◌, refl}
use mathlib.Core.Logic.{◌⊎◌, inl, inr}
use mathlib.Core.Bool.{Bool, true, false}

-- `Object.assign(new Error(message), { status })`
pub record HttpError : Type 0 where
  pub status : ℕ
  pub message : String

pub data Result {ℓ} (A : Type ℓ) : Type ℓ where
  ok : A → Result A
  err : HttpError → Result A

abbrev pub http_error : ℕ → String → HttpError
http_error status message = record { status = status; message = message }

abbrev pub throw {ℓ} : {A : Type ℓ} → ℕ → String → Result A
throw status message = err (http_error status message)

-- what follows a call runs only on its value
infixl 5 ◌>>=◌ ◌>>◌
abbrev pub ◌>>=◌ {κ ℓ} : {B : Type κ} {A : Type ℓ} → Result B → (B → Result A) → Result A
err thrown >>= next = err thrown
ok value >>= next = next value

abbrev pub ◌>>◌ {κ} : {A : Type κ} → Result (Unit {0}) → Result A → Result A
check >> rest = check >>= λ _. rest

-- `if (test) throw httpError(status, message)`
abbrev pub throw_if : Bool → ℕ → String → Result (Unit {0})
throw_if true status message = throw status message
throw_if false status message = ok tt

pub Result-cases {ℓ} :
    {A : Type ℓ} (r : Result A) → ((e : HttpError) × (r ≡ err e)) ⊎ ((a : A) × (r ≡ ok a))
Result-cases (ok a) = inr (a, refl)
Result-cases (err e) = inl (e, refl)
