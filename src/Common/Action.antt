-- ===== src/Common/Action.antt =====
-- Methods that read and write a state and may throw: what was written before the throw stays.
use Prim.Native.Nat.{ℕ}
use Prim.Native.String.{String}
use mathlib.Core.Bool.{Bool, true, false}
use mathlib.Core.Path.{◌≡◌, refl}
use stellar_agent_spend_hub.Common.Result.{Result, ok, err, HttpError, http_error}

abbrev pub Action : Type 0 → Type 0 → Type 0
Action S A = S → Result A × S

abbrev pub continue : {S A B : Type 0} → Result A × S → (A → Action S B) → Result B × S
continue (ok a, s) f = f a s
continue (err e, s) f = (err e, s)

infixl 5 ◌>>=◌ ◌>>◌
abbrev pub ◌>>=◌ : {S A B : Type 0} → Action S A → (A → Action S B) → Action S B
◌>>=◌ m f s = continue (m s) f

abbrev pub ◌>>◌ : {S B : Type 0} → Action S Unit → Action S B → Action S B
m >> k = m >>= λ _. k

abbrev pub pure : {S A : Type 0} → A → Action S A
pure a s = (ok a, s)

abbrev pub raise : {S A : Type 0} → ℕ → String → Action S A
raise status message s = (err (http_error status message), s)

abbrev pub raise_if : {S : Type 0} → Bool → ℕ → String → Action S Unit
raise_if true status message = raise status message
raise_if false status message = pure tt

abbrev pub lift : {S A : Type 0} → Result A → Action S A
lift r s = (r, s)

abbrev pub gets : {S A : Type 0} → (S → A) → Action S A
gets f s = (ok (f s), s)

abbrev pub modify : {S : Type 0} → (S → S) → Action S Unit
modify f s = (ok tt, f s)

-- What a success of a chain says of its parts.
pub err-ne-ok :
    {S B : Type 0} (e : HttpError) (s t : S) (b : B)
    → ◌≡◌ {A = Result B × S} (err e, s) (ok b, t)
    → ⊥
err-ne-ok e s t b h = cc

module _ {S A B : Type 0} where
  pub bind-eq-ok :
      (m : Action S A) (f : A → Action S B) (s t : S) (b : B)
      → (m >>= f) s ≡ (ok b, t)
      → (a : A) × (u : S) × (m s ≡ (ok a, u)) × (f a u ≡ (ok b, t))
  bind-eq-ok m f s t b h = continue-eq-ok (m s) refl h
    where
      continue-eq-ok :
          (r : Result A × S)
          → m s ≡ r
          → continue r f ≡ (ok b, t)
          → (a : A) × (u : S) × (m s ≡ (ok a, u)) × (f a u ≡ (ok b, t))
      continue-eq-ok (ok a, u) e k = (a, u, e, k)
      continue-eq-ok (err e, u) p k = absurd (err-ne-ok e u t b k)

module _ {S : Type 0} where
  pub raise_if-eq-ok :
      (test : Bool) (status : ℕ) (message : String) (s t : S) (u : Unit)
      → raise_if test status message s ≡ (ok u, t)
      → (test ≡ false) × (t ≡ s)
  raise_if-eq-ok true status message s t u h =
      absurd (err-ne-ok (http_error status message) s t u h)
  raise_if-eq-ok false status message s t u h = (refl, cc)

  pub pure-eq-ok :
      {A : Type 0} (a b : A) (s t : S)
      → ◌≡◌ {A = Result A × S} (ok a, s) (ok b, t)
      → (b ≡ a) × (t ≡ s)
  pure-eq-ok a b s t h = (cc, cc)

  pub lift-eq-ok :
      {A : Type 0} (r : Result A) (b : A) (s t : S)
      → ◌≡◌ {A = Result A × S} (r, s) (ok b, t)
      → (r ≡ ok b) × (t ≡ s)
  lift-eq-ok r b s t h = (cc, cc)
