-- ===== src/Common/Returns.antt =====
-- What holds of the value of a call that may throw, where it returns.
use Prim.Native.Nat.{ℕ}
use Prim.Native.String.{String}
use mathlib.Core.Bool.{Bool, true, false}
use mathlib.Core.Path.{◌≡◌, refl, subst}
use stellar_agent_spend_hub.Common.Result.{Result, ok, err, throw_if, ◌>>=◌}

module _ {A : Type 0} where
  abbrev Gives : (A → Type 0) → Result A → Type 0
  Gives Q (ok a) = Q a
  Gives Q (err e) = Unit

  pub record Returns (Q : A → Type 0) (r : Result A) : Type 0 where
    pub gives : Gives Q r

  pub gives_ok : {Q : A → Type 0} (a : A) → Q a → Returns Q (ok a)
  gives_ok a h = record { gives = h }

  pub returns : (r : Result A) → Returns (λ a. r ≡ ok a) r
  returns (ok a) = record { gives = refl }
  returns (err e) = record { gives = tt }

  pub Returns-ok : {Q : A → Type 0} (r : Result A) (a : A) → Returns Q r → r ≡ ok a → Q a
  Returns-ok {Q = Q} r a h e = (subst (Returns Q) e h).gives

  pub Returns-weaken :
      {Q Q' : A → Type 0} {r : Result A} → ((a : A) → Q a → Q' a) → Returns Q r → Returns Q' r
  Returns-weaken {r = ok a} f h = record { gives = f a h.gives }
  Returns-weaken {r = err e} f h = record { gives = tt }

pub Returns-throw_if :
    (test : Bool) (status : ℕ) (message : String)
    → Returns (λ u. test ≡ false) (throw_if test status message)
Returns-throw_if true status message = record { gives = tt }
Returns-throw_if false status message = record { gives = refl }

module _ {A B : Type 0} {P : A → Type 0} {Q : B → Type 0} where
  pub Returns-bind :
      {r : Result A} {f : A → Result B}
      → Returns P r
      → ((a : A) → P a → Returns Q (f a))
      → Returns Q (r >>= f)
  Returns-bind {r = ok a} h k = k a h.gives
  Returns-bind {r = err e} h k = record { gives = tt }
