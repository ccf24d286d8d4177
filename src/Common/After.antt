-- ===== src/Common/After.antt =====
-- What holds after a method, whether it returns or throws.
use Prim.Native.Nat.{ℕ}
use Prim.Native.String.{String}
use mathlib.Core.Bool.{Bool, true, false}
use mathlib.Core.Path.{◌≡◌, refl, subst}
use stellar_agent_spend_hub.Common.Result.{Result, ok, err}
use stellar_agent_spend_hub.Common.Action.{Action, continue, raise_if}

module _ {S A : Type 0} where
  abbrev Holds : (A → S → Type 0) → (S → Type 0) → Result A × S → Type 0
  Holds Q R (ok a, s) = Q a s
  Holds Q R (err e, s) = R s

  -- `Q` of a returned value and the state, `R` of the state after a throw
  pub record After (Q : A → S → Type 0) (R : S → Type 0) (x : Result A × S) : Type 0 where
    pub holds : Holds Q R x

  module _ {Q : A → S → Type 0} {R : S → Type 0} where
    pub returned : (a : A) (s : S) → Q a s → After Q R (ok a, s)
    returned a s h = record { holds = h }

    pub After-always :
        (P : S → Type 0) (x : Result A × S)
        → ((a : A) (s : S) → Q a s → P s)
        → ((s : S) → R s → P s)
        → After Q R x
        → P x.1
    After-always P (ok a, s) f g h = f a s h.holds
    After-always P (err e, s) f g h = g s h.holds

    pub After-weaken :
        {Q' : A → S → Type 0} {R' : S → Type 0} {x : Result A × S}
        → ((a : A) (s : S) → Q a s → Q' a s)
        → ((s : S) → R s → R' s)
        → After Q R x
        → After Q' R' x
    After-weaken {x = (ok a, s)} f g h = record { holds = f a s h.holds }
    After-weaken {x = (err e, s)} f g h = record { holds = g s h.holds }

    pub After-ok : (x : Result A × S) (a : A) (s : S) → After Q R x → x ≡ (ok a, s) → Q a s
    After-ok x a s h e = (subst (After Q R) e h).holds

  pub After-lift :
      {R : S → Type 0} (r : Result A) (s : S) → R s → After (λ a t. (r ≡ ok a) × (t ≡ s)) R (r, s)
  After-lift (ok a) s h = record { holds = (refl, refl) }
  After-lift (err e) s h = record { holds = h }

module _ {S : Type 0} where
  pub After-raise_if :
      {R : S → Type 0} (test : Bool) (status : ℕ) (message : String) (s : S)
      → R s
      → After (λ u t. (test ≡ false) × (t ≡ s)) R (raise_if test status message s)
  After-raise_if true status message s h = record { holds = h }
  After-raise_if false status message s h = record { holds = (refl, refl) }

module _ {S A B : Type 0} {P : A → S → Type 0} {Q : B → S → Type 0} {R : S → Type 0} where
  -- the rest of a method runs where its first part has returned
  pub After-bind :
      {x : Result A × S} {f : A → Action S B}
      → After P R x
      → ((a : A) (t : S) → P a t → After Q R (f a t))
      → After Q R (continue x f)
  After-bind {x = (ok a, t)} h k = k a t h.holds
  After-bind {x = (err e, t)} h k = record { holds = h.holds }
