-- ===== src/Common/Decimal.antt =====
-- Decimal texts and the numbers that they spell: `BigInt(text)` and `BigInt.prototype.toString`.
use Prim.Native.Nat.{ℕ, zero, suc, ◌+◌, ◌-◌, ◌*◌, ◌/◌, ◌%◌, ◌^◌, ◌≤◌, ◌<◌}
use mathlib.Core.Path.{◌≡◌, refl, ◌∙◌}
use mathlib.Core.Logic.{◌≢◌, ◌⊎◌, inl, inr}
use mathlib.Core.List.{[], ◌∷◌, ◌++◌, append-nil}
use native.Mathlib.Omega.{arith}
use native.Mathlib.Nat.{pow-suc}
use stellar_agent_spend_hub.Common.Tests.{◌==◌, if◌then◌else◌, Bool-cases}
use stellar_agent_spend_hub.Common.Lists.{length, All}
use stellar_agent_spend_hub.Common.Text.{Codes}

abbrev pub IsDigit : ℕ → Type 0
IsDigit c = (b'0' ≤ c) × (c ≤ b'9')

unfoldable pub value_from : ℕ → Codes → ℕ
value_from acc [] = acc
value_from acc (c ∷ s) = value_from (acc * 10 + (c - b'0')) s

-- the number that a text of digits spells
unfoldable pub value : Codes → ℕ
unfolding value_from
value s = value_from 0 s

-- The digits of `n` in front of `out`; the first argument is fuel.
unfoldable pub digits : ℕ → ℕ → Codes → Codes
digits zero n out = out
digits (suc f) n out =
    let rest = digits f (n / 10) ((b'0' + n % 10) ∷ out) in if n == 0 then out else rest

-- `n.toString()`; `n` rounds suffice, since each one divides by ten
unfoldable pub print : ℕ → Codes
unfolding digits
print n = if n == 0 then b'0' ∷ [] else digits n n []

pub value_from-append :
    (acc : ℕ) (s t : Codes) → value_from acc (s ++ t) ≡ value_from (value_from acc s) t
unfolding value_from
value_from-append acc [] t = refl
value_from-append acc (c ∷ s) t = value_from-append (acc * 10 + (c - b'0')) s t

shift : (a d e v : ℕ) → (a * 10 + d) * e + v ≡ a * (e * 10) + ((0 + d) * e + v)
shift a d e v = omega arith

pub value_from-eq : (acc : ℕ) (s : Codes) → value_from acc s ≡ acc * 10 ^ length s + value s
unfolding value_from value
value_from-eq acc [] = omega arith
value_from-eq acc (c ∷ s) =
    value_from-eq (acc * 10 + (c - b'0')) s
    ∙ shift acc (c - b'0') (10 ^ length s) (value s)
    ∙ rw (pow-suc 10 (length s), value_from-eq (0 + (c - b'0')) s)

pub value-append : (s t : Codes) → value (s ++ t) ≡ value s * 10 ^ length t + value t
unfolding value
value-append s t = value_from-append 0 s t ∙ value_from-eq (value s) t

value_from-digits :
    (f n : ℕ) (out : Codes) → n ≤ f → value_from 0 (digits f n out) ≡ value_from n out
unfolding value_from digits
value_from-digits zero n out h = ground arith
value_from-digits (suc f) n out h =
    ground (arith, value_from-digits f (n / 10) ((b'0' + n % 10) ∷ out))

-- The number is read back from its print.
pub value-print : (n : ℕ) → value (print n) ≡ n
unfolding value print value_from
value-print n = ground (arith, value_from-digits n n [])

digits_fuel : (f g n : ℕ) (out : Codes) → n ≤ f → n ≤ g → digits f n out ≡ digits g n out
unfolding digits
digits_fuel zero zero n out h k = refl
digits_fuel zero (suc g) n out h k = ground arith
digits_fuel (suc f) zero n out h k = ground arith
digits_fuel (suc f) (suc g) n out h k =
    ground (arith, digits_fuel f g (n / 10) ((b'0' + n % 10) ∷ out))

-- One round of the printing loop.
digits_step :
    (n : ℕ) (out : Codes)
    → 0 < n
    → digits n n out ≡ digits (n / 10) (n / 10) ((b'0' + n % 10) ∷ out)
unfolding digits
digits_step zero out h = absurd (omega arith)
digits_step (suc m) out h =
    ground (arith, digits_fuel m (suc m / 10) (suc m / 10) ((b'0' + suc m % 10) ∷ out))

digits-value_from :
    (n : ℕ) (s out : Codes)
    → 0 < n
    → All IsDigit s
    → digits (value_from n s) (value_from n s) out ≡ digits n n (s ++ out)
unfolding value_from
digits-value_from n [] out h k = refl
digits-value_from n (c ∷ s) out h (d, k) =
    let m = n * 10 + (c - b'0') in
    let shorter : m / 10 ≡ n = omega arith in
    let last : b'0' + m % 10 ≡ c = omega arith in
    digits-value_from m s out (omega arith) k
    ∙ digits_step m (s ++ out) (omega arith)
    ∙ rw (shorter, last)

-- No leading zero, unless the text is the one digit zero.
abbrev pub IsCanonical : Codes → Type 0
IsCanonical [] = ⊥
IsCanonical (c ∷ []) = IsDigit c
IsCanonical (c ∷ d ∷ s) = IsDigit c × (c ≢ b'0') × All IsDigit (d ∷ s)

pub digit_of : (c : ℕ) → IsDigit c → b'0' + (c - b'0') ≡ c
digit_of c h = omega arith

pub le-value_from : (n : ℕ) (s : Codes) → n ≤ value_from n s
unfolding value_from
le-value_from n [] = omega arith
le-value_from n (c ∷ s) = omega (arith, le-value_from (n * 10 + (c - b'0')) s)

print_pos : (n : ℕ) → 0 < n → print n ≡ digits n n []
unfolding print
print_pos n h = ground arith

digits_one : (d : ℕ) (out : Codes) → 0 < d → d < 10 → digits d d out ≡ (b'0' + d) ∷ out
unfolding digits
digits_one d out h k =
    digits_step d out h
    ∙ (let small : d / 10 ≡ 0 = omega arith in
        let last : d % 10 ≡ d = omega arith in rw (small, last))

print_lead :
    (c : ℕ) (s : Codes)
    → IsDigit c
    → 0 < c - b'0'
    → All IsDigit s
    → print (value_from (c - b'0') s) ≡ c ∷ s
print_lead c s p h k =
    let d = c - b'0' in
    print_pos (value_from d s) (omega (arith, le-value_from d s))
    ∙ digits-value_from d s [] h k
    ∙ digits_one d (s ++ []) h (omega arith)
    ∙ (let e : b'0' + (c - b'0') ≡ c = omega arith in rw (append-nil s, e))

print_zero : print (value (b'0' ∷ [])) ≡ b'0' ∷ []
unfolding print value value_from
print_zero = refl

print_digit : (c : ℕ) → IsDigit c → (c ≡ b'0') ⊎ (0 < c - b'0')
print_digit c h = grind arith

value-cons : (c : ℕ) (s : Codes) → value (c ∷ s) ≡ value_from (c - b'0') s
unfolding value value_from
value-cons c s = let e : 0 + (c - b'0') ≡ c - b'0' = omega arith in rw e

pub value-nil : value [] ≡ 0
unfolding value value_from
value-nil = refl

-- A leading zero adds nothing.
pub value-zero : (c : ℕ) (s : Codes) → c ≡ b'0' → value (c ∷ s) ≡ value s
unfolding value value_from
value-zero c s e = rw e

-- A canonical text is the print of the number that it spells.
pub print-value : (s : Codes) → IsCanonical s → print (value s) ≡ s
print-value [] h = absurd h
print-value (c ∷ []) h = elim (print_digit c h) [
  | inl e ↦ rw e print_zero
  | inr pos ↦ rw (value-cons c []) (print_lead c [] h pos tt)
]
print-value (c ∷ d ∷ s) (p, q, h) =
    rw (value-cons c (d ∷ s)) (print_lead c (d ∷ s) p (omega arith) h)

-- The print of a number is canonical.
digits-All : (f n : ℕ) (out : Codes) → All IsDigit out → All IsDigit (digits f n out)
unfolding digits
digits-All zero n out h = h
digits-All (suc f) n out h = elim (Bool-cases (n == 0)) [
  | inl e ↦ rw e h
  | inr e ↦ rw e (digits-All f (n / 10) ((b'0' + n % 10) ∷ out) (omega arith, h))
]

pub print-All : (n : ℕ) → All IsDigit (print n)
unfolding print
print-All n = elim (Bool-cases (n == 0)) [
  | inl e ↦ rw e (omega arith, tt)
  | inr e ↦ rw e (digits-All n n [] tt)
]
