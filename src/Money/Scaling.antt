-- ===== src/Money/Scaling.antt =====
-- Moving an amount between tokens of different precision, and comparing amounts.
use native.Mathlib.Nat.{pow-suc, one-le-pow, div-add-mod', mul_assoc, mul-mod_left, mul-div_left}
use stellar_agent_spend_hub.Common.{
  ℕ, zero, suc, ◌+◌, ◌-◌, ◌*◌, ◌/◌, ◌%◌, ◌^◌, ◌≤◌, ◌<◌, ◌≡◌, sym, ap, ◌∙◌, ◌↔◌, inl, inr, true,
  false, arith, Bool-cases, ltb, ◌==◌, all, All, ◌≢◌,
}
use stellar_agent_spend_hub.Common.Text.{Codes, is_digit}
use stellar_agent_spend_hub.Money.RoundTrip.{IsCanonical-All, validate_decimals-ok}
use stellar_agent_spend_hub.Common.Result.{ok, err, HttpError, throw, ◌>>=◌}
use stellar_agent_spend_hub.Common.Decimal.{
  IsDigit, IsCanonical, value, print, value-print, print-value, print-All,
}
use stellar_agent_spend_hub.Money.{scale_base_units, scale_units, big_int, validate_decimals}
use stellar_agent_spend_hub.Money.Texts.{all-is_digit}

pow-add : (a b c : ℕ) → a + b ≡ c → 10 ^ c ≡ 10 ^ a * 10 ^ b
pow-add a zero c h = let e : c ≡ a = omega arith in rw e (omega arith)
pow-add a (suc b) zero h = absurd (omega arith)
pow-add a (suc b) (suc c) h =
    pow-suc 10 c ∙ rw (pow-add a b c (omega arith), pow-suc 10 b) (omega arith)

pow_pos : (n : ℕ) → 0 < 10 ^ n
pow_pos n = one-le-pow n 10 (omega arith)

up_exact : (v a b : ℕ) → a < b → (v * 10 ^ (b - a)) * 10 ^ a ≡ v * 10 ^ b
up_exact v a b h = rw (pow-add a (b - a) b (omega arith)) (omega arith)

quotient_exact : (v e : ℕ) → v % e ≡ 0 → v / e * e ≡ v
quotient_exact v e h = let split = div-add-mod' v e in omega arith

down_exact : (v a b : ℕ) → b < a → v % 10 ^ (a - b) ≡ 0 → (v / 10 ^ (a - b)) * 10 ^ a ≡ v * 10 ^ b
down_exact v a b h e = rw (pow-add (a - b) b a (omega arith)) (
    sym (mul_assoc (v / 10 ^ (a - b)) (10 ^ (a - b)) (10 ^ b))
    ∙ ap (λ (n : ℕ). n * 10 ^ b) (quotient_exact v (10 ^ (a - b)) e))

ok_injective : (s t : Codes) → ok s ≡ ok t → s ≡ t
ok_injective s t h = cc

err-ne-ok : (e : HttpError) (t : Codes) → err e ≡ ok t → ⊥
err-ne-ok e t h = cc

value_of_print : (n : ℕ) (t : Codes) → ok (print n) ≡ ok t → value t ≡ n
value_of_print n t h = ap value (sym (ok_injective (print n) t h)) ∙ value-print n

units_exact : (v a b : ℕ) (t : Codes) → scale_units a b v ≡ ok t → value t * 10 ^ a ≡ v * 10 ^ b
unfolding scale_units
units_exact v a b t h = elim (Bool-cases (b == a)) [
  | inl e ↦ let same : b ≡ a = ground arith in rw (same, value_of_print v t (rw e at h))
  | inr e ↦ elim (Bool-cases (ltb a b)) [
    | inl l ↦ rw (value_of_print _ t (rw (e, l) at h)) (up_exact v a b (ground arith))
    | inr l ↦ elim (Bool-cases (v % 10 ^ (a - b) == 0)) [
      | inl m ↦
          rw (value_of_print _ t (rw (e, l, m) at h))
            (down_exact v a b (ground arith) (ground arith))
      | inr m ↦ absurd (err-ne-ok _ t (rw (e, l, m) at h))
    ]
  ]
]

-- What a success of the checks in front says.
scale_inv :
    (s t : Codes) (a b : ℕ) → scale_base_units s a b ≡ ok t → scale_units a b (value s) ≡ ok t
unfolding scale_base_units big_int validate_decimals
scale_inv s t a b h = elim (Bool-cases (ltb 18 a)) [
  | inl e ↦ absurd (err-ne-ok _ t (rw e at h))
  | inr p ↦ elim (Bool-cases (ltb 18 b)) [
    | inl e ↦ absurd (err-ne-ok _ t (rw (p, e) at h))
    | inr q ↦ elim (Bool-cases (all is_digit s)) [
      | inl d ↦ rw (p, q, d) at h
      | inr e ↦ absurd (err-ne-ok _ t (rw (p, q, e) at h))
    ]
  ]
]

-- A conversion that succeeds keeps the amount exactly: the units returned, at the source's
-- precision, are the units given, at the target's.
pub scale_exact :
    (s t : Codes) (a b : ℕ) → scale_base_units s a b ≡ ok t → value t * 10 ^ a ≡ value s * 10 ^ b
scale_exact s t a b h = units_exact (value s) a b t (scale_inv s t a b h)

scale_checked :
    (s : Codes) (a b : ℕ)
    → All IsDigit s
    → a ≤ 18
    → b ≤ 18
    → scale_base_units s a b ≡ scale_units a b (value s)
unfolding scale_base_units big_int
scale_checked s a b h p q =
    rw (validate_decimals-ok a p, validate_decimals-ok b q, all-is_digit s h)

units_refused_iff :
    (v a b : ℕ)
    → (scale_units a b v
        ≡ throw 409 "Amount cannot be represented exactly at destination precision")
      ↔ ((b < a) × (v % 10 ^ (a - b) ≢ 0))
unfolding scale_units
units_refused_iff v a b = elim (Bool-cases (b == a)) [
  | inl e ↦ ground arith
  | inr e ↦ elim (Bool-cases (ltb a b)) [ inl l ↦ ground arith | inr l ↦ ground arith ]
]

-- To a finer precision the units are multiplied, and from it they are divided again.
units_up : (v a b : ℕ) → a ≤ b → scale_units a b v ≡ ok (print (v * 10 ^ (b - a)))
unfolding scale_units
units_up v a b h = elim (Bool-cases (b == a)) [
  | inl e ↦
      let none_left : b - a ≡ 0 = ground arith in
      rw (e, none_left) (ap (λ n. ok (print n)) (omega arith))
  | inr e ↦ let finer : ltb a b ≡ true = ground arith in rw (e, finer)
]

units_down : (v a b : ℕ) → a ≤ b → scale_units b a (v * 10 ^ (b - a)) ≡ ok (print v)
unfolding scale_units
units_down v a b h = elim (Bool-cases (a == b)) [
  | inl e ↦
      let none_left : b - a ≡ 0 = ground arith in
      rw (e, none_left) (ap (λ n. ok (print n)) (omega arith))
  | inr e ↦
      let coarser : ltb b a ≡ false = ground arith in
      rw (e, coarser, mul-mod_left v (10 ^ (b - a)), mul-div_left v (pow_pos (b - a)))
]

-- For a text of digits and two supported precisions the conversion is refused with status 409
-- exactly when the target is coarser and the amount is no multiple of its unit.
pub scale_refused_iff :
    (s : Codes) (a b : ℕ)
    → All IsDigit s
    → a ≤ 18
    → b ≤ 18
    → (scale_base_units s a b
        ≡ throw 409 "Amount cannot be represented exactly at destination precision")
      ↔ ((b < a) × (value s % 10 ^ (a - b) ≢ 0))
scale_refused_iff s a b h p q = rw (scale_checked s a b h p q) (units_refused_iff (value s) a b)

-- From canonical units to a finer precision and back is the identity.
pub scale_there_and_back :
    (s : Codes) (a b : ℕ)
    → IsCanonical s
    → a ≤ b
    → b ≤ 18
    → (scale_base_units s a b >>= λ t. scale_base_units t b a) ≡ ok s
scale_there_and_back s a b h p q =
    rw
      (
        scale_checked s a b (IsCanonical-All s h) (omega arith) q,
        units_up (value s) a b p,
        scale_checked (print (value s * 10 ^ (b - a))) b a (print-All _) q (omega arith),
        value-print (value s * 10 ^ (b - a)),
        units_down (value s) a b p,
      )
      (ap ok (print-value s h))
