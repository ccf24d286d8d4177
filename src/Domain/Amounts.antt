-- ===== src/Domain/Amounts.antt =====
-- The numbers of amounts and of their sums (src/domain.mjs, src/spendHubIntentFactory.mjs): a JavaScript
-- number that is a multiple of 1e-7, the smallest unit of the asset, or not a number. Sums are exact;
-- the rounding of floating numbers and the two infinities are left out.
use stellar_agent_spend_hub.Common.{
  ℕ, ◌+◌, ◌-◌, ◌*◌, ◌≤◌, Bool, true, false, ltb, leb, if◌then◌else◌, ◌≡◌, refl, sym, ap, arith, inl,
  inr, Bool-cases,
}

-- `units n` is n units, `below n` is -(n + 1) units.
pub data Amount : Type 0 where
  units : ℕ → Amount
  below : ℕ → Amount
  not_a_number : Amount

abbrev pub unit_scale : ℕ
unit_scale = 10000000

-- a whole number, as the code writes it
abbrev pub whole : ℕ → Amount
whole n = units (n * unit_scale)

-- `a + b`
abbrev pub plus : Amount → Amount → Amount
plus (units a) (units b) = units (a + b)
plus (units a) (below b) = if leb a b then below (b - a) else units (a - (b + 1))
plus (below a) (units b) = if leb b a then below (a - b) else units (b - (a + 1))
plus (below a) (below b) = below (a + b + 1)
plus not_a_number b = not_a_number
plus a not_a_number = not_a_number

-- `a > limit`, which is false of what is not a number
abbrev pub exceeds : Amount → ℕ → Bool
exceeds (units a) limit = ltb limit a
exceeds (below a) limit = false
exceeds not_a_number limit = false

-- `Math.max(0, limit - a)`
abbrev pub room_under : ℕ → Amount → Amount
room_under limit (units a) = units (limit - a)
room_under limit (below a) = units (limit + a + 1)
room_under limit not_a_number = not_a_number

abbrev pub IsNumber : Amount → Type 0
IsNumber not_a_number = ⊥
IsNumber a = Unit

-- A number that is at most the limit.
abbrev pub AtMost : ℕ → Amount → Type 0
AtMost limit (units a) = a ≤ limit
AtMost limit (below a) = Unit
AtMost limit not_a_number = ⊥

pub AtMost-exceeds :
    (limit : ℕ) (a : Amount) → IsNumber a → exceeds a limit ≡ false → AtMost limit a
AtMost-exceeds limit (units a) n h = ground arith
AtMost-exceeds limit (below a) n h = tt
AtMost-exceeds limit not_a_number n h = n

pub plus-IsNumber : (a b : Amount) → IsNumber a → IsNumber b → IsNumber (plus a b)
plus-IsNumber (units a) (units b) h k = tt
plus-IsNumber (units a) (below b) h k = elim (Bool-cases (leb a b)) [
  | inl e ↦ rw (e) tt
  | inr e ↦ rw (e) tt
]
plus-IsNumber (below a) (units b) h k = elim (Bool-cases (leb b a)) [
  | inl e ↦ rw (e) tt
  | inr e ↦ rw (e) tt
]
plus-IsNumber (below a) (below b) h k = tt
plus-IsNumber not_a_number b h k = absurd h
plus-IsNumber (units a) not_a_number h k = absurd k
plus-IsNumber (below a) not_a_number h k = absurd k

pub zero-plus : (a : Amount) → plus (units 0) a ≡ a
zero-plus (units a) = ap units sum
  where
    sum : 0 + a ≡ a
    sum = omega arith
zero-plus (below a) =
    let some_left : leb 0 a ≡ true = ground arith in
    let same : a - 0 ≡ a = omega arith in rw (some_left, same)
zero-plus not_a_number = refl

pub plus_nan : (a : Amount) → plus a not_a_number ≡ not_a_number
plus_nan (units a) = refl
plus_nan (below a) = refl
plus_nan not_a_number = refl

pub plus_comm : (a b : Amount) → plus a b ≡ plus b a
plus_comm (units a) (units b) = ap units sum
  where
    sum : a + b ≡ b + a
    sum = omega arith
plus_comm (units a) (below b) = refl
plus_comm (below a) (units b) = refl
plus_comm (below a) (below b) = ap below sum
  where
    sum : a + b + 1 ≡ b + a + 1
    sum = omega arith
plus_comm not_a_number b = sym (plus_nan b)
plus_comm (units a) not_a_number = refl
plus_comm (below a) not_a_number = refl
