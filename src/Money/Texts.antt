-- ===== src/Money/Texts.antt =====
-- The text operations of the amounts on texts of digits: what is split or stripped, and what pads
-- it back.
use stellar_agent_spend_hub.Common.{
  ℕ, zero, suc, ◌-◌, ◌≤◌, ◌≡◌, refl, sym, ap, ◌∙◌, inl, inr, true, false, ◌&&◌, ==_iff, ◌==◌, [],
  ◌∷◌, ◌++◌, arith, length, replicate, all, All, Bool-cases,
}
use stellar_agent_spend_hub.Common.Text.{Codes, is_digit}
use stellar_agent_spend_hub.Common.Decimal.{IsDigit, IsCanonical, value, value-zero}
use stellar_agent_spend_hub.Money.{
  trim_start, trim_end, trim, span, pad_end, strip_leading, strip_trailing, is_space, zero_onto,
}

abbrev pub IsInk : ℕ → Type 0
IsInk c = is_space c ≡ false

trim_start-ink : (s : Codes) → All IsInk s → trim_start s ≡ s
unfolding trim_start
trim_start-ink [] h = refl
trim_start-ink (c ∷ s) (p, h) = rw p

trim_end-ink : (s : Codes) → All IsInk s → trim_end s ≡ s
unfolding trim_end
trim_end-ink [] h = refl
trim_end-ink (c ∷ []) (p, h) = rw p
trim_end-ink (c ∷ d ∷ s) (p, h) = rw (trim_end-ink (d ∷ s) h, trim_end)

pub trim-ink : (s : Codes) → All IsInk s → trim s ≡ s
unfolding trim
trim-ink s h = rw (trim_start-ink s h) (trim_end-ink s h)

pub digit-IsInk : (c : ℕ) → IsDigit c → IsInk c
digit-IsInk c h = ground arith

pub digits-IsInk : (s : Codes) → All IsDigit s → All IsInk s
digits-IsInk [] h = tt
digits-IsInk (c ∷ s) (p, h) = (digit-IsInk c p, digits-IsInk s h)

pub is_digit_of : (c : ℕ) → IsDigit c → is_digit c ≡ true
is_digit_of c h = ground arith

pub all-is_digit : (s : Codes) → All IsDigit s → all is_digit s ≡ true
all-is_digit [] h = refl
all-is_digit (c ∷ s) (p, h) = rw (is_digit_of c p) (all-is_digit s h)

pub all-is_digit_inv : (s : Codes) → all is_digit s ≡ true → All IsDigit s
all-is_digit_inv [] h = tt
all-is_digit_inv (c ∷ s) h = (ground arith, all-is_digit_inv s (ground arith))

-- Splitting off the digits in front of a dot, or of nothing.
pub span-digits : (w : Codes) → All IsDigit w → span w ≡ (w, [])
unfolding span
span-digits [] h = refl
span-digits (c ∷ w) (p, h) = rw (span-digits w h, is_digit_of c p)

pub span-dot : (w r : Codes) → All IsDigit w → span (w ++ (b'.' ∷ r)) ≡ (w, b'.' ∷ r)
unfolding span
span-dot [] r h = refl
span-dot (c ∷ w) r (p, h) = rw (span-dot w r h, is_digit_of c p)

pub span-All : (s : Codes) → All IsDigit (span s).0
unfolding span
span-All [] = tt
span-All (c ∷ s) = elim (Bool-cases (is_digit c)) [
  | inl e ↦ rw e (ground arith, span-All s)
  | inr e ↦ rw e tt
]

zero_onto-All : (c : ℕ) (r : Codes) → IsDigit c → All IsDigit r → All IsDigit (zero_onto c r)
zero_onto-All c [] p h = elim (Bool-cases (c == b'0')) [ inl e ↦ rw e tt | inr e ↦ rw e (p, tt) ]
zero_onto-All c (d ∷ r) p h = (p, h)

pub strip_trailing-All : (s : Codes) → All IsDigit s → All IsDigit (strip_trailing s)
unfolding strip_trailing
strip_trailing-All [] h = tt
strip_trailing-All (c ∷ s) (p, h) = zero_onto-All c (strip_trailing s) p (strip_trailing-All s h)

length-zero_onto : (c : ℕ) (r : Codes) → length (zero_onto c r) ≤ suc (length r)
length-zero_onto c [] = elim (Bool-cases (c == b'0')) [
  | inl e ↦ rw e (omega arith)
  | inr e ↦ rw e (omega arith)
]
length-zero_onto c (d ∷ r) = omega arith

pub length-strip_trailing : (s : Codes) → length (strip_trailing s) ≤ length s
unfolding strip_trailing
length-strip_trailing [] = omega arith
length-strip_trailing (c ∷ s) =
    omega (arith, length-zero_onto c (strip_trailing s), length-strip_trailing s)

pad_end-zero_onto :
    (c : ℕ) (r s : Codes)
    → pad_end (length s) r ≡ s
    → pad_end (suc (length s)) (zero_onto c r) ≡ c ∷ s
pad_end-zero_onto c [] s h = elim (Bool-cases (c == b'0')) [
  | inl e ↦
      let zero : c ≡ b'0' = (==_iff c b'0').0 e in
      rw (e, zero)
        (let more : suc (length s) - 0 ≡ suc (length s - 0) = omega arith in
          rw more (ap (λ t. b'0' ∷ t) h))
  | inr e ↦
      rw e
        (let less : suc (length s) - 1 ≡ length s - 0 = omega arith in rw less (ap (λ t. c ∷ t) h))
]
pad_end-zero_onto c (d ∷ r) s h =
    let less : suc (length s) - suc (suc (length r)) ≡ length s - suc (length r) = omega arith in
    rw less (ap (λ t. c ∷ t) h)

-- Padding gives back the zeros that were stripped.
pub pad_end-strip_trailing : (s : Codes) → pad_end (length s) (strip_trailing s) ≡ s
unfolding strip_trailing
pad_end-strip_trailing [] = refl
pad_end-strip_trailing (c ∷ s) = pad_end-zero_onto c (strip_trailing s) s (pad_end-strip_trailing s)

strip_leading-canonical : (s : Codes) → IsCanonical s → strip_leading s ≡ s
unfolding strip_leading
strip_leading-canonical [] h = absurd h
strip_leading-canonical (c ∷ []) h = refl
strip_leading-canonical (c ∷ d ∷ s) h = ground arith

strip_leading-cons :
    (c : ℕ) (s : Codes) → IsDigit c → strip_leading (b'0' ∷ c ∷ s) ≡ strip_leading (c ∷ s)
unfolding strip_leading
strip_leading-cons c s h = rw (is_digit_of c h)

pub strip_leading-zeros :
    (k : ℕ) (s : Codes) → IsCanonical s → strip_leading (replicate k b'0' ++ s) ≡ s
strip_leading-zeros zero s h = strip_leading-canonical s h
strip_leading-zeros (suc k) [] h = absurd h
strip_leading-zeros (suc zero) (c ∷ []) h =
    strip_leading-cons c [] h ∙ strip_leading-canonical (c ∷ []) h
strip_leading-zeros (suc zero) (c ∷ d ∷ s) h =
    strip_leading-cons c (d ∷ s) h.0 ∙ strip_leading-canonical (c ∷ d ∷ s) h
strip_leading-zeros (suc (suc k)) (c ∷ s) h =
    strip_leading-cons b'0' (replicate k b'0' ++ (c ∷ s)) (omega arith)
    ∙ strip_leading-zeros (suc k) (c ∷ s) h

-- Whatever digits go in, what comes out spells the same number, canonically.
pub value-strip_leading : (s : Codes) → value (strip_leading s) ≡ value s
unfolding strip_leading
value-strip_leading [] = refl
value-strip_leading (c ∷ []) = refl
value-strip_leading (c ∷ d ∷ s) = elim (Bool-cases (c == b'0' && is_digit d)) [
  | inl e ↦ rw e (value-strip_leading (d ∷ s) ∙ sym (value-zero c (d ∷ s) (ground arith)))
  | inr e ↦ rw e
]

IsCanonical-cons :
    (c d : ℕ) (s : Codes)
    → IsDigit c
    → (c == b'0') ≡ false
    → All IsDigit (d ∷ s)
    → IsCanonical (c ∷ d ∷ s)
IsCanonical-cons c d s p e h = (p, ground arith, h)

pub strip_leading-IsCanonical :
    (c : ℕ) (s : Codes) → All IsDigit (c ∷ s) → IsCanonical (strip_leading (c ∷ s))
unfolding strip_leading
strip_leading-IsCanonical c [] (p, h) = p
strip_leading-IsCanonical c (d ∷ s) (p, (q, h)) = elim (Bool-cases (c == b'0')) [
  | inl e ↦ rw (e, is_digit_of d q) (strip_leading-IsCanonical d s (q, h))
  | inr e ↦ rw e (IsCanonical-cons c d s p e (q, h))
]
