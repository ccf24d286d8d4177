-- ===== src/Money/RoundTrip.antt =====
-- Parsing what `formatTokenAmount` renders.
use stellar_agent_spend_hub.Common.{
  ℕ, zero, suc, ◌+◌, ◌-◌, ◌≤◌, ◌<◌, ◌≡◌, refl, ◌≢◌, true, false, [], ◌∷◌, ◌++◌, arith, length, take,
  drop, replicate, All, All-append, All-take, All-drop, length-replicate, length-append,
  length-drop, take-append-drop, ltb, ◌==◌, some, subst,
}
use stellar_agent_spend_hub.Common.Text.{Codes}
use stellar_agent_spend_hub.Common.Result.{ok}
use stellar_agent_spend_hub.Common.Decimal.{IsDigit, IsCanonical, value}
use stellar_agent_spend_hub.Money.{
  render, parse_token_amount, format_token_amount, pad_start, pad_end, strip_trailing,
  strip_leading, match_decimal, trim, slice_before, slice_last, or_zero, join_fraction,
  parse_groups, whole_ok, is_units, validate_decimals,
}
use stellar_agent_spend_hub.Money.Texts.{
  trim-ink, digits-IsInk, span-digits, span-dot, strip_trailing-All, length-strip_trailing,
  pad_end-strip_trailing, strip_leading-zeros, all-is_digit, IsInk,
}

abbrev pub padded : Codes → ℕ → Codes
padded units d = pad_start (d + 1) units

abbrev pub whole_part : Codes → ℕ → Codes
whole_part units d = take (length (padded units d) - d) (padded units d)

abbrev pub fraction_part : Codes → ℕ → Codes
fraction_part units d = drop (length (padded units d) - d) (padded units d)

pub IsCanonical-All : (s : Codes) → IsCanonical s → All IsDigit s
IsCanonical-All [] h = absurd h
IsCanonical-All (c ∷ []) h = (h, tt)
IsCanonical-All (c ∷ d ∷ s) (p, q, h) = (p, h)

pub zeros-All : (k : ℕ) → All IsDigit (replicate k b'0')
zeros-All zero = tt
zeros-All (suc k) = (omega arith, zeros-All k)

padded-All : (units : Codes) (d : ℕ) → All IsDigit units → All IsDigit (padded units d)
padded-All units d h =
    All-append IsDigit (replicate (d + 1 - length units) b'0') units
      (zeros-All (d + 1 - length units)) h

length-padded : (units : Codes) (d : ℕ) → d < length (padded units d)
length-padded units d = omega (
  arith,
  length-append {A = ℕ} (replicate (d + 1 - length units) b'0') units,
  length-replicate {A = ℕ} (d + 1 - length units) b'0',
)

length-fraction : (units : Codes) (d : ℕ) → length (fraction_part units d) ≡ d
length-fraction units d =
    omega (arith, length-drop (length (padded units d) - d) (padded units d), length-padded units d)

-- `true` for the text of a whole part
abbrev pub IsWhole : Codes → Type 0
IsWhole [] = ⊥
IsWhole (c ∷ []) = Unit
IsWhole (c ∷ d ∷ s) = c ≢ b'0'

take-IsWhole :
    (k m : ℕ) (s : Codes)
    → IsCanonical s
    → 0 < m
    → (0 < k → m ≡ 1)
    → IsWhole (take m (replicate k b'0' ++ s))
take-IsWhole k zero s h p q = absurd (omega arith)
take-IsWhole zero (suc m) [] h p q = h
take-IsWhole zero (suc zero) (c ∷ []) h p q = tt
take-IsWhole zero (suc (suc m)) (c ∷ []) h p q = tt
take-IsWhole zero (suc zero) (c ∷ d ∷ s) h p q = tt
take-IsWhole zero (suc (suc m)) (c ∷ d ∷ s) h p q = h.1
take-IsWhole (suc k) (suc zero) s h p q = tt
take-IsWhole (suc k) (suc (suc m)) s h p q =
    absurd (let e : suc (suc m) ≡ 1 = q (omega arith) in omega arith)

whole_part-IsWhole : (units : Codes) (d : ℕ) → IsCanonical units → IsWhole (whole_part units d)
whole_part-IsWhole units d h =
    take-IsWhole (d + 1 - length units) (length (padded units d) - d) units h
      (omega (arith, length-padded units d))
      (λ more. omega (
        arith,
        length-append {A = ℕ} (replicate (d + 1 - length units) b'0') units,
        length-replicate {A = ℕ} (d + 1 - length units) b'0',
      ))

whole_ok_of : (s : Codes) → IsWhole s → whole_ok s ≡ true
whole_ok_of [] h = absurd h
whole_ok_of (c ∷ []) h = refl
whole_ok_of (c ∷ d ∷ s) h = ground arith

or_zero_of : (s : Codes) → IsWhole s → or_zero s ≡ s
or_zero_of [] h = absurd h
or_zero_of (c ∷ s) h = refl

-- The text of a whole part and a fraction is taken apart again.
pub match_decimal-join :
    (whole fraction : Codes)
    → IsWhole whole
    → All IsDigit whole
    → All IsDigit fraction
    → match_decimal (join_fraction whole fraction) ≡ some (whole, fraction)
unfolding match_decimal
match_decimal-join whole [] w h k = rw (span-digits whole h, whole_ok_of whole w)
match_decimal-join whole (c ∷ s) w h k =
    rw (span-dot whole (c ∷ s) h, whole_ok_of whole w, all-is_digit (c ∷ s) k)

join-IsInk :
    (whole fraction : Codes)
    → All IsDigit whole
    → All IsDigit fraction
    → All IsInk (join_fraction whole fraction)
join-IsInk whole [] h k = digits-IsInk whole h
join-IsInk whole (c ∷ s) h k =
    All-append IsInk whole (b'.' ∷ c ∷ s) (digits-IsInk whole h) (refl, digits-IsInk (c ∷ s) k)

-- With at least one decimal the text is the whole part and the stripped fraction.
render-join :
    (units : Codes) (d : ℕ)
    → 0 < d
    → IsCanonical units
    → render units d ≡ join_fraction (whole_part units d) (strip_trailing (fraction_part units d))
unfolding render slice_before slice_last
render-join units zero p h = absurd (omega arith)
render-join units (suc d) p h =
    let some_decimals : (suc d == 0) ≡ false = ground arith in
    rw (some_decimals, or_zero_of (whole_part units (suc d)) (whole_part-IsWhole units (suc d) h))

-- The two parts, padded, are the units behind zeros.
parts-units :
    (units : Codes) (d : ℕ)
    → whole_part units d ++ pad_end d (strip_trailing (fraction_part units d)) ≡ padded units d
parts-units units d =
    let fraction = fraction_part units d in
    let back : pad_end d (strip_trailing fraction) ≡ fraction =
      subst (λ n. pad_end n (strip_trailing fraction) ≡ fraction) (length-fraction units d)
        (pad_end-strip_trailing fraction) in
    rw back (take-append-drop (length (padded units d) - d) (padded units d))

pub validate_decimals-ok : (d : ℕ) → d ≤ 18 → validate_decimals d ≡ ok d
unfolding validate_decimals
validate_decimals-ok d h = ground arith

is_units_of : (s : Codes) → IsCanonical s → is_units s ≡ true
is_units_of [] h = absurd h
is_units_of (c ∷ s) h = all-is_digit (c ∷ s) (IsCanonical-All (c ∷ s) h)

pub format-render :
    (units : Codes) (d : ℕ)
    → IsCanonical units
    → d ≤ 18
    → format_token_amount units d ≡ ok (render units d)
unfolding format_token_amount
format-render units d h q = rw (validate_decimals-ok d q, is_units_of units h)

or_zero-canonical : (s : Codes) → IsCanonical s → or_zero s ≡ s
or_zero-canonical [] h = absurd h
or_zero-canonical (c ∷ s) h = refl

-- What `parseTokenAmount` does with two groups that spell canonical, positive units.
pub parse_groups_of :
    (whole fraction units : Codes) (d : ℕ)
    → IsCanonical units
    → 0 < value units
    → d ≤ 18
    → length fraction ≤ d
    → strip_leading (whole ++ pad_end d fraction) ≡ units
    → parse_groups d (some (whole, fraction))
      ≡ ok (record { amount = render units d; amount_base_units = units; decimals = d })
parse_groups_of whole fraction units d h pos q fits e =
    let short : ltb d (length fraction) ≡ false = ground arith in
    let positive : (value units == 0) ≡ false = ground arith in
    rw (short, e, or_zero-canonical units h, positive, format-render units d h q)

-- Printing an amount of base units with at least one decimal and parsing the text again gives
-- back the same base units and the same text, for a canonical positive number of units and up to
-- 18 decimals.
pub parse-render :
    (units : Codes) (d : ℕ)
    → IsCanonical units
    → 0 < value units
    → 0 < d
    → d ≤ 18
    → parse_token_amount (render units d) d
      ≡ ok (record { amount = render units d; amount_base_units = units; decimals = d })
unfolding parse_token_amount
parse-render units d h pos p q =
    let whole = whole_part units d in
    let fraction = strip_trailing (fraction_part units d) in
    let all = padded-All units d (IsCanonical-All units h) in
    let whole_digits = All-take IsDigit (length (padded units d) - d) (padded units d) all in
    let fraction_digits =
      strip_trailing-All (fraction_part units d)
        (All-drop IsDigit (length (padded units d) - d) (padded units d) all) in
    let matched : match_decimal (trim (render units d)) ≡ some (whole, fraction) =
      rw
        (
          render-join units d p h,
          trim-ink (join_fraction whole fraction)
              (join-IsInk whole fraction whole_digits fraction_digits),
        )
        (match_decimal-join whole fraction (whole_part-IsWhole units d h) whole_digits
          fraction_digits) in
    let spelled : strip_leading (whole ++ pad_end d fraction) ≡ units =
      rw (parts-units units d) (strip_leading-zeros (d + 1 - length units) units h) in
    let short = length-strip_trailing (fraction_part units d) in
    rw (validate_decimals-ok d q, matched)
      (parse_groups_of whole fraction units d h pos q
        (omega (arith, length-fraction units d, short)) spelled)
