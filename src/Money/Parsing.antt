-- ===== src/Money/Parsing.antt =====
-- What `parseTokenAmount` accepts, and the number of base units that it returns.
use mathlib.Core.Bool.{false≢true}
use mathlib.Core.List.{append-nil}
use stellar_agent_spend_hub.Common.{
  ℕ, zero, suc, ◌+◌, ◌-◌, ◌*◌, ◌^◌, ◌≤◌, ◌<◌, ◌≡◌, refl, sym, ap, ◌∙◌, inl, inr, true, [], ◌∷◌,
  ◌++◌, arith, length, replicate, All, All-append, length-replicate, length-append, Bool-cases,
  Option-cases, ltb, some, none, ◌≢◌, all,
}
use stellar_agent_spend_hub.Common.Text.{Codes, is_digit}
use stellar_agent_spend_hub.Common.Result.{ok, err, HttpError}
use stellar_agent_spend_hub.Common.Decimal.{
  IsDigit, IsCanonical, value, value-append, value-zero, value-nil,
}
use stellar_agent_spend_hub.Money.{
  TokenAmount, render, parse_token_amount, format_token_amount, pad_end, strip_leading,
  match_decimal, trim, or_zero, parse_groups, validate_decimals, span, whole_ok, fraction_of,
  slice_before,
}
use stellar_agent_spend_hub.Money.Texts.{
  span-All, all-is_digit_inv, value-strip_leading, strip_leading-IsCanonical, trim-ink,
  digits-IsInk, strip_leading-zeros,
}
use stellar_agent_spend_hub.Money.RoundTrip.{
  parse_groups_of, validate_decimals-ok, parse-render, format-render, zeros-All, IsWhole,
  match_decimal-join, IsCanonical-All,
}

value-zeros : (k : ℕ) → value (replicate k b'0') ≡ 0
value-zeros zero = value-nil
value-zeros (suc k) = value-zero b'0' (replicate k b'0') refl ∙ value-zeros k

value-pad_end : (d : ℕ) (f : Codes) → value (pad_end d f) ≡ value f * 10 ^ (d - length f)
value-pad_end d f =
    let k = d - length f in
    value-append f (replicate k b'0')
    ∙ rw (value-zeros k, length-replicate {A = ℕ} k b'0') (omega arith)

length-pad_end : (d : ℕ) (f : Codes) → length f ≤ d → length (pad_end d f) ≡ d
length-pad_end d f h = omega (
  arith,
  length-append {A = ℕ} f (replicate (d - length f) b'0'),
  length-replicate {A = ℕ} (d - length f) b'0',
)

-- The groups of a match are digits, and there is a whole part.
abbrev AreGroups : Codes → Codes → Type 0
AreGroups whole fraction = (whole ≢ []) × All IsDigit whole × All IsDigit fraction

whole_ok-ne-nil : (s : Codes) → whole_ok s ≡ true → s ≢ []
whole_ok-ne-nil [] h = absurd (false≢true h)
whole_ok-ne-nil (c ∷ s) h = cc

none-ne-some : (p : Codes × Codes) → none ≡ some p → ⊥
none-ne-some p h = cc

fraction_of-digits :
    (whole rest w f : Codes) → fraction_of whole rest ≡ some (w, f) → (w ≡ whole) × All IsDigit f
fraction_of-digits whole [] w f h = let e : f ≡ [] = cc in (cc, rw e tt)
fraction_of-digits whole (p ∷ []) w f h = cc
fraction_of-digits whole (p ∷ c ∷ s) w f h =
    let fraction : f ≡ c ∷ s = ground arith in
    let tested : all is_digit (c ∷ s) ≡ true = ground arith in
    (ground arith, rw fraction (all-is_digit_inv (c ∷ s) tested))

match_decimal-digits : (s w f : Codes) → match_decimal s ≡ some (w, f) → AreGroups w f
unfolding match_decimal
match_decimal-digits s w f h = elim (Bool-cases (whole_ok (span s).0)) [
  | inl tested ↦
      let found : fraction_of (span s).0 (span s).1 ≡ some (w, f) = rw tested at h in
      let (same, digits) = fraction_of-digits (span s).0 (span s).1 w f found in
      (rw same (whole_ok-ne-nil (span s).0 tested), rw same (span-All s), digits)
  | inr refused ↦ absurd (none-ne-some (w, f) (rw refused at h))
]

parse_groups_inv :
    (d : ℕ) (w f : Codes) (r : TokenAmount)
    → parse_groups d (some (w, f)) ≡ ok r
    → let units = or_zero (strip_leading (w ++ pad_end d f)) in
      (length f ≤ d)
      × (0 < value units)
      × (format_token_amount units d ≡ ok r.amount)
      × (r.amount_base_units ≡ units)
      × (r.decimals ≡ d)
parse_groups_inv d w f r h = ground arith

-- What an accepted amount says: its groups, and the units that they spell.
pub record IsAccepted (amount : Codes) (d : ℕ) (r : TokenAmount) : Type 0 where
  pub whole : Codes
  pub fraction : Codes
  pub matched : match_decimal (trim amount) ≡ some (whole, fraction)
  pub supported : d ≤ 18
  pub fits : length fraction ≤ d
  pub canonical : IsCanonical r.amount_base_units
  pub positive : 0 < value r.amount_base_units
  pub exact :
      value r.amount_base_units ≡ value whole * 10 ^ d + value fraction * 10 ^ (d - length fraction)
  pub rendered : r.amount ≡ render r.amount_base_units d
  pub decimals : r.decimals ≡ d

units_of : Codes → Codes → ℕ → Codes
units_of w f d = strip_leading (w ++ pad_end d f)

or_zero_cons : (s : Codes) → IsCanonical s → or_zero s ≡ s
or_zero_cons [] h = absurd h
or_zero_cons (c ∷ s) h = refl

units_of-IsCanonical : (w f : Codes) (d : ℕ) → AreGroups w f → IsCanonical (units_of w f d)
unfolding units_of
units_of-IsCanonical [] f d (filled, p, q) = absurd (filled refl)
units_of-IsCanonical (c ∷ w) f d (filled, p, q) = strip_leading-IsCanonical c (w ++ pad_end d f) (
    All-append IsDigit (c ∷ w) (pad_end d f) p
      (All-append IsDigit f (replicate (d - length f) b'0') q (zeros-All (d - length f))))

value-units_of :
    (w f : Codes) (d : ℕ)
    → length f ≤ d
    → value (units_of w f d) ≡ value w * 10 ^ d + value f * 10 ^ (d - length f)
unfolding units_of
value-units_of w f d h =
    value-strip_leading (w ++ pad_end d f)
    ∙ value-append w (pad_end d f)
    ∙ rw (length-pad_end d f h, value-pad_end d f)

IsAccepted-groups :
    (amount : Codes) (d : ℕ) (r : TokenAmount) (w f : Codes)
    → d ≤ 18
    → match_decimal (trim amount) ≡ some (w, f)
    → parse_groups d (some (w, f)) ≡ ok r
    → IsAccepted amount d r
unfolding units_of
IsAccepted-groups amount d r w f small matched h =
    let (fits, positive, formatted, units, decimals) = parse_groups_inv d w f r h in
    let groups = match_decimal-digits (trim amount) w f matched in
    let canonical = units_of-IsCanonical w f d groups in
    let same : r.amount_base_units ≡ units_of w f d =
      units ∙ or_zero_cons (units_of w f d) canonical in
    let text : ok r.amount ≡ ok (render (units_of w f d) d) =
      sym formatted
      ∙ ap (λ u. format_token_amount u d) (or_zero_cons (units_of w f d) canonical)
      ∙ format-render (units_of w f d) d canonical small in
    record {
      whole = w;
      fraction = f;
      matched = matched;
      supported = small;
      fits = fits;
      canonical = rw same canonical;
      positive = rw units positive;
      exact = ap value same ∙ value-units_of w f d fits;
      rendered = cc;
      decimals = decimals;
    }

err-ne-ok : (e : HttpError) (r : TokenAmount) → err e ≡ ok r → ⊥
err-ne-ok e r h = cc

pub parse-IsAccepted :
    (amount : Codes) (d : ℕ) (r : TokenAmount)
    → parse_token_amount amount d ≡ ok r
    → IsAccepted amount d r
unfolding parse_token_amount validate_decimals
parse-IsAccepted amount d r h = elim (Bool-cases (ltb 18 d)) [
  | inl large ↦ absurd (err-ne-ok _ r (rw large at h))
  | inr small ↦ elim (Option-cases (match_decimal (trim amount))) [
    | inl missed ↦ absurd (err-ne-ok _ r (rw (small, missed) at h))
    | inr (groups, matched) ↦
        IsAccepted-groups amount d r groups.0 groups.1 (ground arith) matched
          (rw (small, matched) at h)
  ]
]

TokenAmount-path :
    (r : TokenAmount) {t : Codes} {d : ℕ}
    → r.amount ≡ t
    → r.decimals ≡ d
    → ◌≡◌ {A = TokenAmount}
        (record { amount = t; amount_base_units = r.amount_base_units; decimals = d })
        r
TokenAmount-path r p q =
    λ i. record { amount = sym p i; amount_base_units = r.amount_base_units; decimals = sym q i }

-- Parsing the text of an accepted amount again gives the same amount, for a token with decimals.
pub parse_idempotent :
    (amount : Codes) (d : ℕ) (r : TokenAmount)
    → 0 < d
    → parse_token_amount amount d ≡ ok r
    → parse_token_amount r.amount d ≡ ok r
parse_idempotent amount d r p h =
    let a = parse-IsAccepted amount d r h in
    let same : record {
      amount = render r.amount_base_units d;
      amount_base_units = r.amount_base_units;
      decimals = d;
    }
        ≡ r =
      TokenAmount-path r a.rendered a.decimals in
    ap (λ t. parse_token_amount t d) a.rendered
    ∙ parse-render r.amount_base_units d a.canonical a.positive p a.supported
    ∙ ap ok same

IsCanonical-IsWhole : (s : Codes) → IsCanonical s → IsWhole s
IsCanonical-IsWhole [] h = h
IsCanonical-IsWhole (c ∷ []) h = tt
IsCanonical-IsWhole (c ∷ d ∷ s) h = h.1

render_no_decimals : (units : Codes) → render units 0 ≡ b'0' ∷ []
unfolding render slice_before
render_no_decimals units = refl

-- With no decimals the returned text is "0", whatever the number of units: `slice(0, -0)` is empty.
pub parse_no_decimals :
    (units : Codes)
    → IsCanonical units
    → 0 < value units
    → parse_token_amount units 0
      ≡ ok (record { amount = b'0' ∷ []; amount_base_units = units; decimals = 0 })
unfolding parse_token_amount
parse_no_decimals units h pos =
    let digits = IsCanonical-All units h in
    let matched : match_decimal (trim units) ≡ some (units, []) =
      rw (trim-ink units (digits-IsInk units digits))
        (match_decimal-join units [] (IsCanonical-IsWhole units h) digits tt) in
    let spelled : strip_leading (units ++ pad_end 0 []) ≡ units =
      rw (append-nil units) (strip_leading-zeros 0 units h) in
    rw (validate_decimals-ok 0 (omega arith), matched)
      (rw (parse_groups_of units [] units 0 h pos (omega arith) (omega arith) spelled)
        (rw (render_no_decimals units)))
