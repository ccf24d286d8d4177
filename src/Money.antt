-- ===== src/Money.antt =====
-- Token amounts with a fixed number of decimals (src/multichainMoney.mjs). Texts are lists of code
-- points; `decimals` is a number that is not negative and whole, as all callers give it.
mod Texts
pub mod Parsing
pub mod RoundTrip
pub mod Scaling
mod Tests
use stellar_agent_spend_hub.Common.{
  ℕ, zero, suc, ◌+◌, ◌-◌, ◌*◌, ◌/◌, ◌%◌, ◌^◌, Bool, true, false, ◌&&◌, ◌||◌, Option, none, some,
  List, [], ◌∷◌, ◌++◌, length, take, drop, replicate, all, ltb, leb, ◌==◌, if◌then◌else◌,
}
use stellar_agent_spend_hub.Common.Text.{Codes, is_digit}
use stellar_agent_spend_hub.Common.Result.{Result, ok, err, throw, throw_if, ◌>>=◌, ◌>>◌}
use stellar_agent_spend_hub.Common.Decimal.{value, print}

-- What `parseTokenAmount` returns.
pub record TokenAmount : Type 0 where
  pub amount : Codes
  pub amount_base_units : Codes
  pub decimals : ℕ

pub validate_decimals : ℕ → Result ℕ
validate_decimals decimals =
    if ltb 18 decimals then throw 400 "Unsupported token decimals" else ok decimals

-- The white space and line ends that `trim` takes away.
abbrev is_space : ℕ → Bool
is_space c =
    (leb 9 c && leb c 13)
    || c == 0x20
    || c == 0xa0
    || c == 0x1680
    || (leb 0x2000 c && leb c 0x200a)
    || c == 0x2028
    || c == 0x2029
    || c == 0x202f
    || c == 0x205f
    || c == 0x3000
    || c == 0xfeff

unfoldable pub trim_start : Codes → Codes
trim_start [] = []
trim_start (c ∷ s) = if is_space c then trim_start s else c ∷ s

unfoldable pub trim_end : Codes → Codes
trim_end [] = []
trim_end (c ∷ s) = elim (trim_end s) [ [] ↦ if is_space c then [] else c ∷ [] | d ∷ r ↦ c ∷ d ∷ r ]

-- `String(amount ?? "").trim()`
unfoldable pub trim : Codes → Codes
trim s = trim_end (trim_start s)

-- the digits in front, and what follows them
unfoldable pub span : Codes → Codes × Codes
span [] = ([], [])
span (c ∷ s) = let (d, r) = span s in if is_digit c then (c ∷ d, r) else ([], c ∷ s)

-- `0|[1-9]\d*`
abbrev whole_ok : Codes → Bool
whole_ok [] = false
whole_ok (c ∷ []) = true
whole_ok (c ∷ d ∷ s) = if c == b'0' then false else true

abbrev fraction_of : Codes → Codes → Option (Codes × Codes)
fraction_of whole [] = some (whole, [])
fraction_of whole (p ∷ []) = none
fraction_of whole (p ∷ c ∷ s) =
    if p == b'.' && all is_digit (c ∷ s) then some (whole, c ∷ s) else none

-- `value.match(DECIMAL_PATTERN)`, with the empty text for a group that is not there
pub match_decimal : Codes → Option (Codes × Codes)
match_decimal s =
    let (whole, rest) = span s in if whole_ok whole then fraction_of whole rest else none

-- `text.padEnd(n, "0")` and `text.padStart(n, "0")`
abbrev pub pad_end : ℕ → Codes → Codes
pad_end n s = s ++ replicate (n - length s) b'0'

abbrev pub pad_start : ℕ → Codes → Codes
pad_start n s = replicate (n - length s) b'0' ++ s

-- `text.replace(/^0+(?=\d)/, "")`
pub strip_leading : Codes → Codes
strip_leading [] = []
strip_leading (c ∷ []) = c ∷ []
strip_leading (c ∷ d ∷ s) = if c == b'0' && is_digit d then strip_leading (d ∷ s) else c ∷ d ∷ s

-- `c` in front of what is left behind it
abbrev pub zero_onto : ℕ → Codes → Codes
zero_onto c [] = if c == b'0' then [] else c ∷ []
zero_onto c (d ∷ r) = c ∷ d ∷ r

-- `text.replace(/0+$/, "")`
unfoldable pub strip_trailing : Codes → Codes
strip_trailing [] = []
strip_trailing (c ∷ s) = zero_onto c (strip_trailing s)

-- `text || "0"`
abbrev pub or_zero : Codes → Codes
or_zero [] = b'0' ∷ []
or_zero (c ∷ s) = c ∷ s

-- `text.slice(0, -n)` and `text.slice(-n)`; `-0` is `0` to `slice`
pub slice_before : ℕ → Codes → Codes
slice_before zero s = []
slice_before (suc n) s = take (length s - suc n) s

pub slice_last : ℕ → Codes → Codes
slice_last zero s = s
slice_last (suc n) s = drop (length s - suc n) s

-- `/^\d+$/`
abbrev pub is_units : Codes → Bool
is_units [] = false
is_units (c ∷ s) = all is_digit (c ∷ s)

-- `fraction ? whole.fraction : whole`
abbrev join_fraction : Codes → Codes → Codes
join_fraction whole [] = whole
join_fraction whole (c ∷ s) = whole ++ (b'.' ∷ c ∷ s)

-- the text of `formatTokenAmount` for units of digits
pub render : Codes → ℕ → Codes
render units precision =
    let padded = pad_start (precision + 1) units in
    let whole = or_zero (slice_before precision padded) in
    if precision == 0
    then whole
    else join_fraction whole (strip_trailing (slice_last precision padded))

pub format_token_amount : Codes → ℕ → Result Codes
format_token_amount units decimals = do
  precision ← validate_decimals decimals
  if is_units units
      then ok (render units precision)
      else throw 400 "Base units must be an unsigned integer string"

abbrev parse_groups : ℕ → Option (Codes × Codes) → Result TokenAmount
parse_groups precision none = throw 400 "Amount must be a positive decimal string"
parse_groups precision (some (whole, fraction)) = do
  throw_if (ltb precision (length fraction)) 400 "Amount exceeds the decimal places"
  let units = or_zero (strip_leading (whole ++ pad_end precision fraction))
  throw_if (value units == 0) 400 "Amount must be greater than zero"
  text ← format_token_amount units precision
  ok (record { amount = text; amount_base_units = units; decimals = precision })

pub parse_token_amount : Codes → ℕ → Result TokenAmount
parse_token_amount amount decimals = do
  precision ← validate_decimals decimals
  parse_groups precision (match_decimal (trim amount))

-- `BigInt(text)` of a text of digits; other texts (signs, hexadecimal) are not modelled
unfoldable pub big_int : Codes → Result ℕ
big_int s = if all is_digit s then ok (value s) else throw 500 "Cannot convert to a BigInt"

pub data Order : Type 0 where
  less same greater : Order

pub compare_base_units : Codes → Codes → Result Order
compare_base_units left right = do
  a ← big_int left
  b ← big_int right
  ok (if a == b then same else if ltb b a then greater else less)

-- the conversion, after the arguments are checked
pub scale_units : ℕ → ℕ → ℕ → Result Codes
scale_units source target units =
    if target == source
    then ok (print units)
    else if ltb source target
    then ok (print (units * 10 ^ (target - source)))
    else if units % 10 ^ (source - target) == 0
    then ok (print (units / 10 ^ (source - target)))
    else throw 409 "Amount cannot be represented exactly at destination precision"

pub scale_base_units : Codes → ℕ → ℕ → Result Codes
scale_base_units base_units from_decimals to_decimals = do
  source ← validate_decimals from_decimals
  target ← validate_decimals to_decimals
  units ← big_int base_units
  scale_units source target units
