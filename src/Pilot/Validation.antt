-- ===== src/Pilot/Validation.antt =====
-- The checks on what a caller sends (src/pilotValidation.mjs).
use stellar_agent_spend_hub.Common.{
  ℕ, String, Bool, true, false, ◌&&◌, ◌||◌, not, Option, none, some, [], ◌∷◌, leb, ◌==◌,
  if◌then◌else◌, all,
}
use stellar_agent_spend_hub.Common.Text.{
  Codes, codes, str_eq, is_digit, is_lower, is_upper, is_run, is_digest,
}
use stellar_agent_spend_hub.Common.Result.{Result, ok, throw, throw_if, ◌>>◌}
use stellar_agent_spend_hub.Money.{trim, span, strip_trailing}

abbrev pub pilot_amount_usdc : String
pilot_amount_usdc = "0.01"

-- `[a-z0-9]`
abbrev is_slug_start : ℕ → Bool
is_slug_start c = is_lower c || is_digit c

-- `/^[a-z0-9][a-z0-9-]{2,79}$/`
abbrev pub is_slug : Codes → Bool
is_slug [] = false
is_slug (c ∷ s) = is_slug_start c && is_run 2 79 (λ d. is_slug_start d || d == b'-') s

abbrev codes_eq : Codes → Codes → Bool
codes_eq [] [] = true
codes_eq [] (d ∷ t) = false
codes_eq (c ∷ s) [] = false
codes_eq (c ∷ s) (d ∷ t) = c == d && codes_eq s t

unfoldable pub validate_pilot_resource_id : String → Result String
validate_pilot_resource_id value = do
  let id = trim (codes value)
  throw_if (not (is_slug id)) 400 "Invalid pilot resourceId"
  throw_if (not (codes_eq id (codes "stellar-risk-snapshot"))) 403
      "Pilot resource is not allowlisted"
  ok "stellar-risk-snapshot"

abbrev is_hundredth : Codes × Codes → Bool
is_hundredth (whole, []) = false
is_hundredth (whole, c ∷ fraction) =
    all (λ d. d == b'0') whole
    && c == b'.'
    && all is_digit fraction
    && codes_eq (strip_trailing fraction) (codes "01")

-- `Number(value) === Number("0.01")` of a text in decimal notation; exponents, hexadecimal texts
-- and the rounding of longer fractions are not modelled
unfoldable pub is_one_cent : String → Bool
is_one_cent value = is_hundredth (span (trim (codes value)))

unfoldable pub validate_pilot_amount : String → Result String
validate_pilot_amount value =
    if not (str_eq value pilot_amount_usdc) && not (is_one_cent value)
    then throw 409 "Pilot amount must be exactly 0.01 USDC"
    else ok pilot_amount_usdc

-- `[A-Za-z0-9:_-]`
abbrev is_key_char : ℕ → Bool
is_key_char c = is_upper c || is_lower c || is_digit c || c == b':' || c == b'_' || c == b'-'

unfoldable pub validate_pilot_idempotency_key : String → Result String
validate_pilot_idempotency_key value =
    if is_run 8 120 is_key_char (codes value) then ok value else throw 400 "Invalid idempotencyKey"

-- `safeDigestEqual(expected, actual)`; equal bytes of two lower-case digests are equal texts
unfoldable pub safe_digest_equal : Option String → String → Bool
safe_digest_equal none actual = false
safe_digest_equal (some expected) actual =
    is_digest expected && is_digest actual && str_eq expected actual

-- `[0-9a-f-]`, in either case
abbrev is_id_char : ℕ → Bool
is_id_char c = is_digit c || (leb b'a' c && leb c b'f') || (leb b'A' c && leb c b'F') || c == b'-'

-- `/^[0-9a-f-]{36}$/i`
unfoldable pub is_request_id : String → Bool
is_request_id id = is_run 36 36 is_id_char (codes id)
