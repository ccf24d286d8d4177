-- ===== src/Money/Tests.antt =====
-- Amounts at concrete texts.
use stellar_agent_spend_hub.Common.{
  ◌-◌, ◌^◌, ◌%◌, ◌+◌, ◌*◌, ◌<◌, ◌≡◌, ◌≢◌, ◌↔◌, refl, arith, length, some,
}
use stellar_agent_spend_hub.Common.Text.{Codes, codes}
use stellar_agent_spend_hub.Common.Result.{ok, throw}
use stellar_agent_spend_hub.Common.Decimal.{IsCanonical, value, value_from, print, digits}
use stellar_agent_spend_hub.Money.{
  TokenAmount, parse_token_amount, validate_decimals, span, scale_units, big_int, render,
  scale_base_units, match_decimal, trim, trim_start, trim_end,
}
use stellar_agent_spend_hub.Money.RoundTrip.{parse-render}
use stellar_agent_spend_hub.Money.Parsing.{parse_no_decimals}
use stellar_agent_spend_hub.Money.Scaling.{scale_exact, scale_refused_iff}

-- 1250000
abbrev units : Codes
units = codes "1250000"

canonical : IsCanonical units
canonical = ground arith

positive : 0 < value units
unfolding value value_from
positive = omega arith

abbrev accepted : TokenAmount
accepted = record { amount = codes "0.125"; amount_base_units = units; decimals = 7 }

parse-render_example :
    parse_token_amount (render units 7) 7
    ≡ ok (record { amount = render units 7; amount_base_units = units; decimals = 7 })
parse-render_example = parse-render units 7 canonical positive (omega arith) (omega arith)

matched : match_decimal (trim (codes " 0.1250 ")) ≡ some (codes "0", codes "1250")
unfolding match_decimal trim trim_start trim_end span
matched = refl

spelt : 0 < value (codes "0") * 10 ^ 7 + value (codes "1250") * 10 ^ (7 - length (codes "1250"))
unfolding value value_from
spelt = omega arith

parse_no_decimals_example :
    parse_token_amount units 0
    ≡ ok (record { amount = codes "0"; amount_base_units = units; decimals = 0 })
parse_no_decimals_example = parse_no_decimals units canonical positive

scaled : scale_base_units units 7 6 ≡ ok (codes "125000")
unfolding scale_base_units validate_decimals big_int scale_units value value_from print digits
scaled = refl

scale_exact_example : value (codes "125000") * 10 ^ 7 ≡ value units * 10 ^ 6
scale_exact_example = scale_exact units (codes "125000") 7 6 scaled

scale_refused_iff_example :
    (scale_base_units units 7 2
      ≡ throw 409 "Amount cannot be represented exactly at destination precision")
    ↔ ((2 < 7) × (value units % 10 ^ (7 - 2) ≢ 0))
scale_refused_iff_example = scale_refused_iff units 7 2 (ground arith) (omega arith) (omega arith)
