-- ===== src/Domain/Tests.antt =====
-- The policy decision at a concrete payment.
use stellar_agent_spend_hub.Common.{◌*◌, true, false, none, [], ◌∷◌, ◌≡◌, ◌↔◌, refl}
use stellar_agent_spend_hub.Common.Text.{Codes, codes}
use stellar_agent_spend_hub.Domain.Amounts.{whole, unit_scale, not_a_number}
use stellar_agent_spend_hub.Domain.{
  Intent, Policy, Scan, Options, Receipt, low, spent, day_key, month_key, counts, starts_with,
  evaluate_payment_intent, notes_of, create_receipt, draft_receipt, screened, receipt_status,
  execution_status,
}
use stellar_agent_spend_hub.Domain.Decisions.{IsPermitted, evaluate-IsPermitted}
use stellar_agent_spend_hub.Domain.NotANumber.{not_a_number-allowed, not_a_number-lifts}

abbrev nothing_found : Scan
nothing_found = record { allowed = true; reasons = [] }

abbrev policy : Policy
policy = record {
  allowlisted_providers = "provider-research" ∷ [];
  per_payment_limit = 500 * unit_scale;
  daily_limit = 800 * unit_scale;
  monthly_limit = 3000 * unit_scale;
  autopilot_enabled = false;
  require_legal_context = false;
  min_legal_trust_level = 0;
  allowed_assets = [];
  allowed_defi_protocols = [];
  max_portfolio_action_amount = 0;
  max_slippage_bps = 0;
}

abbrev intent : Intent
intent = record {
  id = "intent-1";
  provider_id = "provider-research";
  provider_name = "Research";
  intent_type = "pay_service";
  category = "research";
  amount = whole 300;
  currency = "USDC";
  agent_reason = "report";
  autopilot_requested = false;
  risk_level = low;
  proof_required = false;
  privacy_requirement = none;
}

abbrev noon : Codes
noon = codes "2026-07-01T12:00:00.000Z"

abbrev no_decisions : Options
no_decisions = record {
  legal_decision = none;
  privacy_decision = none;
  crypto_decision = none;
  defi_decision = none;
  directory_name = none;
}

evaluate-IsPermitted_example :
    ((evaluate_payment_intent (λ i. nothing_found) intent policy [] noon no_decisions).allowed
      ≡ true)
    ↔ IsPermitted nothing_found intent policy no_decisions
        (spent (day_key noon) [])
        (spent (month_key noon) [])
evaluate-IsPermitted_example =
    evaluate-IsPermitted (λ i. nothing_found) intent policy [] noon no_decisions

allowed_run :
    (evaluate_payment_intent (λ i. nothing_found) intent policy [] noon no_decisions).allowed ≡ true
unfolding evaluate_payment_intent notes_of spent
allowed_run = refl

not_a_number-allowed_example :
    (evaluate_payment_intent
      (λ i. nothing_found)
      (record intent { amount = not_a_number })
      (record policy { per_payment_limit = 0; daily_limit = 0; monthly_limit = 0 })
      []
      noon
      no_decisions).allowed
    ≡ true
not_a_number-allowed_example =
    not_a_number-allowed (λ i. nothing_found) intent policy [] noon no_decisions refl allowed_run

-- a payment without a number that the simulated wallet has settled
abbrev worthless : Receipt
worthless =
    create_receipt (λ r. nothing_found) "1" noon (record intent { amount = not_a_number })
      (evaluate_payment_intent (λ i. nothing_found) (record intent { amount = not_a_number }) policy
        [] noon no_decisions)
      none "user"

counted : (counts (day_key noon) worthless ≡ true) × (counts (month_key noon) worthless ≡ true)
unfolding create_receipt draft_receipt screened receipt_status execution_status starts_with
    evaluate_payment_intent notes_of spent
counted = (refl, refl)

no_worth : worthless.amount ≡ not_a_number
unfolding create_receipt draft_receipt screened
no_worth = refl

not_a_number-lifts_example :
    (evaluate_payment_intent
      (λ i. nothing_found)
      intent
      (record policy { daily_limit = 0; monthly_limit = 0 })
      (worthless ∷ [])
      noon
      no_decisions).allowed
    ≡ true
not_a_number-lifts_example =
    not_a_number-lifts (λ i. nothing_found) intent policy worthless [] noon no_decisions counted.0
      counted.1 no_worth allowed_run
