-- ===== src/Domain/NotANumber.antt =====
-- What an amount that is not a number does to the limits of a policy (src/domain.mjs,
-- `evaluatePaymentIntent`).
use stellar_agent_spend_hub.Common.{true, false, List, ◌∷◌, ◌≡◌, refl}
use stellar_agent_spend_hub.Common.Text.{Codes}
use stellar_agent_spend_hub.Domain.Amounts.{Amount, not_a_number, plus, exceeds, plus_nan}
use stellar_agent_spend_hub.Domain.{
  Intent, Policy, Options, Scan, Receipt, counts, spent, day_key, month_key,
  evaluate_payment_intent,
}
use stellar_agent_spend_hub.Domain.Decisions.{evaluate-IsPermitted}

nan_within : (a : Amount) → exceeds (plus a not_a_number) 0 ≡ false
nan_within a = rw (plus_nan a)

-- A payment that is allowed is also allowed with an amount that is not a number, when the scan for
-- sensitive data answers the same, and then under a policy whose three limits are all 0.
pub not_a_number-allowed :
    (guard : Intent → Scan) (intent : Intent) (policy : Policy) (receipts : List Receipt)
    (now : Codes) (options : Options)
    → guard (record intent { amount = not_a_number }) ≡ guard intent
    → (evaluate_payment_intent guard intent policy receipts now options).allowed ≡ true
    → (evaluate_payment_intent guard
        (record intent { amount = not_a_number })
        (record policy { per_payment_limit = 0; daily_limit = 0; monthly_limit = 0 })
        receipts
        now
        options).allowed
      ≡ true
not_a_number-allowed guard intent policy receipts now options same allowed =
    let p = (evaluate-IsPermitted guard intent policy receipts now options).0 allowed in
    (evaluate-IsPermitted guard (record intent { amount = not_a_number })
        (record policy { per_payment_limit = 0; daily_limit = 0; monthly_limit = 0 }) receipts now
        options).1
      (record {
        no_personal_data = rw same p.no_personal_data;
        allowlisted = p.allowlisted;
        within_payment = refl;
        within_day = nan_within (spent (day_key now) receipts);
        within_month = nan_within (spent (month_key now) receipts);
        by_hand = p.by_hand;
        no_high_risk = p.no_high_risk;
        terms_present = p.terms_present;
        legal = p.legal;
        privacy = p.privacy;
        crypto = p.crypto;
        defi = p.defi;
        proof_present = p.proof_present;
      })

nan_spent :
    (key : Codes) (r : Receipt) (receipts : List Receipt)
    → counts key r ≡ true
    → r.amount ≡ not_a_number
    → spent key (r ∷ receipts) ≡ not_a_number
unfolding spent
nan_spent key r receipts c n = rw (c, n)

-- Once a payment whose amount is not a number is settled, the two budgets of that day and that month are
-- gone: a payment that is allowed without its receipt is allowed after it, and then under a policy
-- whose daily and monthly limits are 0.
pub not_a_number-lifts :
    (guard : Intent → Scan) (intent : Intent) (policy : Policy) (r : Receipt)
    (receipts : List Receipt) (now : Codes) (options : Options)
    → counts (day_key now) r ≡ true
    → counts (month_key now) r ≡ true
    → r.amount ≡ not_a_number
    → (evaluate_payment_intent guard intent policy receipts now options).allowed ≡ true
    → (evaluate_payment_intent guard intent
        (record policy { daily_limit = 0; monthly_limit = 0 })
        (r ∷ receipts)
        now
        options).allowed
      ≡ true
not_a_number-lifts guard intent policy r receipts now options today this_month nan allowed =
    let p = (evaluate-IsPermitted guard intent policy receipts now options).0 allowed in
    let day = nan_spent (day_key now) r receipts today nan in
    let month = nan_spent (month_key now) r receipts this_month nan in
    (evaluate-IsPermitted guard intent (record policy { daily_limit = 0; monthly_limit = 0 })
        (r ∷ receipts) now options).1
      (record {
        no_personal_data = p.no_personal_data;
        allowlisted = p.allowlisted;
        within_payment = p.within_payment;
        within_day = rw day refl;
        within_month = rw month refl;
        by_hand = p.by_hand;
        no_high_risk = p.no_high_risk;
        terms_present = p.terms_present;
        legal = p.legal;
        privacy = p.privacy;
        crypto = p.crypto;
        defi = p.defi;
        proof_present = p.proof_present;
      })
