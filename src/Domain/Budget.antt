-- ===== src/Domain/Budget.antt =====
-- The budgets hold over any run of payments: each is decided on the receipts of those before it
-- (src/domain.mjs, `evaluatePaymentIntent`, `createReceipt`).
use stellar_agent_spend_hub.Common.{
  ℕ, zero, suc, ◌≤◌, String, Bool, true, false, Option, List, [], ◌∷◌, All, ◌==◌, take, length, ◌≡◌,
  refl, sym, ap, ap₂, ◌∙◌, subst, inl, inr, arith, Bool-cases, and-eq-true, ==_iff,
}
use stellar_agent_spend_hub.Common.Text.{Codes}
use stellar_agent_spend_hub.Domain.Amounts.{
  units, plus, exceeds, IsNumber, plus-IsNumber, zero-plus, plus_comm,
}
use stellar_agent_spend_hub.Domain.{
  Intent, Policy, Options, Scan, Receipt, Evaluation, RailResult, is_settled, starts_with, counts,
  spent, day_key, month_key, evaluate_payment_intent, create_receipt, screened, draft_receipt,
  receipt_status, execution_status,
}
use stellar_agent_spend_hub.Domain.Decisions.{evaluate-IsPermitted}

starts_with-take :
    (text prefix : Codes) → starts_with text prefix ≡ true → prefix ≡ take (length prefix) text
unfolding starts_with
starts_with-take text [] h = refl
starts_with-take [] (p ∷ prefix) h = cc
starts_with-take (c ∷ text) (p ∷ prefix) h =
    let (first, rest) = and-eq-true (c == p) (starts_with text prefix) h in
    ap₂ (λ a b. a ∷ b) (sym ((==_iff c p).0 first)) (starts_with-take text prefix rest)

take-take : (m n : ℕ) (xs : Codes) → m ≤ n → take m (take n xs) ≡ take m xs
take-take zero n xs h = refl
take-take (suc m) zero xs h = absurd (omega arith)
take-take (suc m) (suc n) [] h = refl
take-take (suc m) (suc n) (x ∷ xs) h = ap (λ r. x ∷ r) (take-take m n xs (omega arith))

-- What a receipt keeps of its payment, however it is made: it is settled only where the payment was
-- allowed, and it has the intent's number, its amount and the time.
pub record Keeps (allowed : Bool) (now : Codes) (intent : Intent) (r : Receipt) : Type 0 where
  pub paid : is_settled r.status ≡ true → allowed ≡ true
  pub stamped : r.timestamp ≡ now
  pub worth : r.amount ≡ intent.amount
  pub of_intent : r.intent_id ≡ intent.id

settled_only :
    (allowed : Bool) (execution : String)
    → is_settled (receipt_status allowed execution) ≡ true
    → allowed ≡ true
unfolding receipt_status
settled_only true execution h = refl
settled_only false execution h = h

-- Every receipt that `createReceipt` makes keeps that much.
pub create_receipt-Keeps :
    (guard : Receipt → Scan) (id : String) (now : Codes) (intent : Intent) (evaluation : Evaluation)
    (result : Option RailResult) (approved_by : String)
    → Keeps evaluation.allowed now intent
        (create_receipt guard id now intent evaluation result approved_by)
unfolding create_receipt draft_receipt screened
create_receipt-Keeps guard id now intent evaluation result approved_by =
    let receipt = draft_receipt id now intent evaluation result approved_by in
    elim (Bool-cases (guard receipt).allowed) [
      | inl clean ↦ rw (clean) (record {
        paid = settled_only evaluation.allowed (execution_status result);
        stamped = refl;
        worth = refl;
        of_intent = refl;
      })
      | inr found ↦
          rw (found) (record {
            paid = λ h. absurd (never h);
            stamped = refl;
            worth = refl;
            of_intent = refl;
          })
    ]
  where
    never : false ≡ true → ⊥
    never e = cc

nothing_over : (limit : ℕ) → exceeds (units 0) limit ≡ false
nothing_over limit = ground arith

-- One payment: the intent, what the adapters decided, and the times of the decision and the receipt.
pub record Payment : Type 0 where
  pub intent : Intent
  pub options : Options
  pub now : Codes
  pub stamp : Codes

-- A sum in which every amount is a number is a number.
pub spent-IsNumber :
    (key : Codes) (receipts : List Receipt)
    → All (λ r. IsNumber r.amount) receipts
    → IsNumber (spent key receipts)
unfolding spent
spent-IsNumber key [] h = tt
spent-IsNumber key (r ∷ rs) (first, rest) =
    let sum = spent-IsNumber key rs rest in
    elim (Bool-cases (counts key r)) [
      | inl e ↦ rw (e) (plus-IsNumber r.amount (spent key rs) first sum)
      | inr e ↦ rw (e) (plus-IsNumber (units 0) (spent key rs) tt sum)
    ]

module _ (guard : Intent → Scan) (policy : Policy) where
  abbrev pub evaluation : Payment → List Receipt → Evaluation
  evaluation p receipts = evaluate_payment_intent guard p.intent policy receipts p.now p.options

  -- The receipts of a run of payments, each decided on those before it and stamped on the day of its
  -- decision.
  pub data Paid : List Receipt → Type 0 where
    nothing : Paid []
    pay :
        {receipts : List Receipt} (p : Payment) (r : Receipt)
        → day_key p.stamp ≡ day_key p.now
        → Keeps (evaluation p receipts).allowed p.stamp p.intent r
        → Paid receipts
        → Paid (r ∷ receipts)

  -- A receipt that counts was allowed, so the sum of its period is one that the decision has compared
  -- with the limit.
  pay_within :
      (p : Payment) (r : Receipt) (receipts : List Receipt) (key : Codes) (limit : ℕ)
      → Keeps (evaluation p receipts).allowed p.stamp p.intent r
      → (starts_with p.stamp key ≡ true → key ≡ take (length key) p.now)
      → (key ≡ take (length key) p.now
          → (evaluation p receipts).allowed ≡ true
          → exceeds (plus (spent key receipts) p.intent.amount) limit ≡ false)
      → exceeds (spent key receipts) limit ≡ false
      → exceeds (spent key (r ∷ receipts)) limit ≡ false
  unfolding spent
  pay_within p r receipts key limit k period checked before = elim (Bool-cases (counts key r)) [
    | inr apart ↦ rw (apart, zero-plus (spent key receipts)) before
    | inl both ↦
        let (paid, within) = and-eq-true (is_settled r.status) (starts_with r.timestamp key) both in
        let bound = checked (period (rw (k.stamped) at within)) (k.paid paid) in
        rw (both, k.worth, plus_comm p.intent.amount (spent key receipts)) bound
  ]

  same_prefix :
      (n : ℕ) (p : Payment) (key : Codes)
      → n ≤ 10
      → length key ≡ n
      → day_key p.stamp ≡ day_key p.now
      → starts_with p.stamp key ≡ true
      → key ≡ take (length key) p.now
  same_prefix n p key small size day h =
      let short : length key ≤ 10 = omega arith in
      starts_with-take p.stamp key h
      ∙ sym (take-take (length key) 10 p.stamp short)
      ∙ ap (take (length key)) day
      ∙ take-take (length key) 10 p.now short

  -- Over any run of payments whose receipts are stamped on the day of their decision, what is settled
  -- on a day is never greater than the daily limit of the policy.
  pub Paid-within_day :
      {receipts : List Receipt} (key : Codes)
      → length key ≡ 10
      → Paid receipts
      → exceeds (spent key receipts) policy.daily_limit ≡ false
  unfolding spent
  Paid-within_day key size nothing = nothing_over policy.daily_limit
  Paid-within_day key size (pay {receipts = rs} p r day k before) =
      pay_within p r rs key policy.daily_limit k (same_prefix 10 p key (omega arith) size day)
        (λ key_is allowed.
          let today : day_key p.now ≡ key = ap (λ n. take n p.now) (sym size) ∙ sym key_is in
          let permitted =
            (evaluate-IsPermitted guard p.intent policy rs p.now p.options).0 allowed in
          subst (λ d. exceeds (plus (spent d rs) p.intent.amount) policy.daily_limit ≡ false) today
            permitted.within_day)
        (Paid-within_day key size before)

  -- In the same runs what is settled in a month is never greater than the monthly limit.
  pub Paid-within_month :
      {receipts : List Receipt} (key : Codes)
      → length key ≡ 7
      → Paid receipts
      → exceeds (spent key receipts) policy.monthly_limit ≡ false
  unfolding spent
  Paid-within_month key size nothing = nothing_over policy.monthly_limit
  Paid-within_month key size (pay {receipts = rs} p r day k before) =
      pay_within p r rs key policy.monthly_limit k (same_prefix 7 p key (omega arith) size day)
        (λ key_is allowed.
          let month : month_key p.now ≡ key = ap (λ n. take n p.now) (sym size) ∙ sym key_is in
          let permitted =
            (evaluate-IsPermitted guard p.intent policy rs p.now p.options).0 allowed in
          subst (λ d. exceeds (plus (spent d rs) p.intent.amount) policy.monthly_limit ≡ false)
            month permitted.within_month)
        (Paid-within_month key size before)
