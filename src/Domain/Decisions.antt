-- ===== src/Domain/Decisions.antt =====
-- When `evaluatePaymentIntent` (src/domain.mjs) allows a payment.
use stellar_agent_spend_hub.Common.{
  String, Bool, true, false, ◌&&◌, ◌||◌, not, Option, none, some, List, [], ◌∷◌, ◌++◌, ◌≡◌, refl,
  sym, ◌∙◌, ◌↔◌, inl, inr, arith, Bool-cases, and-eq-true,
}
use stellar_agent_spend_hub.Common.Text.{Codes}
use stellar_agent_spend_hub.Domain.Amounts.{Amount, plus, exceeds}
use stellar_agent_spend_hub.Domain.{
  Intent, Policy, Decision, Options, Scan, Receipt, Notes, check, demand, merge_decision,
  found_in_directory, scanned, notes_of, evaluate_payment_intent, is_empty, listed, is_high, absent,
  spent, day_key, month_key,
}

-- A decision that adds no reason: there is none, it allows, or it denies without a reason.
abbrev pub silent : Option Decision → Bool
silent none = true
silent (some d) = d.allowed || is_empty d.reasons

abbrev pub clean : Scan → Bool
clean scan = scan.allowed || is_empty scan.reasons

empty-append : (xs ys : List String) → is_empty (xs ++ ys) ≡ (is_empty xs && is_empty ys)
empty-append [] ys = refl
empty-append (x ∷ xs) ys = refl

empty-check :
    (b : Bool) (r p : String) (n : Notes) → is_empty (check b r p n).0 ≡ (is_empty n.0 && not b)
empty-check true r p (rs, es) = empty-append rs (r ∷ [])
empty-check false r p (rs, es) = ground arith

empty-demand :
    (b : Bool) (r : String) (n : Notes) → is_empty (demand b r n).0 ≡ (is_empty n.0 && not b)
empty-demand true r (rs, es) = empty-append rs (r ∷ [])
empty-demand false r n = ground arith

empty-merge_decision :
    (d : Option Decision) (n : Notes) → is_empty (merge_decision d n).0 ≡ (is_empty n.0 && silent d)
empty-merge_decision none n = ground arith
empty-merge_decision (some d) (rs, es) = elim (Bool-cases d.allowed) [
  | inl e ↦ rw (e) (ground arith)
  | inr e ↦ rw (e) (empty-append rs d.reasons)
]

empty-found : (o : Option String) (n : Notes) → is_empty (found_in_directory o n).0 ≡ is_empty n.0
empty-found none n = refl
empty-found (some name) (rs, es) = refl

empty-scanned : (s : Scan) → is_empty (scanned s).0 ≡ clean s
empty-scanned s = elim (Bool-cases s.allowed) [ inl e ↦ rw (e) | inr e ↦ rw (e) ]

not-not : (b : Bool) → not (not b) ≡ true → b ≡ true
not-not b h = ground arith

not-true : (b : Bool) → not b ≡ true → b ≡ false
not-true b h = ground arith

-- Every check of a payment holds.
pub record IsPermitted (scan : Scan) (intent : Intent) (policy : Policy) (options : Options)
    (today this_month : Amount) : Type 0 where
  pub no_personal_data : clean scan ≡ true
  pub allowlisted : listed intent.provider_id policy.allowlisted_providers ≡ true
  pub within_payment : exceeds intent.amount policy.per_payment_limit ≡ false
  pub within_day : exceeds (plus today intent.amount) policy.daily_limit ≡ false
  pub within_month : exceeds (plus this_month intent.amount) policy.monthly_limit ≡ false
  pub by_hand : (intent.autopilot_requested || policy.autopilot_enabled) ≡ false
  pub no_high_risk : is_high intent.risk_level ≡ false
  pub terms_present : (policy.require_legal_context && absent options.legal_decision) ≡ false
  pub legal : silent options.legal_decision ≡ true
  pub privacy : silent options.privacy_decision ≡ true
  pub crypto : silent options.crypto_decision ≡ true
  pub defi : silent options.defi_decision ≡ true
  pub proof_present : (intent.proof_required && absent options.privacy_decision) ≡ false

module _ (scan : Scan) (intent : Intent) (policy : Policy) (options : Options)
    (today this_month : Amount) where
  -- the same checks as one test
  abbrev passes : Bool
  passes =
      clean scan
      && not (not (listed intent.provider_id policy.allowlisted_providers))
      && not (exceeds intent.amount policy.per_payment_limit)
      && not (exceeds (plus today intent.amount) policy.daily_limit)
      && not (exceeds (plus this_month intent.amount) policy.monthly_limit)
      && not (intent.autopilot_requested || policy.autopilot_enabled)
      && not (is_high intent.risk_level)
      && not (policy.require_legal_context && absent options.legal_decision)
      && silent options.legal_decision
      && silent options.privacy_decision
      && silent options.crypto_decision
      && silent options.defi_decision
      && not (intent.proof_required && absent options.privacy_decision)

  empty-notes_of : is_empty (notes_of scan intent policy options today this_month).0 ≡ passes
  unfolding notes_of
  empty-notes_of = rw (
    empty-demand, empty-merge_decision, empty-merge_decision, empty-merge_decision,
    empty-merge_decision, empty-demand, empty-found, empty-demand, empty-check, empty-check,
    empty-check, empty-check, empty-check, empty-scanned,
  )

  passes-IsPermitted : passes ≡ true → IsPermitted scan intent policy options today this_month
  passes-IsPermitted h =
      let (h, proof) = and-eq-true _ _ h in
      let (h, defi) = and-eq-true _ _ h in
      let (h, crypto) = and-eq-true _ _ h in
      let (h, privacy) = and-eq-true _ _ h in
      let (h, legal) = and-eq-true _ _ h in
      let (h, terms) = and-eq-true _ _ h in
      let (h, risk) = and-eq-true _ _ h in
      let (h, hand) = and-eq-true _ _ h in
      let (h, month) = and-eq-true _ _ h in
      let (h, day) = and-eq-true _ _ h in
      let (h, payment) = and-eq-true _ _ h in
      let (scanned, known) = and-eq-true _ _ h in
      record {
        no_personal_data = scanned;
        allowlisted = not-not _ known;
        within_payment = not-true _ payment;
        within_day = not-true _ day;
        within_month = not-true _ month;
        by_hand = not-true _ hand;
        no_high_risk = not-true _ risk;
        terms_present = not-true _ terms;
        legal = legal;
        privacy = privacy;
        crypto = crypto;
        defi = defi;
        proof_present = not-true _ proof;
      }

  IsPermitted-passes : IsPermitted scan intent policy options today this_month → passes ≡ true
  IsPermitted-passes p = rw (
    p.no_personal_data, p.allowlisted, p.within_payment, p.within_day, p.within_month, p.by_hand,
    p.no_high_risk, p.terms_present, p.legal, p.privacy, p.crypto, p.defi, p.proof_present,
  )

-- A payment is allowed exactly when no sensitive data was reported, the provider is listed, the amount
-- and its sums with what was spent that day and that month are not greater than their limits, as what
-- is not a number never is, nothing is automatic, the risk is
-- not high, required terms and proofs are there, and no adapter's decision gives a reason against it.
pub evaluate-IsPermitted :
    (guard : Intent → Scan) (intent : Intent) (policy : Policy) (receipts : List Receipt)
    (now : Codes) (options : Options)
    → ((evaluate_payment_intent guard intent policy receipts now options).allowed ≡ true)
      ↔ IsPermitted
          (guard intent)
          intent
          policy
          options
          (spent (day_key now) receipts)
          (spent (month_key now) receipts)
unfolding evaluate_payment_intent
evaluate-IsPermitted guard intent policy receipts now options =
    let today = spent (day_key now) receipts in
    let this_month = spent (month_key now) receipts in
    let same = empty-notes_of (guard intent) intent policy options today this_month in
    (
      λ h. passes-IsPermitted (guard intent) intent policy options today this_month (sym same ∙ h),
      λ p. same ∙ IsPermitted-passes (guard intent) intent policy options today this_month p,
    )
