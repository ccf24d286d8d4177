-- ===== src/Domain/TrustFlow.antt =====
-- The stages that `buildTrustFlow` shows for a decision (src/domain.mjs).
use stellar_agent_spend_hub.Common.{
  ℕ, zero, suc, String, Bool, true, false, not, Option, none, some, List, [], ◌∷◌, ◌++◌, ◌≡◌, refl,
  ◌∙◌, ap, inl, inr, Bool-cases,
}
use stellar_agent_spend_hub.Common.Text.{Codes}
use stellar_agent_spend_hub.Domain.{
  Intent, Policy, Options, Decision, Scan, Receipt, Stage, StageStatus, ready, listed, spent,
  day_key, month_key, evaluate_payment_intent, notes_of, build_trust_flow, starts_with, includes,
  Notes, check, demand, merge_decision, found_in_directory, scanned, is_empty,
}
use stellar_agent_spend_hub.Domain.Amounts.{Amount}
use stellar_agent_spend_hub.Domain.Decisions.{IsPermitted, evaluate-IsPermitted, silent, clean}

-- the status that a stage shows, if it is in the flow
pub status_of : ℕ → List Stage → Option StageStatus
status_of n [] = none
status_of zero (s ∷ stages) = some s.status
status_of (suc n) (s ∷ stages) = status_of n stages

reasons-check : (b : Bool) → b ≡ false → (r p : String) (n : Notes) → (check b r p n).0 ≡ n.0
reasons-check true e r p n = cc
reasons-check false e r p (rs, es) = refl

reasons-check_failed :
    (b : Bool) → b ≡ true → (r p : String) (n : Notes) → (check b r p n).0 ≡ n.0 ++ (r ∷ [])
reasons-check_failed true e r p (rs, es) = refl
reasons-check_failed false e r p n = cc

reasons-demand : (b : Bool) → b ≡ false → (r : String) (n : Notes) → (demand b r n).0 ≡ n.0
reasons-demand true e r n = cc
reasons-demand false e r n = refl

reasons-found : (o : Option String) (n : Notes) → (found_in_directory o n).0 ≡ n.0
reasons-found none n = refl
reasons-found (some name) (rs, es) = refl

no_more : (rs xs : List String) → is_empty xs ≡ true → rs ++ xs ≡ rs
no_more [] [] h = refl
no_more (r ∷ rs) [] h = ap (λ ys. r ∷ ys) (no_more rs [] h)
no_more rs (x ∷ xs) h = cc

reasons-merge : (d : Option Decision) → silent d ≡ true → (n : Notes) → (merge_decision d n).0 ≡ n.0
reasons-merge none e n = refl
reasons-merge (some d) e (rs, es) = elim (Bool-cases d.allowed) [
  | inl a ↦ rw (a)
  | inr a ↦ rw (a) (no_more rs d.reasons (rw (a) at e))
]

reasons-scanned : (s : Scan) → clean s ≡ true → (scanned s).0 ≡ []
reasons-scanned s h = elim (Bool-cases s.allowed) [
  | inl e ↦ rw (e)
  | inr e ↦ rw (e) (empty s.reasons (rw (e) at h))
]
  where
    empty : (xs : List String) → is_empty xs ≡ true → xs ≡ []
    empty [] k = refl
    empty (x ∷ xs) k = cc

abbrev admitting : Intent → Policy → Policy
admitting intent policy = record policy {
  allowlisted_providers = intent.provider_id ∷ policy.allowlisted_providers;
}

-- the one reason of a payment that fails only for its provider
reasons-unlisted :
    (scan : Scan) (intent : Intent) (policy : Policy) (options : Options)
    (today this_month : Amount)
    → listed intent.provider_id policy.allowlisted_providers ≡ false
    → IsPermitted scan intent (admitting intent policy) options today this_month
    → (notes_of scan intent policy options today this_month).0
      ≡ "El proveedor no esta en la lista permitida" ∷ []
unfolding notes_of
reasons-unlisted scan intent policy options today this_month unlisted p =
    let known : not (listed intent.provider_id policy.allowlisted_providers) ≡ true = rw unlisted in
    rw (
      reasons-demand _ p.proof_present,
      reasons-merge options.defi_decision p.defi,
      reasons-merge options.crypto_decision p.crypto,
      reasons-merge options.privacy_decision p.privacy,
      reasons-merge options.legal_decision p.legal,
      reasons-demand _ p.terms_present,
      reasons-found,
      reasons-demand _ p.no_high_risk,
      reasons-check _ p.by_hand,
      reasons-check _ p.within_month,
      reasons-check _ p.within_day,
      reasons-check _ p.within_payment,
      reasons-check_failed _ known,
      reasons-scanned scan p.no_personal_data,
    )

flow-ready :
    (legal privacy : Option Decision) (policy : Policy)
    → status_of 2
        (build_trust_flow ("El proveedor no esta en la lista permitida" ∷ []) legal privacy policy)
      ≡ some ready
unfolding build_trust_flow starts_with includes status_of
flow-ready legal privacy policy = refl

-- A payment that would be allowed if only its provider were on the allowlist, and whose provider is
-- not on it, is refused, and yet its trust flow shows the policy check as ready: none of the words that
-- `buildTrustFlow` looks for is in the reason that the decision gives.
pub unlisted-policy_stage :
    (guard : Intent → Scan) (intent : Intent) (policy : Policy) (receipts : List Receipt)
    (now : Codes) (options : Options)
    → listed intent.provider_id policy.allowlisted_providers ≡ false
    → (evaluate_payment_intent guard intent (admitting intent policy) receipts now options).allowed
      ≡ true
    → let e = evaluate_payment_intent guard intent policy receipts now options in
      (e.allowed ≡ false) × (status_of 2 e.trust_flow ≡ some ready)
unfolding evaluate_payment_intent
unlisted-policy_stage guard intent policy receipts now options unlisted allowed =
    let permitted =
      (evaluate-IsPermitted guard intent (admitting intent policy) receipts now options).0
        allowed in
    let one =
      reasons-unlisted (guard intent) intent policy options (spent (day_key now) receipts)
        (spent (month_key now) receipts) unlisted permitted in
    (
      ap is_empty one,
      ap
            (λ rs.
              status_of 2
                (build_trust_flow rs options.legal_decision options.privacy_decision policy))
            one
          ∙ flow-ready options.legal_decision options.privacy_decision policy,
    )
