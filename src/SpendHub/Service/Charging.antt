-- ===== src/SpendHub/Service/Charging.antt =====
-- An approval of the hub as a whole (src/spendHubService.mjs, `approveIntent` and
-- `approveLinkSpendRequest`): a replay, an error, or one receipt more.
use stellar_agent_spend_hub.Common.{
  String, Bool, true, false, not, Option, none, some, ◌∷◌, find, ◌≡◌, refl, sym, ap, subst, ◌∙◌,
  ◌⊎◌, inl, inr, Option-cases,
}
use stellar_agent_spend_hub.Common.After.{After, returned, After-bind, After-raise_if, After-weaken}
use stellar_agent_spend_hub.Domain.{Options, Receipt}
use stellar_agent_spend_hub.Common.Map.{get}
use stellar_agent_spend_hub.SpendHub.Judges.{evaluate_privacy, evaluate_crypto, evaluate_defi}
use stellar_agent_spend_hub.SpendHub.Intent.{SpendIntent, or_else, is_link_intent}
use stellar_agent_spend_hub.SpendHub.Hub.{
  Hub, Setup, World, has_id, current, evaluate_now, evaluate_intent, options_of,
  safe_legal_decision, active_payment_adapter,
}
use stellar_agent_spend_hub.SpendHub.Service.{
  pay, pay_by, pay_by_link, approve_link_spend_request, approve_intent, is_live, Approval,
}
use stellar_agent_spend_hub.SpendHub.Service.Payments.{
  IsReceiptMaker, IsCalm, IsKeeper, IsDecided, Charges, evaluation_of, find_intent-After,
  find-has_id, not-false, pay_by_wallet-After, pay_by_link-After,
}

-- Every adapter of a setup settles only what was allowed.
abbrev pub IsHonest : Setup → Type 0
IsHonest setup = (i : SpendIntent) → IsReceiptMaker (active_payment_adapter setup i)

-- A receipt that a call on the state `s` has made for the intent `id`: the intent that the call found,
-- as it was after the wait for the evaluation, was allowed by the policy on the receipts of that
-- moment, with the decisions of all four adapters on it, and the receipt keeps its number and amount.
pub record IsCharged (setup : Setup) (w : World) (id : String) (s : Hub) (r : Receipt)
    : Type 0 where
  pub found : SpendIntent
  pub there : find (has_id id) s.intents ≡ some found
  pub named : (current found (w.during_evaluation s)).intent.id ≡ id
  pub options : Options
  pub legal : options.legal_decision ≡ some (safe_legal_decision setup found)
  pub privacy :
      options.privacy_decision
      ≡ some (
          evaluate_privacy
            (current found (w.during_evaluation s))
            (get (current found (w.during_evaluation s)).intent.id (w.during_evaluation s).proofs))
  pub crypto :
      options.crypto_decision
      ≡ some (evaluate_crypto (current found (w.during_evaluation s)) setup.policy)
  pub defi :
      options.defi_decision
      ≡ some (evaluate_defi (current found (w.during_evaluation s)) setup.policy)
  pub decided :
      IsDecided setup w
        (w.during_evaluation s).receipts
        (current found (w.during_evaluation s)).intent
        options
        r

module _ (setup : Setup) (w : World) (id : String) where
  -- What an approval that returns has done.
  pub data Approved (s : Hub) : Approval → Hub → Type 0 where
    replayed :
        (r : Receipt)
        → find (is_live id) s.receipts ≡ some r
        → Approved s (record { receipt = r; replay = true }) s
    charged :
        (r : Receipt) (t : Hub)
        → find (is_live id) s.receipts ≡ none
        → IsCharged setup w id s r
        → t.receipts ≡ r ∷ (w.during_evaluation s).receipts
        → Approved s (record { receipt = r; replay = false }) t

  -- what a call that throws leaves of the receipts
  abbrev pub Unpaid : Hub → Hub → Type 0
  Unpaid s t = (t ≡ s) ⊎ (t.receipts ≡ (w.during_evaluation s).receipts)

  module _ (calm : IsCalm w) where
    current-found :
        (s : Hub) (found i : SpendIntent)
        → found.intent.id ≡ id
        → find (has_id id) s.intents ≡ some i
        → i.intent ≡ (current found s).intent
    current-found s found i named h = sym (
        ap (λ k. (or_else (find (has_id k) s.intents) found).intent) named
        ∙ ap (λ o. (or_else o found).intent) h)

    current_named :
        (s : Hub) (found : SpendIntent) → found.intent.id ≡ id → (current found s).intent.id ≡ id
    current_named s found named = elim (Option-cases (find (has_id found.intent.id) s.intents)) [
      | inl e ↦ rw (e) named
      | inr (i, e) ↦
          ap (λ o. (or_else o found).intent.id) e
          ∙ find-has_id found.intent.id s.intents i e
          ∙ named
    ]

    -- the decision with the options of the evaluation
    charge :
        (s : Hub) (found : SpendIntent) (r : Receipt)
        → find (has_id id) s.intents ≡ some found
        → let t = w.during_evaluation s in
          IsDecided setup w t.receipts
            (current found t).intent
            (options_of setup (safe_legal_decision setup found) (current found t) t)
            r
          → IsCharged setup w id s r
    charge s found r there decided =
        let t = w.during_evaluation s in
        record {
          found = found;
          there = there;
          named = current_named t found (find-has_id id s.intents found there);
          options = options_of setup (safe_legal_decision setup found) (current found t) t;
          legal = refl;
          privacy = refl;
          crypto = refl;
          defi = refl;
          decided = decided;
        }

    -- a link payment decided just now
    approve_link-After :
        (s : Hub) (found : SpendIntent) (options : Options) (approved_by : String)
        → found.intent.id ≡ id
        → let j = (current found s).intent in
          let e = evaluation_of setup w id calm j options s.receipts in
          After
            (Charges setup w id calm s.receipts j options)
            (λ t. t.receipts ≡ s.receipts)
            (approve_link_spend_request setup w id approved_by (some e) s)
    unfolding approve_link_spend_request
    approve_link-After s found options approved_by named =
        let j = (current found s).intent in
        After-bind
          (After-weaken (λ i t k. k) (λ t e. ap (λ x. x.receipts) e) (find_intent-After id s))
          (λ i t (at_s, q).
            pay_by_link-After setup w id calm s.receipts j options i approved_by t
              (find-has_id id s.intents i q)
              (record {
                receipts = ap (λ x. x.receipts) at_s;
                held = i;
                found = ap (λ x. find (has_id id) x.intents) at_s ∙ q;
                same = current-found s found i named q;
              }))

    pay_by-After :
        (s : Hub) (found : SpendIntent) (options : Options) (approved_by : String) (link : Bool)
        → IsHonest setup
        → found.intent.id ≡ id
        → let i = current found s in
          let e = evaluation_of setup w id calm i.intent options s.receipts in
          e.allowed ≡ true
          → After
              (λ a t.
                (a ≡ record { receipt = a.receipt; replay = false })
                × Charges setup w id calm s.receipts i.intent options a.receipt t)
              (λ t. t.receipts ≡ s.receipts)
              (pay_by setup w id i e approved_by link s)
    pay_by-After s found options approved_by true honest named allowed =
        After-bind (approve_link-After s found options approved_by named)
          (λ r t h. returned (record { receipt = r; replay = false }) t (refl, h))
    pay_by-After s found options approved_by false honest named allowed =
        let i = current found s in
        After-bind
          (pay_by_wallet-After setup w id calm s.receipts i options approved_by s (honest i) allowed
            refl)
          (λ r t h. returned (record { receipt = r; replay = false }) t (refl, h))

    pay-After :
        (s : Hub) (found : SpendIntent) (o : Option Receipt) (approved_by : String)
        → IsHonest setup
        → find (has_id id) s.intents ≡ some found
        → find (is_live id) s.receipts ≡ o
        → After (Approved s) (Unpaid s) (pay setup w id approved_by found o s)
    unfolding evaluate_intent evaluate_now
    pay-After s found (some r) approved_by honest there h = returned _ s (replayed r h)
    pay-After s found none approved_by honest there h =
        let named = find-has_id id s.intents found there in
        let t = w.during_evaluation s in
        let options = options_of setup (safe_legal_decision setup found) (current found t) t in
        let e = evaluation_of setup w id calm (current found t).intent options t.receipts in
        After-bind (After-raise_if (not e.allowed) 409 _ t (inr refl)) (λ _ u (refused, at_t).
          subst
            (λ x. After (Approved s) (Unpaid s) (
              pay_by setup w id (current found x) e approved_by (is_link_intent (current found x))
                x))
            (sym at_t)
            (After-weaken
              (λ a v (fresh_one, (decided, put)).
                subst (λ x. Approved s x v) (sym fresh_one)
                  (charged a.receipt v h (charge s found a.receipt there decided) put))
              (λ v k. inr k)
              (pay_by-After t found options approved_by (is_link_intent (current found t)) honest
                named (not-false _ refused))))

    -- In a setup whose adapters settle only what was allowed and keep the intent's number, its amount and
    -- the time on their receipts, and while the receipts and the payment of each intent stay as they
    -- are when a call waits for an adapter: an approval that returns either replays the live receipt that
    -- the intent has, on the state as it was, or finds none and puts one receipt of the intent before
    -- those that the evaluation saw; that intent was allowed by the policy on those receipts with the
    -- legal, privacy, crypto and DeFi decisions on it. One that throws leaves the state as it was, or the
    -- receipts as the evaluation found them.
    pub approve-Approved :
        (s : Hub) (approved_by : String)
        → IsHonest setup
        → After (Approved s) (Unpaid s) (approve_intent setup w id approved_by s)
    unfolding approve_intent
    approve-Approved s approved_by honest =
        After-bind (After-weaken (λ i t k. k) (λ t e. inl e) (find_intent-After id s))
          (λ found t (at_s, q).
            subst
              (λ x.
                After (Approved s) (Unpaid s)
                  (pay setup w id approved_by found (find (is_live id) x.receipts) x))
              (sym at_s)
              (pay-After s found (find (is_live id) s.receipts) approved_by honest q refl))

    -- the same for the call that approves a link request, which looks for no receipt
    pub link-After :
        (s : Hub) (approved_by : String)
        → IsKeeper w
        → After
            (λ r t. IsCharged setup w id s r × (t.receipts ≡ r ∷ (w.during_evaluation s).receipts))
            (Unpaid s)
            (approve_link_spend_request setup w id approved_by none s)
    unfolding approve_link_spend_request evaluate_intent evaluate_now
    link-After s approved_by keeper =
        let t = w.during_evaluation s in
        After-bind (After-weaken (λ i u k. k) (λ u e. inl e) (find_intent-After id s))
          (λ found u (at_s, q).
            subst
              (λ x.
                After (λ r v. IsCharged setup w id s r × (v.receipts ≡ r ∷ t.receipts)) (Unpaid s)
                  (pay_by_link setup w id found
                    (evaluate_now setup w.moment (safe_legal_decision setup found)
                      (current found (w.during_evaluation x)) (w.during_evaluation x))
                    approved_by (w.during_evaluation x)))
              (sym at_s)
              (let named = find-has_id id s.intents found q in
                let (held, r) = keeper s id found q in
                let options =
                  options_of setup (safe_legal_decision setup found) (current found t) t in
                After-weaken (λ a v (decided, put). (charge s found a q decided, put))
                  (λ v k. inr k)
                  (pay_by_link-After setup w id calm t.receipts (current found t).intent options
                    found approved_by t named
                    (record {
                      receipts = refl;
                      held = held;
                      found = r;
                      same = current-found t found held named r;
                    }))))
