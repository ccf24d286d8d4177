-- ===== src/SpendHub/Service/Payments.antt =====
-- What a payment of the hub (src/spendHubService.mjs) does to the receipts.
use stellar_agent_spend_hub.Common.{
  ℕ, String, Bool, true, false, not, Option, none, some, List, [], ◌∷◌, find, ◌≡◌, refl, sym, ap,
  subst, ◌∙◌, inl, inr, arith, Bool-cases,
}
use stellar_agent_spend_hub.Common.Text.{eq_iff}
use stellar_agent_spend_hub.Common.Result.{Result, ok, err, ◌>>=◌}
use stellar_agent_spend_hub.Common.After.{
  After, returned, After-bind, After-lift, After-raise_if, After-weaken,
}
use stellar_agent_spend_hub.Common.Map.{get}
use stellar_agent_spend_hub.Domain.{
  Intent, Receipt, Evaluation, Options, evaluate_payment_intent, create_receipt,
}
use stellar_agent_spend_hub.Domain.Budget.{Keeps, create_receipt-Keeps}
use stellar_agent_spend_hub.SpendHub.Intent.{SpendIntent, or_else}
use stellar_agent_spend_hub.SpendHub.Rails.{
  Moment, SpendRequest, settle_link_payment, link_result, request_approved, credential_id,
  approve_spend_request,
}
use stellar_agent_spend_hub.SpendHub.Hub.{
  Hub, Setup, World, PaymentAdapter, has_id, find_intent, found_or_404, current,
  active_payment_adapter,
}
use stellar_agent_spend_hub.SpendHub.Service.{
  create_link_spend_request, request_of, request_for, settle_by_link, keep_request, pay_by_wallet,
  pay_by_link, record_receipt,
}

-- An adapter settles only what was allowed, and its receipt keeps the intent's number and amount and
-- the time; it may refuse more than the evaluation does, and note more on the receipt.
abbrev pub IsReceiptMaker : PaymentAdapter → Type 0
IsReceiptMaker adapter =
    (m : Moment) (i : SpendIntent) (e : Evaluation) (approved_by : String) (r : Receipt)
    → adapter.settle m i e approved_by ≡ ok r
    → Keeps e.allowed m.later i.intent r

-- While a call waits for its evaluation, no intent goes away.
abbrev pub IsKeeper : World → Type 0
IsKeeper w =
    (s : Hub) (id : String) (i : SpendIntent)
    → find (has_id id) s.intents ≡ some i
    → (j : SpendIntent) × (find (has_id id) (w.during_evaluation s).intents ≡ some j)

-- While a call waits for an adapter, the receipts and the payment of each intent stay.
pub record IsCalm (w : World) : Type 0 where
  pub receipts : (n : ℕ) (s : Hub) → (w.during_adapter n s).receipts ≡ s.receipts
  pub intents :
      (n : ℕ) (s : Hub) (id : String) (i : SpendIntent)
      → find (has_id id) s.intents ≡ some i
      → (j : SpendIntent) × (find (has_id id) (w.during_adapter n s).intents ≡ some j)
        × (j.intent ≡ i.intent)

-- A receipt of a payment that the hub has decided on the receipts before it.
pub record IsDecided (setup : Setup) (w : World) (before : List Receipt) (intent : Intent)
    (options : Options) (r : Receipt) : Type 0 where
  pub allowed :
      (evaluate_payment_intent setup.guards.payload intent setup.policy before w.moment.now
        options).allowed
      ≡ true
  pub made :
      Keeps
        (evaluate_payment_intent setup.guards.payload intent setup.policy before w.moment.now
          options).allowed
        w.moment.later
        intent
        r
  pub clean : (setup.guards.receipt r).allowed ≡ true

pub not-false : (b : Bool) → not b ≡ false → b ≡ true
not-false b h = ground arith

pub some-inj : {A : Type 0} (a b : A) → some a ≡ some b → a ≡ b
some-inj a b h = cc

pub find-some : {A : Type 0} (p : A → Bool) (xs : List A) (x : A) → find p xs ≡ some x → p x ≡ true
find-some p [] x h = cc
find-some p (y ∷ ys) x h = elim (Bool-cases (p y)) [
  | inl e ↦ let same : some y ≡ some x = rw e at h in subst (λ z. p z ≡ true) (some-inj y x same) e
  | inr e ↦ find-some p ys x (rw e at h)
]

pub find-has_id :
    (id : String) (is : List SpendIntent) (i : SpendIntent)
    → find (has_id id) is ≡ some i
    → i.intent.id ≡ id
find-has_id id is i h = (eq_iff i.intent.id id).0 (find-some (has_id id) is i h)

found-eq : (o : Option SpendIntent) (i : SpendIntent) → found_or_404 o ≡ ok i → o ≡ some i
found-eq none i h = cc
found-eq (some j) i h = cc

pub find_intent-After :
    (id : String) (s : Hub)
    → After (λ i t. (t ≡ s) × (find (has_id id) s.intents ≡ some i)) (λ t. t ≡ s) (find_intent id s)
unfolding find_intent
find_intent-After id s =
    After-weaken (λ i t (e, same). (same, found-eq (find (has_id id) s.intents) i e)) (λ t e. e)
      (After-lift (found_or_404 (find (has_id id) s.intents)) s refl)

two_steps :
    {A B C : Type 0} (x : Result A) (g : A → Result B) (F : B → C) (c : C)
    → (x >>= λ a. g a >>= λ b. ok (F b)) ≡ ok c
    → (b : B) × (c ≡ F b)
two_steps (err e) g F c h = cc
two_steps {B = B} (ok a) g F c h = last (g a) h
  where
    last : (y : Result B) → (y >>= λ b. ok (F b)) ≡ ok c → (b : B) × (c ≡ F b)
    last (ok b) k = (b, cc)
    last (err e) k = cc

settle_link-Keeps :
    (setup : Setup) (m : Moment) (i : SpendIntent) (e : Evaluation) (request : SpendRequest)
    (approved_by : String) (r : Receipt)
    → settle_link_payment setup.guards.request setup.guards.receipt m i e request approved_by ≡ ok r
    → Keeps e.allowed m.later i.intent r
unfolding settle_link_payment
settle_link-Keeps setup m i e request approved_by r h =
    let (hash, made) =
      two_steps (request_approved setup.guards.request m request approved_by)
        (λ approved. credential_id approved.payment_credential)
        (λ hash.
          create_receipt setup.guards.receipt m.receipt_id m.later i.intent e
            (some (link_result i hash)) approved_by)
        r h in
    subst (Keeps e.allowed m.later i.intent) (sym made) (
      create_receipt-Keeps setup.guards.receipt m.receipt_id m.later i.intent e
        (some (link_result i hash)) approved_by)

module _ (setup : Setup) (w : World) (id : String) (calm : IsCalm w) where
  -- The receipts and the payment of the intent are as they were.
  pub record Still (rs : List Receipt) (j : Intent) (s : Hub) : Type 0 where
    pub receipts : s.receipts ≡ rs
    pub held : SpendIntent
    pub found : find (has_id id) s.intents ≡ some held
    pub same : held.intent ≡ j

  Still-during :
      (n : ℕ) (rs : List Receipt) (j : Intent) (s : Hub)
      → Still rs j s
      → Still rs j (w.during_adapter n s)
  Still-during n rs j s h =
      let (held, found, same) = calm.intents n s id h.held h.found in
      record {
        receipts = calm.receipts n s ∙ h.receipts;
        held = held;
        found = found;
        same = same ∙ h.same;
      }

  current-Still :
      (rs : List Receipt) (j : Intent) (s : Hub) (i : SpendIntent)
      → i.intent.id ≡ id
      → Still rs j s
      → (current i s).intent ≡ j
  current-Still rs j s i e h =
      ap (λ k. (or_else (find (has_id k) s.intents) i).intent) e
      ∙ ap (λ o. (or_else o i).intent) h.found
      ∙ h.same

  -- finding the intent once more
  find_intent-Still :
      (rs : List Receipt) (j : Intent) (s : Hub)
      → Still rs j s
      → After (λ i t. Still rs j t × (i.intent.id ≡ id)) (λ t. t.receipts ≡ rs) (find_intent id s)
  find_intent-Still rs j s h =
      After-weaken (λ i t (e, q). (subst (Still rs j) (sym e) h, find-has_id id s.intents i q))
        (λ t e. ap (λ x. x.receipts) e ∙ h.receipts) (find_intent-After id s)

  record_receipt-After :
      (rs : List Receipt) (r : Receipt) (s : Hub)
      → s.receipts ≡ rs
      → After
          (λ a t. (a ≡ r) × (t.receipts ≡ r ∷ rs) × ((setup.guards.receipt r).allowed ≡ true))
          (λ t. t.receipts ≡ rs)
          (record_receipt setup id r s)
  unfolding record_receipt
  record_receipt-After rs r s h =
      After-bind (After-raise_if (not (setup.guards.receipt r).allowed) 500 _ s h)
        (λ u t (dirty, e).
          returned r _ (refl, ap (λ x. r ∷ x.receipts) e ∙ ap (λ x. r ∷ x) h, not-false _ dirty))

  create_link_spend_request-After :
      (rs : List Receipt) (j : Intent) (e : Evaluation) (s : Hub)
      → Still rs j s
      → After
          (λ r t. Still rs j t)
          (λ t. t.receipts ≡ rs)
          (create_link_spend_request setup w id (some e) s)
  unfolding create_link_spend_request
  create_link_spend_request-After rs j e s h =
      After-bind (find_intent-Still rs j s h) (λ found t (now, q).
        After-bind (After-lift (request_of setup w.moment (current found t) e) t now.receipts)
          (λ r u (made, e).
            let later = Still-during 0 rs j u (subst (Still rs j) (sym e) now) in
            returned r _ (record {
              receipts = later.receipts;
              held = later.held;
              found = later.found;
              same = later.same;
            })))

  abbrev pub evaluation_of : Intent → Options → List Receipt → Evaluation
  evaluation_of j options rs =
      evaluate_payment_intent setup.guards.payload j setup.policy rs w.moment.now options

  -- what a payment that returns leaves
  abbrev pub Charges : List Receipt → Intent → Options → Receipt → Hub → Type 0
  Charges rs j options r t = IsDecided setup w rs j options r × (t.receipts ≡ r ∷ rs)

  request_for-After :
      (rs : List Receipt) (j : Intent) (e : Evaluation) (o : Option SpendRequest) (s : Hub)
      → Still rs j s
      → After (λ r t. Still rs j t) (λ t. t.receipts ≡ rs) (request_for setup w id e o s)
  request_for-After rs j e none s h = create_link_spend_request-After rs j e s h
  request_for-After rs j e (some request) s h = returned request s h

  -- the receipt of the simulated wallet, or of an adapter that makes its receipts
  pub pay_by_wallet-After :
      (rs : List Receipt) (i : SpendIntent) (options : Options) (approved_by : String) (s : Hub)
      → IsReceiptMaker (active_payment_adapter setup i)
      → (evaluation_of i.intent options rs).allowed ≡ true
      → s.receipts ≡ rs
      → After
          (Charges rs i.intent options)
          (λ t. t.receipts ≡ rs)
          (pay_by_wallet setup w id i (evaluation_of i.intent options rs) approved_by s)
  pay_by_wallet-After rs i options approved_by s maker allowed h =
      let e = evaluation_of i.intent options rs in
      After-bind (After-lift ((active_payment_adapter setup i).settle w.moment i e approved_by) s h)
        (λ r t (done, same).
          let kept : (w.during_adapter 0 t).receipts ≡ rs =
            calm.receipts 0 t ∙ ap (λ x. x.receipts) same ∙ h in
          After-weaken
            (λ a u (eq, put, clean).
              subst (λ x. Charges rs i.intent options x u) (sym eq)
                (
                  record {
                    allowed = allowed;
                    made = maker w.moment i e approved_by r done;
                    clean = clean;
                  },
                  put,
                ))
            (λ u k. k) (record_receipt-After rs r (w.during_adapter 0 t) kept))

  link_settled :
      (rs : List Receipt) (j : Intent) (options : Options) (found : SpendIntent)
      (approved_by : String) (approved : SpendRequest) (s : Hub)
      → found.intent.id ≡ id
      → (evaluation_of j options rs).allowed ≡ true
      → Still rs j s
      → After
          (Charges rs j options)
          (λ t. t.receipts ≡ rs)
          (settle_by_link setup w id found (evaluation_of j options rs) approved_by approved s)
  link_settled rs j options found approved_by approved s same allowed h =
      let e = evaluation_of j options rs in
      let i = current found s in
      After-bind
        (After-lift
          (settle_link_payment setup.guards.request setup.guards.receipt w.moment i e approved
            approved_by)
          s h.receipts)
        (λ r t (done, at_s).
          let kept : (w.during_adapter 2 t).receipts ≡ rs =
            calm.receipts 2 t ∙ ap (λ x. x.receipts) at_s ∙ h.receipts in
          After-weaken
            (λ a u (eq, put, clean).
              subst (λ x. Charges rs j options x u) (sym eq)
                (
                  record {
                    allowed = allowed;
                    made =
                        subst (λ x. Keeps e.allowed w.moment.later x r)
                          (current-Still rs j s found same h)
                          (settle_link-Keeps setup w.moment i e approved approved_by r done);
                    clean = clean;
                  },
                  put,
                ))
            (λ u k. k) (record_receipt-After rs r (w.during_adapter 2 t) kept))

  pub pay_by_link-After :
      (rs : List Receipt) (j : Intent) (options : Options) (found : SpendIntent)
      (approved_by : String) (s : Hub)
      → found.intent.id ≡ id
      → Still rs j s
      → After
          (Charges rs j options)
          (λ t. t.receipts ≡ rs)
          (pay_by_link setup w id found (evaluation_of j options rs) approved_by s)
  pay_by_link-After rs j options found approved_by s same h =
      let e = evaluation_of j options rs in
      After-bind (After-raise_if (not e.allowed) 409 _ s h.receipts) (λ _ t (refused, at_s).
        After-bind
          (request_for-After rs j e (get id t.spend_requests) t (subst (Still rs j) (sym at_s) h))
          (λ request u still.
            After-bind
              (After-lift (approve_spend_request setup.guards.request w.moment request approved_by)
                u still.receipts)
              (λ approved v (_, at_u).
                let later = Still-during 1 rs j v (subst (Still rs j) (sym at_u) still) in
                let x = keep_request id approved (w.during_adapter 1 v) in
                let kept : Still rs j x = record {
                  receipts = later.receipts;
                  held = later.held;
                  found = later.found;
                  same = later.same;
                } in
                link_settled rs j options found approved_by approved x same (not-false _ refused)
                  kept)))
