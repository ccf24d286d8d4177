-- ===== src/SpendHub/Service/Frame.antt =====
-- The calls of the hub that leave the receipts alone (src/spendHubService.mjs).
use stellar_agent_spend_hub.Common.{
  ℕ, String, Bool, true, false, not, ◌||◌, Option, none, some, List, find, ◌≡◌, refl, ap, sym,
  subst, ◌∙◌, ◌⊎◌, inl, inr, if◌then◌else◌,
}
use stellar_agent_spend_hub.Common.Text.{Codes, str_eq}
use stellar_agent_spend_hub.Common.Result.{Result, ok, err}
use stellar_agent_spend_hub.Common.Action.{Action, continue, raise_if}
use stellar_agent_spend_hub.Common.After.{After, returned, After-bind, After-weaken, After-always}
use stellar_agent_spend_hub.Common.Map.{get}
use stellar_agent_spend_hub.Domain.Amounts.{Amount}
use stellar_agent_spend_hub.Domain.{Receipt, Evaluation}
use stellar_agent_spend_hub.SpendHub.Intent.{
  SpendIntent, Provider, is_link_intent, build_spend_intent,
}
use stellar_agent_spend_hub.SpendHub.Judges.{get_provider}
use stellar_agent_spend_hub.SpendHub.Rails.{Moment, deny_spend_request}
use stellar_agent_spend_hub.SpendHub.Machine.{Verification, accepted, rejected}
use stellar_agent_spend_hub.SpendHub.Hub.{
  Hub, Setup, World, find_intent, has_id, found_or_404, current, evaluate_intent, evaluate_now,
  safe_legal_decision, active_payment_adapter,
}
use stellar_agent_spend_hub.SpendHub.Service.{
  Draft, create_intent, intent_for, key_of, provider_or_404, generate_proof,
  create_link_spend_request, request_of, prepare_intent, prepare_link, prepare_wallet,
  dismiss_intent, deny_link_spend_request, request_or_404, request_machine_resource, machine_draft,
  challenge_for, deliver_or_charge, verification_of,
}
use stellar_agent_spend_hub.SpendHub.Service.Payments.{IsCalm, find_intent-After}

-- A call has left the receipts as `rs`, whether it returned or threw.
abbrev pub Keeps : {A : Type 0} → List Receipt → Result A × Hub → Type 0
Keeps rs x = After (λ a t. t.receipts ≡ rs) (λ t. t.receipts ≡ rs) x

module _ {rs : List Receipt} where
  Keeps-bind :
      {A B : Type 0} {x : Result A × Hub} {f : A → Action Hub B}
      → Keeps rs x
      → ((a : A) (t : Hub) → t.receipts ≡ rs → Keeps rs (f a t))
      → Keeps rs (continue x f)
  Keeps-bind h k = After-bind h k

  Keeps-lift : {A : Type 0} (r : Result A) (s : Hub) → s.receipts ≡ rs → Keeps rs (r, s)
  Keeps-lift (ok a) s h = returned a s h
  Keeps-lift (err e) s h = record { holds = h }

  Keeps-raise_if :
      (test : Bool) (status : ℕ) (message : String) (s : Hub)
      → s.receipts ≡ rs
      → Keeps rs (raise_if test status message s)
  Keeps-raise_if true status message s h = record { holds = h }
  Keeps-raise_if false status message s h = returned tt s h

  Keeps-find_intent : (id : String) (s : Hub) → s.receipts ≡ rs → Keeps rs (find_intent id s)
  unfolding find_intent
  Keeps-find_intent id s h = Keeps-lift (found_or_404 (find (has_id id) s.intents)) s h

  Keeps-new_intent :
      (setup : Setup) (m : Moment) (draft : Draft) (o : Option String) (s : Hub)
      → s.receipts ≡ rs
      → Keeps rs (intent_for setup m draft o s)
  Keeps-new_intent setup m draft (some id) s h = Keeps-find_intent id s h
  Keeps-new_intent setup m draft none s h =
      Keeps-bind (Keeps-lift (provider_or_404 (get_provider draft.provider_id setup.providers)) s h)
        (λ provider t k.
          Keeps-bind
            (Keeps-lift
              (build_spend_intent setup.guards.intent provider draft.amount draft.intent_type
                draft.asset draft.idempotency_key m.now m.stamp)
              t k)
            (λ i u l. returned i _ l))

  pub Keeps-create_intent :
      (setup : Setup) (m : Moment) (draft : Draft) (s : Hub)
      → s.receipts ≡ rs
      → Keeps rs (create_intent setup m draft s)
  unfolding create_intent
  Keeps-create_intent setup m draft s h =
      Keeps-new_intent setup m draft (key_of draft.idempotency_key s.idempotency_keys) s h

  pub Keeps-dismiss_intent :
      (m : Moment) (id dismissed_by : String) (s : Hub)
      → s.receipts ≡ rs
      → Keeps rs (dismiss_intent m id dismissed_by s)
  unfolding dismiss_intent
  Keeps-dismiss_intent m id dismissed_by s h = Keeps-bind (Keeps-find_intent id s h) (λ i t k.
      Keeps-bind
        (Keeps-raise_if (str_eq i.status "settled" || str_eq i.status "approved_preview") 409 _ t k)
        (λ _ u l. returned _ _ l))

  module _ (setup : Setup) (w : World) (calm : IsCalm w) where
    pub Keeps-generate_proof :
        (id secret_ref salt : String) (s : Hub)
        → s.receipts ≡ rs
        → Keeps rs (generate_proof setup w id secret_ref salt s)
    unfolding generate_proof
    Keeps-generate_proof id secret_ref salt s h = Keeps-bind (Keeps-find_intent id s h) (λ i t k.
        Keeps-bind (Keeps-raise_if (not i.intent.proof_required) 400 _ t k)
          (λ _ u l. returned _ _ (calm.receipts 1 _ ∙ calm.receipts 0 u ∙ l)))

    pub Keeps-deny_link :
        (id denied_by : String) (s : Hub)
        → s.receipts ≡ rs
        → Keeps rs (deny_link_spend_request setup w id denied_by s)
    unfolding deny_link_spend_request
    Keeps-deny_link id denied_by s h =
        Keeps-bind (Keeps-lift (request_or_404 (get id s.spend_requests)) s h) (λ request t k.
          Keeps-bind
            (Keeps-lift (deny_spend_request setup.guards.request w.moment request denied_by) t k)
            (λ denied u l.
              Keeps-bind (Keeps-find_intent id _ (calm.receipts 0 u ∙ l))
                (λ i v e. returned _ _ e)))

    Keeps-create_link :
        (id : String) (e : Evaluation) (s : Hub)
        → s.receipts ≡ rs
        → Keeps rs (create_link_spend_request setup w id (some e) s)
    unfolding create_link_spend_request
    Keeps-create_link id e s h = Keeps-bind (Keeps-find_intent id s h) (λ found t k.
        Keeps-bind (Keeps-lift (request_of setup w.moment (current found t) e) t k)
          (λ r u l. returned _ _ (calm.receipts 0 u ∙ l)))

    Keeps-challenge_for :
        (provider : Provider) (provider_id resource_id : String) (amount : Option Amount)
        (message : String) (s : Hub)
        → s.receipts ≡ rs
        → Keeps rs (challenge_for setup w.moment provider provider_id resource_id amount message s)
    Keeps-challenge_for provider provider_id resource_id amount message s h =
        Keeps-bind
          (Keeps-create_intent setup w.moment
            (machine_draft provider provider_id resource_id amount) s h)
          (λ i t k. Keeps-bind (Keeps-lift _ t k) (λ c u l. returned _ _ l))

    Keeps-deliver_or_charge :
        (provider : Provider) (provider_id resource_id : String) (amount : Option Amount)
        (o : Option Verification) (s : Hub)
        → s.receipts ≡ rs
        → Keeps rs (deliver_or_charge setup w.moment provider provider_id resource_id amount o s)
    Keeps-deliver_or_charge provider provider_id resource_id amount none s h =
        Keeps-challenge_for provider provider_id resource_id amount "Payment required" s h
    Keeps-deliver_or_charge provider provider_id resource_id amount (some (rejected reason)) s h =
        Keeps-challenge_for provider provider_id resource_id amount "Payment credential rejected" s
          h
    Keeps-deliver_or_charge provider provider_id resource_id amount (some (accepted r)) s h =
        Keeps-bind (Keeps-lift _ s h) (λ x t k. returned _ t k)

    pub Keeps-request_machine_resource :
        (provider_id resource_id : String) (credential : Option Codes) (amount : Option Amount)
        (s : Hub)
        → s.receipts ≡ rs
        → Keeps rs
            (request_machine_resource setup w.moment provider_id resource_id credential amount s)
    unfolding request_machine_resource
    Keeps-request_machine_resource provider_id resource_id credential amount s h =
        Keeps-bind (Keeps-lift (provider_or_404 (get_provider provider_id setup.providers)) s h)
          (λ provider t k.
            Keeps-deliver_or_charge provider provider_id resource_id amount
              (verification_of setup credential provider_id t) t k)

    Keeps-prepare_link :
        (id : String) (e : Evaluation) (s : Hub)
        → s.receipts ≡ rs
        → Keeps rs (prepare_link setup w id e s)
    Keeps-prepare_link id e s h = Keeps-bind (Keeps-create_link id e s h) (λ r t k. returned _ _ k)

    Keeps-prepare_wallet :
        (id : String) (i : SpendIntent) (e : Evaluation) (s : Hub)
        → s.receipts ≡ rs
        → Keeps rs (prepare_wallet setup w id i e s)
    Keeps-prepare_wallet id i e s h =
        Keeps-bind (Keeps-lift ((active_payment_adapter setup i).prepare i e) s h)
          (λ p t k. returned _ _ (calm.receipts 0 t ∙ k))

    Keeps-prepare_by :
        (id : String) (i : SpendIntent) (e : Evaluation) (link : Bool) (s : Hub)
        → s.receipts ≡ rs
        → Keeps rs ((if link then prepare_link setup w id e else prepare_wallet setup w id i e) s)
    Keeps-prepare_by id i e true s h = Keeps-prepare_link id e s h
    Keeps-prepare_by id i e false s h = Keeps-prepare_wallet id i e s h

-- A call has left the receipts as they were, or as they were after the wait for its evaluation.
abbrev pub Idle : World → Hub → Hub → Type 0
Idle w s t = (t.receipts ≡ s.receipts) ⊎ (t.receipts ≡ (w.during_evaluation s).receipts)

module _ (setup : Setup) (w : World) (calm : IsCalm w) where
  pub Idle-Keeps : {A : Type 0} {x : Result A × Hub} (s : Hub) → Keeps s.receipts x → Idle w s x.1
  Idle-Keeps {x = x} s h = After-always (Idle w s) x (λ a t k. inl k) (λ t k. inl k) h

  Idle-after :
      {A : Type 0} (id : String) (s : Hub) (f : SpendIntent → Action Hub A)
      → ((found : SpendIntent) → Keeps (w.during_evaluation s).receipts (f found s))
      → Idle w s (continue (find_intent id s) f).1
  Idle-after id s f h =
      After-always (Idle w s) (continue (find_intent id s) f) (λ a t k. k) (λ t k. k)
        (After-bind
          (After-weaken (λ i t k. k) (λ t e. inl (ap (λ x. x.receipts) e)) (find_intent-After id s))
          (λ found t (at_s, q).
            subst (λ x. After (λ a u. Idle w s u) (Idle w s) (f found x)) (sym at_s)
              (After-weaken (λ a u k. inr k) (λ u k. inr k) (h found))))

  pub prepare-Idle : (id : String) (s : Hub) → Idle w s (prepare_intent setup w id s).1
  unfolding prepare_intent evaluate_intent
  prepare-Idle id s = Idle-after id s _ (λ found.
      let t = w.during_evaluation s in
      Keeps-prepare_by setup w calm id (current found t)
        (evaluate_now setup w.moment (safe_legal_decision setup found) (current found t) t)
        (is_link_intent (current found t)) t refl)

  pub create_link-Idle :
      (id : String) (s : Hub) → Idle w s (create_link_spend_request setup w id none s).1
  unfolding create_link_spend_request evaluate_intent
  create_link-Idle id s = Idle-after id s _ (λ found.
      let t = w.during_evaluation s in
      Keeps-bind
        (Keeps-lift
          (request_of setup w.moment (current found t)
            (evaluate_now setup w.moment (safe_legal_decision setup found) (current found t) t))
          t refl)
        (λ r u l. returned _ _ (calm.receipts 0 u ∙ l)))
