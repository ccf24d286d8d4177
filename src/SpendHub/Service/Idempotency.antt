-- ===== src/SpendHub/Service/Idempotency.antt =====
-- An intent that is created again under its idempotency key (src/spendHubService.mjs,
-- `createIntent`).
use stellar_agent_spend_hub.Common.{
  String, Option, none, some, find, ◌≡◌, refl, sym, ap, subst, ◌∙◌,
}
use stellar_agent_spend_hub.Common.Text.{eq_refl}
use stellar_agent_spend_hub.Common.Result.{ok}
use stellar_agent_spend_hub.Common.After.{
  After, returned, After-bind, After-lift, After-weaken, After-ok,
}
use stellar_agent_spend_hub.Common.Map.{get, get-set_self}
use stellar_agent_spend_hub.SpendHub.Intent.{SpendIntent, build_spend_intent}
use stellar_agent_spend_hub.SpendHub.Judges.{get_provider}
use stellar_agent_spend_hub.SpendHub.Rails.{Moment}
use stellar_agent_spend_hub.SpendHub.Hub.{Hub, Setup, has_id, find_intent}
use stellar_agent_spend_hub.SpendHub.Service.{
  Draft, create_intent, intent_for, key_of, provider_or_404,
}
use stellar_agent_spend_hub.SpendHub.Service.Payments.{find_intent-After, find-has_id}

-- the intent is there, and the key leads to it
record IsKept (key : String) (i : SpendIntent) (t : Hub) : Type 0 where
  pub there : find (has_id i.intent.id) t.intents ≡ some i
  pub noted : get key t.idempotency_keys ≡ some i.intent.id

intent_for-IsKept :
    (setup : Setup) (m : Moment) (draft : Draft) (key : String) (o : Option String) (s : Hub)
    → draft.idempotency_key ≡ some key
    → get key s.idempotency_keys ≡ o
    → After (IsKept key) (λ t. Unit) (intent_for setup m draft o s)
intent_for-IsKept setup m draft key (some id) s k h =
    After-weaken
      (λ i t (at_s, q).
        let named = find-has_id id s.intents i q in
        record {
          there =
              ap (λ x. find (has_id i.intent.id) x.intents) at_s
              ∙ ap (λ n. find (has_id n) s.intents) named
              ∙ q;
          noted = ap (λ x. get key x.idempotency_keys) at_s ∙ h ∙ ap some (sym named);
        })
      (λ t e. tt) (find_intent-After id s)
intent_for-IsKept setup m draft key none s k h =
    After-bind (After-lift (provider_or_404 (get_provider draft.provider_id setup.providers)) s tt)
      (λ provider t _.
        After-bind
          (After-lift
            (build_spend_intent setup.guards.intent provider draft.amount draft.intent_type
              draft.asset draft.idempotency_key m.now m.stamp)
            t tt)
          (λ i u _. returned i _ (record {
            there = rw (eq_refl i.intent.id);
            noted = rw (k) (get-set_self key i.intent.id u.idempotency_keys);
          })))

create_intent-IsKept :
    (setup : Setup) (m : Moment) (draft : Draft) (key : String) (s : Hub)
    → draft.idempotency_key ≡ some key
    → After (IsKept key) (λ t. Unit) (create_intent setup m draft s)
unfolding create_intent
create_intent-IsKept setup m draft key s k =
    subst
      (λ o.
        After (IsKept key) (λ t. Unit) (intent_for setup m draft (key_of o s.idempotency_keys) s))
      (sym k) (intent_for-IsKept setup m draft key (get key s.idempotency_keys) s k refl)

-- Once a call with an idempotency key has created or found an intent, the next call with the same key,
-- on the state that it left and whatever else it asks for, returns the same intent and changes nothing.
pub create_intent_again :
    (setup : Setup) (m m' : Moment) (draft draft' : Draft) (key : String) (s t : Hub)
    (i : SpendIntent)
    → draft.idempotency_key ≡ some key
    → draft'.idempotency_key ≡ some key
    → create_intent setup m draft s ≡ (ok i, t)
    → create_intent setup m' draft' t ≡ (ok i, t)
unfolding create_intent find_intent
create_intent_again setup m m' draft draft' key s t i k k' done =
    let kept =
      After-ok (create_intent setup m draft s) i t (create_intent-IsKept setup m draft key s k)
        done in
    rw (k', kept.noted, kept.there)
