-- ===== src/Pilot/Service/Drafts.antt =====
-- Creating a request: the same draft twice is one request, and a key stands for one draft.
use stellar_agent_spend_hub.Common.{ℕ, String, ◌≡◌, refl, sym, ◌∙◌, ap, inl, inr}
use stellar_agent_spend_hub.Common.Result.{ok, Result-cases}
use stellar_agent_spend_hub.Common.Action.{Action, ◌>>=◌, lift, err-ne-ok, lift-eq-ok}
use stellar_agent_spend_hub.Pilot.Record.{PilotRecord, PublicRequest}
use stellar_agent_spend_hub.Pilot.Repository.{Repo, create}
use stellar_agent_spend_hub.Pilot.Repository.Creation.{create_again}
use stellar_agent_spend_hub.Pilot.Validation.{
  validate_pilot_resource_id, validate_pilot_amount, validate_pilot_idempotency_key,
}
use stellar_agent_spend_hub.Pilot.Service.{
  Crypto, Settings, Provider, Draft, create_draft, require_provider, new_record, normalized_json,
  saved_as, store_record,
}

module _ (crypto : Crypto) (settings : Settings) (tenant : String) (d : Draft) where
  -- What the checks of a draft return.
  record IsChecked : Type 0 where
    provider : Provider
    resource_id : String
    amount : String
    key : String
    allowed : require_provider crypto settings d.provider_id ≡ ok provider
    resource : validate_pilot_resource_id d.resource_id ≡ ok resource_id
    price : validate_pilot_amount d.amount ≡ ok amount
    named : validate_pilot_idempotency_key d.idempotency_key ≡ ok key

  abbrev payload : IsChecked → String
  payload c = crypto.digest (normalized_json c.provider.provider_id c.resource_id c.amount c.key)

  abbrev record_of : IsChecked → ℕ → String → PilotRecord
  record_of c now id =
      new_record crypto settings id tenant c.provider c.resource_id c.key (payload c) now

  -- the end of `createDraft`, for a checked draft
  abbrev draft_write : IsChecked → ℕ → String → Action Repo PublicRequest
  draft_write c now id = do
    saved ← store_record (record_of c now id)
    lift (saved_as (payload c) saved)

  draft_checked :
      (c : IsChecked) (now : ℕ) (id : String) (s : Repo)
      → create_draft crypto settings now id tenant d s ≡ draft_write c now id s
  unfolding create_draft
  draft_checked c now id s = rw (c.allowed, c.resource, c.price, c.named)

  draft_passed :
      (now : ℕ) (id : String) (s t : Repo) (p : PublicRequest)
      → create_draft crypto settings now id tenant d s ≡ (ok p, t)
      → IsChecked
  unfolding create_draft
  draft_passed now id s t p h =
      elim (Result-cases (require_provider crypto settings d.provider_id)) [
        | inl (e, failed) ↦ absurd (err-ne-ok e s t p (rw failed at h))
        | inr (provider, allowed) ↦ elim (Result-cases (validate_pilot_resource_id d.resource_id)) [
          | inl (e, failed) ↦ absurd (err-ne-ok e s t p (rw (allowed, failed) at h))
          | inr (resource_id, resource) ↦ elim (Result-cases (validate_pilot_amount d.amount)) [
            | inl (e, failed) ↦ absurd (err-ne-ok e s t p (rw (allowed, resource, failed) at h))
            | inr (amount, price) ↦
                elim (Result-cases (validate_pilot_idempotency_key d.idempotency_key)) [
                  | inl (e, failed) ↦
                      absurd (err-ne-ok e s t p (rw (allowed, resource, price, failed) at h))
                  | inr (key, named) ↦ record {
                    provider = provider;
                    resource_id = resource_id;
                    amount = amount;
                    key = key;
                    allowed = allowed;
                    resource = resource;
                    price = price;
                    named = named;
                  }
                ]
          ]
        ]
      ]

  -- Sending a draft again right after it succeeded, on the store that it left and under any new request
  -- id, answers the same request and leaves the store as it is, whatever the clock says: here a key does
  -- not expire, and no other call comes in between.
  pub draft_idempotent :
      (now now' : ℕ) (id id' : String) (s t : Repo) (p : PublicRequest)
      → create_draft crypto settings now id tenant d s ≡ (ok p, t)
      → create_draft crypto settings now' id' tenant d t ≡ (ok p, t)
  unfolding new_record
  draft_idempotent now now' id id' s t p h =
      let c = draft_passed now id s t p h in
      let wrote : draft_write c now id s ≡ (ok p, t) = sym (draft_checked c now id s) ∙ h in
      let (answered, stored) = lift-eq-ok _ p _ t wrote in
      let first = record_of c now id in
      let second = record_of c now' id' in
      let again : create second t ≡ create first s =
        ap (create second) stored ∙ create_again first second refl refl s in
      draft_checked c now' id' t
      ∙ ap (λ x. (saved_as (payload c) x.0, x.1)) again
      ∙ (λ i. (answered i, sym stored i))
