-- ===== src/Pilot/Service/StoreTests.antt =====
-- The store and the drafts at concrete requests.
use stellar_agent_spend_hub.Common.{All, map, ◌+◌, none, some, [], ◌∷◌, ◌≡◌, refl}
use stellar_agent_spend_hub.Common.Text.{is_digest}
use stellar_agent_spend_hub.Common.Result.{ok}
use stellar_agent_spend_hub.Pilot.Record.{
  public_pilot_evidence, PilotRecord, created, public_pilot_request,
}
use stellar_agent_spend_hub.Pilot.Validation.{
  is_request_id, safe_digest_equal, validate_pilot_resource_id, validate_pilot_amount, is_one_cent,
  validate_pilot_idempotency_key,
}
use stellar_agent_spend_hub.Pilot.Repository.{
  list, Repo, request_key, idem_key, Mutate, remote_update, get_record, put_record, create, update,
  update_loop,
}
use stellar_agent_spend_hub.Common.Map.{get, set}
use stellar_agent_spend_hub.Money.{span, trim, trim_start, trim_end, strip_trailing}
use stellar_agent_spend_hub.Pilot.Repository.Atomic.{atomic_update, update-atomic}
use stellar_agent_spend_hub.Pilot.Repository.Linear.{Committed, KeepsVersions, update-Committed}
use stellar_agent_spend_hub.Pilot.Repository.Versions.{Grows-refl, Grows-same}
use stellar_agent_spend_hub.Pilot.Repository.Remote.{remote_update-eq-update}
use stellar_agent_spend_hub.Pilot.Service.Drafts.{draft_idempotent}
use stellar_agent_spend_hub.Pilot.Service.Holding.{
  drafting, preparing, approving, claiming, completing, after,
}
use stellar_agent_spend_hub.Pilot.Service.Reachable.{
  AllValid, after-AllValid, Reachable, start, step, evidence-IsBacked, IsBacked,
}
use stellar_agent_spend_hub.Pilot.Service.{
  secret, evidence, Verified, prepare, approve, claim, complete, require_request, Draft,
  approve_change, require_provider, new_record, normalized_json, create_draft, pilot_tenant,
}
use stellar_agent_spend_hub.Pilot.Service.Samples.{
  proof, hash_a, at_time, hash_0, crypto, settings, id, waiting, holding, agreed,
}

abbrev draft : Draft
draft = record {
  provider_id = "stellar-agent-merchant-lab";
  resource_id = " stellar-risk-snapshot";
  amount = "0.010";
  idempotency_key = "order:0001";
}

abbrev nothing : Repo
nothing = record { memory = []; idempotency = []; order = [] }

abbrev drafted : PilotRecord
drafted = record waiting {
  version = 1;
  status = created;
  approval_token_hash = none;
  approval_expires_at = none;
  updated_at = 90000;
}

abbrev drafted_store : Repo
drafted_store = record {
  memory = (request_key pilot_tenant id, drafted) ∷ [];
  idempotency = (idem_key pilot_tenant hash_0, id) ∷ [];
  order = id ∷ [];
}

drafted_run :
    create_draft crypto settings 90000 id pilot_tenant draft nothing
    ≡ (ok (public_pilot_request drafted), drafted_store)
unfolding create_draft require_provider new_record validate_pilot_resource_id validate_pilot_amount
    is_one_cent validate_pilot_idempotency_key get_record create request_key idem_key get set span
    trim trim_start trim_end strip_trailing normalized_json
drafted_run = refl

draft_idempotent_example :
    create_draft crypto settings 95000 "other" pilot_tenant draft drafted_store
    ≡ (ok (public_pilot_request drafted), drafted_store)
draft_idempotent_example =
    draft_idempotent crypto settings pilot_tenant draft 90000 95000 id "other" nothing drafted_store
      (public_pilot_request drafted) drafted_run

abbrev change : Mutate
change = approve_change 200000

update-atomic_example :
    update id pilot_tenant change (λ n. 200000 + n) (λ n t. t) (holding waiting)
    ≡ atomic_update id pilot_tenant change 200007 (holding waiting)
update-atomic_example = update-atomic id pilot_tenant change (λ n. 200000 + n) (holding waiting)

update_run :
    update id pilot_tenant change (λ n. 200000) (λ n t. t) (holding waiting)
    ≡ (ok agreed, holding agreed)
unfolding get_record put_record update update_loop request_key get set
update_run = refl

keeps : KeepsVersions id pilot_tenant change (λ n. 200000) (λ n t. t)
keeps n s a b h k e = Grows-same s s id pilot_tenant a b (Grows-refl s) h k e

update-Committed_example :
    Committed id pilot_tenant change
      (λ n. 200000)
      (λ n t. t)
      (holding waiting)
      agreed
      (holding agreed)
update-Committed_example =
    update-Committed id pilot_tenant change (λ n. 200000) (λ n t. t) (holding waiting) agreed
      (holding agreed) keeps update_run

remote_update-eq-update_example :
    remote_update id pilot_tenant change (λ n. 200000) (λ n t. t) (holding waiting)
    ≡ update id pilot_tenant change (λ n. 200000) (λ n t. t) (holding waiting)
remote_update-eq-update_example =
    remote_update-eq-update id pilot_tenant change (λ n. 200000) (λ n t. t) (holding waiting)
      (λ n s h. h)

nothing_valid : AllValid nothing
unfolding get
nothing_valid k r h = absurd (impossible r h)
  where
    impossible : (r : PilotRecord) → none ≡ some r → ⊥
    impossible r e = cc

after-AllValid_example :
    AllValid (after crypto settings (drafting 90000 id pilot_tenant draft) nothing)
after-AllValid_example =
    after-AllValid crypto settings (drafting 90000 id pilot_tenant draft) nothing tt nothing_valid

-- what the one settlement of the run below has verified
abbrev IsProof : Verified → Type 0
IsProof x = x ≡ proof

ok_inj : (x : Verified) → ok proof ≡ ok x → IsProof x
ok_inj x e = cc

-- a request from its draft to its settlement
settled_store : Reachable crypto settings IsProof (
    after crypto settings (completing (at_time 300000) (λ r. ok proof) "claim" id pilot_tenant) (
      after crypto settings (claiming (at_time 250000) "claim" id pilot_tenant) (
        after crypto settings (approving (at_time 200000) id "token") (
          after crypto settings
            (preparing (at_time 100000) id pilot_tenant)
            (after crypto settings (drafting 90000 id pilot_tenant draft) nothing)))))
settled_store =
    step (completing (at_time 300000) (λ r. ok proof) "claim" id pilot_tenant)
      ((λ r x e. ok_inj x e), ((λ s v. v), (λ n s v. v)))
      (step (claiming (at_time 250000) "claim" id pilot_tenant) ((λ s v. v), (λ n s v. v))
        (step (approving (at_time 200000) id "token") ((λ s v. v), (λ n s v. v))
          (step (preparing (at_time 100000) id pilot_tenant) ((λ s v. v), (λ n s v. v))
            (step (drafting 90000 id pilot_tenant draft) tt start))))

evidence-IsBacked_example : All (IsBacked IsProof) (
    evidence crypto settings (
      after crypto settings (completing (at_time 300000) (λ r. ok proof) "claim" id pilot_tenant) (
        after crypto settings (claiming (at_time 250000) "claim" id pilot_tenant) (
          after crypto settings (approving (at_time 200000) id "token") (
            after crypto settings
              (preparing (at_time 100000) id pilot_tenant)
              (after crypto settings (drafting 90000 id pilot_tenant draft) nothing))))))
evidence-IsBacked_example = evidence-IsBacked crypto settings IsProof settled_store

-- that run shows one settlement
settled_evidence :
    map
      (λ e. e.transaction_hash)
      (evidence crypto settings (
        after crypto settings
          (completing (at_time 300000) (λ r. ok proof) "claim" id pilot_tenant)
          (after crypto settings (claiming (at_time 250000) "claim" id pilot_tenant) (
            after crypto settings (approving (at_time 200000) id "token") (
              after crypto settings
                (preparing (at_time 100000) id pilot_tenant)
                (after crypto settings (drafting 90000 id pilot_tenant draft) nothing))))))
    ≡ some hash_a ∷ []
unfolding after create_draft require_provider new_record validate_pilot_resource_id
    validate_pilot_amount is_one_cent validate_pilot_idempotency_key get_record create request_key
    idem_key get set span trim trim_start trim_end strip_trailing normalized_json prepare approve
    claim complete evidence list require_request is_request_id safe_digest_equal is_digest
    put_record update update_loop public_pilot_evidence secret
settled_evidence = refl
