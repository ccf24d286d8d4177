-- ===== src/Pilot/Repository/Creation.antt =====
-- `repository.create`: a record whose idempotency digest is known is not stored again.
use stellar_agent_spend_hub.Common.{String, ◌≡◌, sym, ◌∙◌, ap, ap₂, some, inl, inr, Option-cases}
use stellar_agent_spend_hub.Common.Map.{get, get-set_self}
use stellar_agent_spend_hub.Pilot.Record.{PilotRecord}
use stellar_agent_spend_hub.Pilot.Repository.{
  Repo, get_record, create, insert_new, create_known, request_key, idem_key,
}

module _ (r r' : PilotRecord) (tenant : r'.tenant_id ≡ r.tenant_id)
    (digest : r'.idempotency_digest ≡ r.idempotency_digest) where
  abbrev key : String
  key = idem_key r.tenant_id r.idempotency_digest

  create_known_by : (s : Repo) → create r' s ≡ create_known r' s (get key s.idempotency)
  unfolding create
  create_known_by s = ap (λ k. create_known r' s (get k s.idempotency)) (ap₂ idem_key tenant digest)

  create_old :
      (s : Repo) (old : String)
      → get key s.idempotency ≡ some old
      → create r' s ≡ (get_record old r.tenant_id s, s)
  create_old s old known =
      create_known_by s ∙ ap (create_known r' s) known ∙ ap (λ k. (get_record old k s, s)) tenant

  -- Once a record has been created, creating one with the same tenant and idempotency digest finds
  -- what the first call returned and leaves the store as it is.
  pub create_again : (s : Repo) → create r' (create r s).1 ≡ create r s
  unfolding create get_record
  create_again s = elim (Option-cases (get key s.idempotency)) [
    | inr (old, known) ↦
        let first : create r s ≡ (get_record old r.tenant_id s, s) = ap (create_known r s) known in
        ap (λ x. create r' x.1) first ∙ create_old s old known ∙ sym first
    | inl fresh ↦
        let u = (insert_new r s).1 in
        let first : create r s ≡ insert_new r s = ap (create_known r s) fresh in
        ap (λ x. create r' x.1) first
        ∙ create_old u r.request_id (get-set_self key r.request_id s.idempotency)
        ∙ ap (λ o. (o, u)) (get-set_self (request_key r.tenant_id r.request_id) r s.memory)
        ∙ sym first
  ]
