-- ===== src/Pilot/Service/Tests.antt =====
-- The service at concrete requests: runs of the code, and the theorems applied to them.
use stellar_agent_spend_hub.Common.{true, some, ◌≡◌, refl, sym, ap, ◌∙◌, arith}
use stellar_agent_spend_hub.Common.Text.{is_digest}
use stellar_agent_spend_hub.Common.Result.{ok, throw}
use stellar_agent_spend_hub.Pilot.Record.{PilotRecord, expired, public_pilot_request}
use stellar_agent_spend_hub.Pilot.Validation.{is_request_id, safe_digest_equal}
use stellar_agent_spend_hub.Pilot.Repository.{
  request_key, get_record, put_record, update, update_loop,
}
use stellar_agent_spend_hub.Common.Map.{get, set}
use stellar_agent_spend_hub.Pilot.Service.Claims.{
  IsSettlement, claim_exclusive, complete-IsSettlement,
}
use stellar_agent_spend_hub.Pilot.Service.{approve, claim, complete, require_request, pilot_tenant}
use stellar_agent_spend_hub.Pilot.Service.Approval.{
  IsApproval, approve-IsApproval, approve_once, late_approval_overwrites,
}
use stellar_agent_spend_hub.Pilot.Service.Samples.{
  crypto, settings, id, waiting, holding, at_time, agreed, leased, claimed, proof, done, fair,
  found_in,
}

approved_run :
    approve crypto settings (at_time 200000) id "token" (holding waiting)
    ≡ (ok (public_pilot_request agreed), holding agreed)
unfolding approve require_request is_request_id safe_digest_equal is_digest get_record put_record
    update update_loop request_key get set
approved_run = refl

approve-IsApproval_example :
    (seen : PilotRecord) × IsApproval crypto
      (at_time 200000)
      id
      "token"
      (holding waiting)
      (holding agreed)
      seen
approve-IsApproval_example =
    approve-IsApproval crypto settings (at_time 200000) id "token" (holding waiting)
      (holding agreed) (public_pilot_request agreed) (fair 200000) approved_run

owned :
    (r : PilotRecord)
    → get_record id pilot_tenant (holding waiting) ≡ some r
    → r.tenant_id ≡ pilot_tenant
owned r h =
    let same : waiting ≡ r = some_inj waiting r (sym (found_in waiting) ∙ h) in
    sym (ap (λ x. x.tenant_id) same)
  where
    some_inj : (a b : PilotRecord) → some a ≡ some b → a ≡ b
    some_inj a b e = cc

approve_once_example :
    approve crypto settings (at_time 300000) id "token" (holding agreed)
    ≡ (throw 409 "Pilot request is not awaiting approval", holding agreed)
approve_once_example =
    approve_once crypto settings (at_time 200000) (at_time 300000) id "token" "token"
      (holding waiting) (holding agreed) (public_pilot_request agreed) (fair 200000) owned
      approved_run

well_formed : is_request_id id ≡ true
unfolding is_request_id
well_formed = refl

-- the approval comes at 800000, and while it waits another call approves the request
late_approval_overwrites_example :
    approve crypto settings
      (record {
        now = 800000;
        between = λ s. holding agreed;
        others = λ n u. u;
        stamp = λ n. 800000;
      })
      id
      "token"
      (holding waiting)
    ≡ (
      throw 410 "Pilot approval expired",
      put_record id pilot_tenant
          (record agreed { version = 4; status = expired; updated_at = 800000 })
          (holding agreed),
    )
late_approval_overwrites_example =
    late_approval_overwrites crypto settings 800000 (λ s. holding agreed) (λ n. 800000) id "token"
      (holding waiting) waiting agreed well_formed (found_in waiting) refl refl (found_in agreed)

claimed_run :
    claim crypto settings (at_time 250000) "claim" id pilot_tenant (holding agreed)
    ≡ (ok claimed, holding leased)
unfolding claim get_record put_record update update_loop request_key get set
claimed_run = refl

claim_exclusive_example :
    claim crypto settings (at_time 300000) "other" id pilot_tenant (holding leased)
    ≡ (throw 409 "Pilot request cannot be claimed", holding leased)
claim_exclusive_example =
    claim_exclusive crypto settings (at_time 250000) 300000 (λ s. s) (λ n. 300000) "claim" "other"
      id pilot_tenant (holding agreed) (holding leased) claimed (fair 250000) claimed_run
      (omega arith)

settled_run :
    complete crypto settings
      (at_time 300000)
      (λ r. ok proof)
      "claim"
      id
      pilot_tenant
      (holding leased)
    ≡ (ok (public_pilot_request done), holding done)
unfolding complete require_request is_request_id safe_digest_equal is_digest get_record put_record
    update update_loop request_key get set
settled_run = refl

complete-IsSettlement_example :
    IsSettlement crypto
      (at_time 300000)
      (λ r. ok proof)
      "claim"
      id
      pilot_tenant
      (holding leased)
      (holding done)
complete-IsSettlement_example =
    complete-IsSettlement crypto settings (at_time 300000) (λ r. ok proof) "claim" id pilot_tenant
      (holding leased) (holding done) (public_pilot_request done) (fair 300000) settled_run
