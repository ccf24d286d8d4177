-- ===== src/SpendHub/Service/Replay.antt =====
-- What a second approval of an intent does (src/spendHubService.mjs, `approveIntent` and
-- `approveLinkSpendRequest`).
use stellar_agent_spend_hub.Common.{
  ◌≤◌, String, true, false, Option, none, some, ◌∷◌, find, ◌≡◌, refl, ap, ◌∙◌, arith,
}
use stellar_agent_spend_hub.Common.Result.{ok}
use stellar_agent_spend_hub.Common.After.{After-ok}
use stellar_agent_spend_hub.Domain.{Receipt}
use stellar_agent_spend_hub.SpendHub.Intent.{SpendIntent}
use stellar_agent_spend_hub.SpendHub.Hub.{Hub, Setup, World, has_id, find_intent}
use stellar_agent_spend_hub.SpendHub.Service.{
  Approval, is_live, approve_intent, approve_link_spend_request,
}
use stellar_agent_spend_hub.SpendHub.Service.Payments.{IsCalm, IsKeeper}
use stellar_agent_spend_hub.SpendHub.Service.Charging.{
  IsHonest, Approved, replayed, charged, approve-Approved, link-After,
}
use stellar_agent_spend_hub.SpendHub.Service.Once.{live_count, live_count-cons, IsCharged-intent_id}

-- an intent that is there and has a live receipt is not evaluated again
replay_found :
    (setup : Setup) (w : World) (id approved_by : String) (i : SpendIntent) (r : Receipt) (s : Hub)
    → find (has_id id) s.intents ≡ some i
    → find (is_live id) s.receipts ≡ some r
    → approve_intent setup w id approved_by s ≡ (ok (record { receipt = r; replay = true }), s)
unfolding approve_intent find_intent
replay_found setup w id approved_by i r s h k = rw (h, k)

Approved-found :
    {setup : Setup} {w : World} {id : String} {s t : Hub} {a : Approval}
    → Approved setup w id s a t
    → is_live id a.receipt ≡ true
    → find (is_live id) t.receipts ≡ some a.receipt
Approved-found (replayed r h) live = h
Approved-found (charged r t free charge put) live = rw (put, live)

-- an approval of an intent without a live receipt
charged_when :
    (setup : Setup) (w : World) (id : String) (s t : Hub) (a : Approval)
    → find (is_live id) s.receipts ≡ none
    → Approved setup w id s a t
    → (a.replay ≡ false)
      × (a.receipt.intent_id ≡ id)
      × (t.receipts ≡ a.receipt ∷ (w.during_evaluation s).receipts)
charged_when setup w id s _ _ free (replayed r h) = absurd (clash r free h)
  where
    clash : {o : Option Receipt} (r : Receipt) → o ≡ none → o ≡ some r → ⊥
    clash r e k = cc
charged_when setup w id s _ _ free (charged r t h charge put) =
    (refl, IsCharged-intent_id setup w id s r charge, put)

module _ (setup : Setup) (w : World) (id by : String) (s : Hub) (a : Approval) (t : Hub)
    (calm : IsCalm w) (honest : IsHonest setup)
    (done : approve_intent setup w id by s ≡ (ok a, t)) where
  approved : Approved setup w id s a t
  approved =
      After-ok (approve_intent setup w id by s) a t (approve-Approved setup w id calm s by honest)
        done

  -- In a setup whose adapters settle only what was allowed and keep the intent's number, its amount and
  -- the time on their receipts: an approval during which the receipts and the payment of each intent
  -- stayed as they were while it waited for an adapter, and which returned a receipt of the intent that is
  -- not blocked, left a store on which the next approval of the intent, as long as the intent is there,
  -- returns that receipt marked as a replay and changes nothing.
  pub approve_again :
      (w' : World) (by' : String) (i : SpendIntent)
      → find (has_id id) t.intents ≡ some i
      → is_live id a.receipt ≡ true
      → approve_intent setup w' id by' t ≡ (ok (record { receipt = a.receipt; replay = true }), t)
  approve_again w' by' i there live =
      replay_found setup w' id by' i a.receipt t there (Approved-found approved live)

  -- Two approvals of one intent without a receipt that is not blocked, where the second runs as a whole
  -- while the first waits for its evaluation, and both return: neither is a replay, and the intent has
  -- two new receipts, one for each, before those that the second one found. This
  -- is in a setup whose adapters settle only what was allowed and keep the intent's number, its amount
  -- and the time on their receipts, and where the receipts and the payment of each intent stay as they
  -- are while either waits for an adapter.
  pub concurrent_approvals :
      (w' : World) (by' : String) (b : Approval)
      → IsCalm w'
      → find (is_live id) s.receipts ≡ none
      → approve_intent setup w' id by' s ≡ (ok b, w.during_evaluation s)
      → (a.replay ≡ false)
        × (b.replay ≡ false)
        × (a.receipt.intent_id ≡ id)
        × (b.receipt.intent_id ≡ id)
        × (t.receipts ≡ a.receipt ∷ b.receipt ∷ (w'.during_evaluation s).receipts)
  concurrent_approvals w' by' b calm' free inner =
      let (fresh, mine, put) = charged_when setup w id s t a free approved in
      let (fresh', mine', put') =
        charged_when setup w' id s (w.during_evaluation s) b free
          (After-ok _ b _ (approve-Approved setup w' id calm' s by' honest) inner) in
      (fresh, fresh', mine, mine', put ∙ ap (λ rs. a.receipt ∷ rs) put')

-- Approving the link request of an intent that has, after the wait for the evaluation, a receipt that is
-- not blocked, when the call returns a receipt that is not blocked, leaves the intent with at least two:
-- that call does not look at the receipts. This is where no intent goes away while the call waits for
-- its evaluation, and the receipts and the payment of each intent stay as they are while it waits for
-- an adapter.
pub link_approved_again :
    (setup : Setup) (w : World) (id by : String) (s : Hub) (r : Receipt) (t : Hub)
    → IsCalm w
    → IsKeeper w
    → 1 ≤ live_count id (w.during_evaluation s).receipts
    → approve_link_spend_request setup w id by none s ≡ (ok r, t)
    → is_live id r ≡ true
    → 2 ≤ live_count id t.receipts
link_approved_again setup w id by s r t calm keeper before done live =
    let (charge, put) =
      After-ok (approve_link_spend_request setup w id by none s) r t
        (link-After setup w id calm s by keeper) done in
    let first = live_count-cons id r (w.during_evaluation s).receipts live in rw put (omega arith)
