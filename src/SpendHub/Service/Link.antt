-- ===== src/SpendHub/Service/Link.antt =====
-- The calls on the link request of an intent, and the record of a receipt (src/spendHubService.mjs).
use Prim.Native.String.{◌++◌ as text_append}
use stellar_agent_spend_hub.Common.{String, not, Option, none, some, List, [], ◌∷◌, if◌then◌else◌}
use stellar_agent_spend_hub.Common.Result.{Result, ok, throw}
use stellar_agent_spend_hub.Common.Action.{Action, ◌>>=◌, ◌>>◌, pure, raise_if, lift, gets, modify}
use stellar_agent_spend_hub.Common.Map.{get, set}
use stellar_agent_spend_hub.Domain.{Receipt, Evaluation, is_settled}
use stellar_agent_spend_hub.SpendHub.Intent.{SpendIntent, Provider}
use stellar_agent_spend_hub.SpendHub.Judges.{get_provider}
use stellar_agent_spend_hub.SpendHub.Rails.{
  Moment, SpendRequest, create_spend_request, approve_spend_request, deny_spend_request,
  settle_link_payment,
}
use stellar_agent_spend_hub.SpendHub.Hub.{
  Hub, Setup, World, find_intent, change_intent, current, evaluate_intent,
}

abbrev pub text_of_reasons : List String → String
text_of_reasons [] = ""
text_of_reasons (r ∷ []) = r
text_of_reasons (r ∷ rs) = text_append r (text_append "; " (text_of_reasons rs))

abbrev pub endpoint_of : Option Provider → Option String
endpoint_of none = none
endpoint_of (some provider) = some provider.endpoint

abbrev pub keep_request : String → SpendRequest → Hub → Hub
keep_request id request s = record s { spend_requests = set id request s.spend_requests }

abbrev pub decision_for : Setup → World → SpendIntent → Option Evaluation → Action Hub Evaluation
decision_for setup w i none = evaluate_intent setup w i
decision_for setup w i (some evaluation) = pure evaluation

abbrev pub request_of : Setup → Moment → SpendIntent → Evaluation → Result SpendRequest
request_of setup m i decision =
    create_spend_request setup.guards.request m i
      (endpoint_of (get_provider i.intent.provider_id setup.providers)) decision

-- `createLinkSpendRequest`
unfoldable pub create_link_spend_request :
    Setup → World → String → Option Evaluation → Action Hub SpendRequest
create_link_spend_request setup w id evaluation = do
  found ← find_intent id
  decision ← decision_for setup w found evaluation
  i ← gets (current found)
  request ← lift (request_of setup w.moment i decision)
  modify (w.during_adapter 0)
  modify (keep_request id request)
  pure request

abbrev pub note_paid : Receipt → SpendIntent → SpendIntent
note_paid r i = record i {
  status = if is_settled r.status then "settled" else "approved_preview";
  settled_receipt_id = some r.id;
}

abbrev pub add_receipt : Receipt → Hub → Hub
add_receipt r s = record s { receipts = r ∷ s.receipts }

-- the end of a payment: the receipt is scanned, noted on the intent, and put to the receipts
unfoldable pub record_receipt : Setup → String → Receipt → Action Hub Receipt
record_receipt setup id r = do
  raise_if (not (setup.guards.receipt r).allowed) 500
      (text_of_reasons (setup.guards.receipt r).reasons)
  modify (change_intent id (note_paid r))
  modify (add_receipt r)
  pure r

abbrev pub request_for :
    Setup → World → String → Evaluation → Option SpendRequest → Action Hub SpendRequest
request_for setup w id decision none = create_link_spend_request setup w id (some decision)
request_for setup w id decision (some request) = pure request

abbrev pub settle_by_link :
    Setup → World → String → SpendIntent → Evaluation → String → SpendRequest → Action Hub Receipt
settle_by_link setup w id found decision approved_by approved = do
  i ← gets (current found)
  r ← lift (
      settle_link_payment setup.guards.request setup.guards.receipt w.moment i decision approved
        approved_by)
  modify (w.during_adapter 2)
  record_receipt setup id r

-- the payment of a link request once it is decided
abbrev pub pay_by_link :
    Setup → World → String → SpendIntent → Evaluation → String → Action Hub Receipt
pay_by_link setup w id found decision approved_by = do
  raise_if (not decision.allowed) 409 (text_of_reasons decision.reasons)
  stored ← gets (λ s. get id s.spend_requests)
  request ← request_for setup w id decision stored
  approved ← lift (approve_spend_request setup.guards.request w.moment request approved_by)
  modify (w.during_adapter 1)
  modify (keep_request id approved)
  settle_by_link setup w id found decision approved_by approved

-- `approveLinkSpendRequest`
unfoldable pub approve_link_spend_request :
    Setup → World → String → String → Option Evaluation → Action Hub Receipt
approve_link_spend_request setup w id approved_by evaluation = do
  found ← find_intent id
  decision ← decision_for setup w found evaluation
  pay_by_link setup w id found decision approved_by

abbrev pub request_or_404 : Option SpendRequest → Result SpendRequest
request_or_404 none = throw 404 "Link spend request not found"
request_or_404 (some request) = ok request

abbrev pub deny : SpendIntent → SpendIntent
deny i = record i { status = "denied" }

-- `denyLinkSpendRequest`
unfoldable pub deny_link_spend_request : Setup → World → String → String → Action Hub SpendRequest
deny_link_spend_request setup w id denied_by = do
  stored ← gets (λ s. get id s.spend_requests)
  request ← lift (request_or_404 stored)
  denied ← lift (deny_spend_request setup.guards.request w.moment request denied_by)
  modify (w.during_adapter 0)
  modify (keep_request id denied)
  i ← find_intent id
  modify (change_intent id deny)
  pure denied
