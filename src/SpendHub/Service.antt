-- ===== src/SpendHub/Service.antt =====
-- The calls of the spend hub that change its state (src/spendHubService.mjs).
pub mod Intents
pub mod Link
pub mod Purchases
pub mod Payments
pub mod Charging
pub mod Frame
pub mod Runs
pub mod Once
pub mod Replay
pub mod Idempotency
pub mod Delivery
mod Samples
mod Tests
use Prim.Native.String.{◌++◌ as text_append}
use stellar_agent_spend_hub.Common.{
  ℕ, String, Bool, true, false, ◌&&◌, ◌||◌, not, Option, none, some, List, [], ◌∷◌, find,
  if◌then◌else◌,
}
use stellar_agent_spend_hub.Common.Text.{Codes, str_eq}
use stellar_agent_spend_hub.Common.Result.{Result, ok, err, throw}
use stellar_agent_spend_hub.Common.Action.{
  Action, ◌>>=◌, ◌>>◌, pure, raise, raise_if, lift, gets, modify,
}
use stellar_agent_spend_hub.Common.Map.{Map, get, set}
use stellar_agent_spend_hub.Domain.{
  Receipt, ReceiptStatus, blocked, settled, Evaluation, is_settled,
}
use stellar_agent_spend_hub.SpendHub.Intent.{
  SpendIntent, Provider, build_spend_intent, is_link_intent,
}
use stellar_agent_spend_hub.SpendHub.Judges.{
  Proof, VaultRecord, get_provider, create_proof, store_secret,
}
use stellar_agent_spend_hub.SpendHub.Rails.{
  Moment, PreparedPayment, SpendRequest, create_spend_request, approve_spend_request,
  deny_spend_request, settle_link_payment,
}
use stellar_agent_spend_hub.SpendHub.Machine.{
  Challenge, Resource, Verification, accepted, rejected, create_challenge, verify_credential,
  deliver_resource,
}
use stellar_agent_spend_hub.SpendHub.Hub.{
  Hub, Setup, World, find_intent, change_intent, current, evaluate_intent, active_payment_adapter,
}
unfoldable pub use Intents.*
unfoldable pub use Link.*
unfoldable pub use Purchases.*

pub data Prepared : Type 0 where
  by_link : SpendRequest → Prepared
  by_wallet : PreparedPayment → Prepared

abbrev note_prepared : String → Moment → String → SpendIntent → SpendIntent
note_prepared status m memo i = record i {
  status = status;
  last_prepared_at = some m.now;
  last_prepared_memo = some memo;
}

abbrev pub prepare_link : Setup → World → String → Evaluation → Action Hub Prepared
prepare_link setup w id evaluation = do
  request ← create_link_spend_request setup w id (some evaluation)
  modify (
      change_intent id (
        note_prepared (if evaluation.allowed then "approval_required" else "blocked") w.moment
          request.id))
  pure (by_link request)

abbrev pub prepare_wallet : Setup → World → String → SpendIntent → Evaluation → Action Hub Prepared
prepare_wallet setup w id i evaluation = do
  prepared ← lift ((active_payment_adapter setup i).prepare i evaluation)
  modify (w.during_adapter 0)
  modify (
      change_intent id (
        note_prepared (if evaluation.allowed then "requires_confirmation" else "blocked") w.moment
          prepared.memo))
  pure (by_wallet prepared)

-- `prepareIntent`
unfoldable pub prepare_intent : Setup → World → String → Action Hub Prepared
prepare_intent setup w id = do
  found ← find_intent id
  evaluation ← evaluate_intent setup w found
  i ← gets (current found)
  if is_link_intent i
      then prepare_link setup w id evaluation
      else prepare_wallet setup w id i evaluation

abbrev pub is_live : String → Receipt → Bool
is_live id r = str_eq r.intent_id id && elim r.status [ blocked ↦ false | other ↦ true ]

abbrev pub pay_by_wallet :
    Setup → World → String → SpendIntent → Evaluation → String → Action Hub Receipt
pay_by_wallet setup w id i evaluation approved_by = do
  r ← lift ((active_payment_adapter setup i).settle w.moment i evaluation approved_by)
  modify (w.during_adapter 0)
  record_receipt setup id r

pub record Approval : Type 0 where
  pub receipt : Receipt
  pub replay : Bool

abbrev pub fresh : Action Hub Receipt → Action Hub Approval
fresh payment = do r ← payment; pure (record { receipt = r; replay = false })

abbrev pub pay_by :
    Setup → World → String → SpendIntent → Evaluation → String → Bool → Action Hub Approval
pay_by setup w id i evaluation approved_by true =
    fresh (approve_link_spend_request setup w id approved_by (some evaluation))
pay_by setup w id i evaluation approved_by false =
    fresh (pay_by_wallet setup w id i evaluation approved_by)

abbrev pub pay :
    Setup → World → String → String → SpendIntent → Option Receipt → Action Hub Approval
pay setup w id approved_by found (some r) = pure (record { receipt = r; replay = true })
pay setup w id approved_by found none = do
  evaluation ← evaluate_intent setup w found
  raise_if (not evaluation.allowed) 409 (text_of_reasons evaluation.reasons)
  i ← gets (current found)
  pay_by setup w id i evaluation approved_by (is_link_intent i)

-- `approveIntent`
unfoldable pub approve_intent : Setup → World → String → String → Action Hub Approval
approve_intent setup w id approved_by = do
  found ← find_intent id
  paid ← gets (λ s. find (is_live id) s.receipts)
  pay setup w id approved_by found paid

-- `getSorobanExecution`
unfoldable pub get_soroban_execution : String → Hub → Option String
get_soroban_execution key s = get key s.soroban_executions

-- `recordSorobanExecution`
unfoldable pub record_soroban_execution : String → String → Action Hub String
record_soroban_execution key report = do
  modify (λ s. record s { soroban_executions = set key report s.soroban_executions })
  pure report
