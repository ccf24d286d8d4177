-- ===== src/SpendHub/Service/Purchases.antt =====
-- A machine resource is asked for and delivered (src/spendHubService.mjs, `requestMachineResource`).
use Prim.Native.String.{◌++◌ as text_append}
use stellar_agent_spend_hub.Common.{String, Option, none, some}
use stellar_agent_spend_hub.Common.Text.{Codes}
use stellar_agent_spend_hub.Common.Action.{Action, ◌>>=◌, ◌>>◌, pure, lift, gets, modify}
use stellar_agent_spend_hub.Common.Map.{set}
use stellar_agent_spend_hub.Domain.Amounts.{Amount}
use stellar_agent_spend_hub.SpendHub.Intent.{Provider}
use stellar_agent_spend_hub.SpendHub.Judges.{get_provider}
use stellar_agent_spend_hub.SpendHub.Rails.{Moment}
use stellar_agent_spend_hub.SpendHub.Machine.{
  Challenge, Resource, Verification, accepted, rejected, create_challenge, verify_credential,
  deliver_resource,
}
use stellar_agent_spend_hub.SpendHub.Hub.{Hub, Setup}
use stellar_agent_spend_hub.SpendHub.Service.Intents.{Draft, create_intent, provider_or_404}

pub data Answer : Type 0 where
  payment_required : String → Challenge → Answer
  delivered : Resource → Answer

abbrev pub keep_challenge : Challenge → Hub → Hub
keep_challenge c s = record s { machine_challenges = set c.challenge_id c s.machine_challenges }

abbrev pub machine_draft : Provider → String → String → Option Amount → Draft
machine_draft provider provider_id resource_id amount = record {
  provider_id = provider_id;
  amount = amount;
  intent_type = some provider.category;
  asset = "USDC";
  idempotency_key =
      some (text_append "machine:" (text_append provider_id (text_append ":" resource_id)));
}

abbrev pub challenge_for :
    Setup → Moment → Provider → String → String → Option Amount → String → Action Hub Answer
challenge_for setup m provider provider_id resource_id amount message = do
  i ← create_intent setup m (machine_draft provider provider_id resource_id amount)
  challenge ← lift (create_challenge setup.guards.challenge m provider i resource_id)
  modify (keep_challenge challenge)
  pure (payment_required message challenge)

abbrev pub deliver_or_charge :
    Setup
    → Moment
    → Provider
    → String
    → String
    → Option Amount
    → Option Verification
    → Action Hub Answer
deliver_or_charge setup m provider provider_id resource_id amount none =
    challenge_for setup m provider provider_id resource_id amount "Payment required"
deliver_or_charge setup m provider provider_id resource_id amount (some (rejected reason)) =
    challenge_for setup m provider provider_id resource_id amount "Payment credential rejected"
deliver_or_charge setup m provider provider_id resource_id amount (some (accepted r)) = do
  resource ← lift (deliver_resource setup.guards.resource m provider resource_id r)
  pure (delivered resource)

abbrev pub verification_of : Setup → Option Codes → String → Hub → Option Verification
verification_of setup none provider_id s = none
verification_of setup (some credential) provider_id s =
    some (verify_credential setup.guards.receipt credential s.receipts provider_id)

-- `requestMachineResource`
unfoldable pub request_machine_resource :
    Setup → Moment → String → String → Option Codes → Option Amount → Action Hub Answer
request_machine_resource setup m provider_id resource_id credential amount = do
  provider ← lift (provider_or_404 (get_provider provider_id setup.providers))
  verification ← gets (verification_of setup credential provider_id)
  deliver_or_charge setup m provider provider_id resource_id amount verification
