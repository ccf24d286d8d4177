-- ===== src/SpendHub/Service/Intents.antt =====
-- The calls that create, prove and dismiss an intent (src/spendHubService.mjs).
use Prim.Native.String.{◌++◌ as text_append}
use stellar_agent_spend_hub.Common.{String, ◌||◌, not, Option, none, some, ◌∷◌}
use stellar_agent_spend_hub.Common.Text.{str_eq}
use stellar_agent_spend_hub.Common.Result.{Result, ok, throw}
use stellar_agent_spend_hub.Common.Action.{Action, ◌>>=◌, ◌>>◌, pure, raise_if, lift, modify}
use stellar_agent_spend_hub.Common.Map.{Map, get, set}
use stellar_agent_spend_hub.Domain.Amounts.{Amount}
use stellar_agent_spend_hub.SpendHub.Intent.{SpendIntent, Provider, build_spend_intent}
use stellar_agent_spend_hub.SpendHub.Judges.{
  Proof, VaultRecord, get_provider, create_proof, store_secret,
}
use stellar_agent_spend_hub.SpendHub.Rails.{Moment}
use stellar_agent_spend_hub.SpendHub.Hub.{Hub, Setup, World, find_intent, change_intent}

abbrev pub provider_or_404 : Option Provider → Result Provider
provider_or_404 none = throw 404 "Provider not found"
provider_or_404 (some provider) = ok provider

abbrev pub key_of : Option String → Map String → Option String
key_of none keys = none
key_of (some key) keys = get key keys

abbrev pub with_key : Option String → String → Map String → Map String
with_key none id keys = keys
with_key (some key) id keys = set key id keys

pub record Draft : Type 0 where
  pub provider_id : String
  pub amount : Option Amount
  pub intent_type : Option String
  pub asset : String
  pub idempotency_key : Option String

abbrev pub add_intent : Draft → SpendIntent → Hub → Hub
add_intent draft i s = record s {
  intents = i ∷ s.intents;
  idempotency_keys = with_key draft.idempotency_key i.intent.id s.idempotency_keys;
}

abbrev pub new_intent : Setup → Moment → Draft → Action Hub SpendIntent
new_intent setup m draft = do
  provider ← lift (provider_or_404 (get_provider draft.provider_id setup.providers))
  i ← lift (
      build_spend_intent setup.guards.intent provider draft.amount draft.intent_type draft.asset
        draft.idempotency_key m.now m.stamp)
  modify (add_intent draft i)
  pure i

abbrev pub intent_for : Setup → Moment → Draft → Option String → Action Hub SpendIntent
intent_for setup m draft none = new_intent setup m draft
intent_for setup m draft (some id) = find_intent id

-- `createIntent`
unfoldable pub create_intent : Setup → Moment → Draft → Action Hub SpendIntent
create_intent setup m draft s =
    intent_for setup m draft (key_of draft.idempotency_key s.idempotency_keys) s

abbrev pub prove : Proof → SpendIntent → SpendIntent
prove proof i = record i {
  secret_ref_commitment = some proof.commitment;
  proof_status = "valid";
  status = "proof_verified";
}

abbrev pub keep_proof : String → String → Proof → VaultRecord → Hub → Hub
keep_proof id secret_ref proof sealed s = record s {
  proofs = set id proof s.proofs;
  vault_records = set secret_ref sealed s.vault_records;
}

-- `generateProof`
unfoldable pub generate_proof : Setup → World → String → String → String → Action Hub Proof
generate_proof setup w id secret_ref salt = do
  i ← find_intent id
  raise_if (not i.intent.proof_required) 400 "Intent does not require proof"
  modify (w.during_adapter 0)
  let sealed =
      store_secret setup.runtime secret_ref
        (text_append "private-ref:"
          (text_append i.intent.provider_id (text_append ":" i.intent.id)))
        i.intent.intent_type i.intent.provider_id w.moment.now
  let proof = create_proof setup.runtime i.intent.provider_id secret_ref salt i.intent.intent_type
  modify (w.during_adapter 1)
  modify (change_intent id (prove proof))
  modify (keep_proof id secret_ref proof sealed)
  pure proof

abbrev pub dismiss : String → Moment → SpendIntent → SpendIntent
dismiss dismissed_by m i = record i {
  status = "dismissed";
  dismissed_by = some dismissed_by;
  dismissed_at = some m.now;
}

-- `dismissIntent`
unfoldable pub dismiss_intent : Moment → String → String → Action Hub SpendIntent
dismiss_intent m id dismissed_by = do
  i ← find_intent id
  raise_if (str_eq i.status "settled" || str_eq i.status "approved_preview") 409
      "A settled intent cannot be dismissed"
  modify (change_intent id (dismiss dismissed_by m))
  pure (dismiss dismissed_by m i)
