-- ===== src/SpendHub/Hub.antt =====
-- The state of the spend hub, the intents in it, and the evaluation of an intent
-- (src/spendHubService.mjs, src/spendHubState.mjs).
use Prim.Native.String.{◌++◌ as text_append}
use stellar_agent_spend_hub.Common.{
  ℕ, String, Bool, false, Option, none, some, List, [], ◌∷◌, map, find, if◌then◌else◌,
}
use stellar_agent_spend_hub.Common.Text.{str_eq}
use stellar_agent_spend_hub.Common.Result.{Result, ok, err, throw}
use stellar_agent_spend_hub.Common.Action.{Action}
use stellar_agent_spend_hub.Common.Map.{Map, get}
use stellar_agent_spend_hub.Domain.{
  Intent, Policy, Options, Decision, Receipt, Evaluation, Scan, evaluate_payment_intent,
}
use stellar_agent_spend_hub.SpendHub.Intent.{SpendIntent, Provider, is_link_intent, or_else}
use stellar_agent_spend_hub.SpendHub.Judges.{
  Runtime, Proof, VaultRecord, LegalSources, evaluate_legal, evaluate_privacy, evaluate_crypto,
  evaluate_defi, get_provider,
}
use stellar_agent_spend_hub.SpendHub.Rails.{
  Moment, Mode, simulated, stellar_testnet_direct, soroban_dry_run, soroban_testnet_submit,
  PreparedPayment, SpendRequest, prepare_payment, settle_payment,
}
use stellar_agent_spend_hub.SpendHub.Machine.{Challenge, Resource}

-- `this.state`; the report of a Soroban execution is kept as its JSON text
pub record Hub : Type 0 where
  pub intents : List SpendIntent
  pub receipts : List Receipt
  pub proofs : Map Proof
  pub vault_records : Map VaultRecord
  pub spend_requests : Map SpendRequest
  pub machine_challenges : Map Challenge
  pub idempotency_keys : Map String
  pub soroban_executions : Map String

abbrev with_status : SpendIntent → SpendIntent
with_status i = if str_eq i.status "" then record i { status = "created" } else i

-- `normalizeSpendHubState`, of the parts that are there; an absent status is the empty text
unfoldable pub normalize_spend_hub_state :
    Option (List SpendIntent)
    → Option (List Receipt)
    → Option (Map Proof)
    → Option (Map VaultRecord)
    → Option (Map SpendRequest)
    → Option (Map Challenge)
    → Option (Map String)
    → Option (Map String)
    → Hub
normalize_spend_hub_state intents receipts proofs vault requests challenges keys executions =
    record {
      intents = map with_status (or_else intents []);
      receipts = or_else receipts [];
      proofs = or_else proofs [];
      vault_records = or_else vault [];
      spend_requests = or_else requests [];
      machine_challenges = or_else challenges [];
      idempotency_keys = or_else keys [];
      soroban_executions = or_else executions [];
    }

-- The scans for sensitive data of what the code passes to the guard.
pub record Guards : Type 0 where
  pub intent : SpendIntent → Scan
  pub payload : Intent → Scan
  pub receipt : Receipt → Scan
  pub request : SpendRequest → Scan
  pub challenge : Challenge → Scan
  pub resource : Resource → Scan

-- What an adapter that pays offers to the service.
pub record PaymentAdapter : Type 0 where
  pub prepare : SpendIntent → Evaluation → Result PreparedPayment
  pub settle : Moment → SpendIntent → Evaluation → String → Result Receipt

pub record Setup : Type 0 where
  pub policy : Policy
  pub providers : List Provider
  pub guards : Guards
  pub runtime : Runtime
  pub sources : LegalSources
  pub mode : Mode
  pub soroban : PaymentAdapter
  pub direct : PaymentAdapter

-- The surroundings of one call: its moment, and what other calls do to the state while it waits for
-- the legal context, and for the adapters that it calls, in their order.
pub record World : Type 0 where
  pub moment : Moment
  pub during_evaluation : Hub → Hub
  pub during_adapter : ℕ → Hub → Hub

abbrev pub has_id : String → SpendIntent → Bool
has_id id i = str_eq i.intent.id id

abbrev pub found_or_404 : Option SpendIntent → Result SpendIntent
found_or_404 none = throw 404 "Intent not found"
found_or_404 (some i) = ok i

-- `findIntent`
unfoldable pub find_intent : String → Action Hub SpendIntent
find_intent id s = (found_or_404 (find (has_id id) s.intents), s)

-- an assignment to fields of the intent that `findIntent` finds
unfoldable pub update_first :
    String → (SpendIntent → SpendIntent) → List SpendIntent → List SpendIntent
update_first id f [] = []
update_first id f (i ∷ is) =
    let rest = update_first id f is in if has_id id i then f i ∷ is else i ∷ rest

abbrev pub change_intent : String → (SpendIntent → SpendIntent) → Hub → Hub
change_intent id f s = record s { intents = update_first id f s.intents }

-- the intent that a call holds, as it is now
abbrev pub current : SpendIntent → Hub → SpendIntent
current i s = or_else (find (has_id i.intent.id) s.intents) i

abbrev decision_or_error : Result Decision → Decision
decision_or_error (ok d) = d
decision_or_error (err e) = record {
  allowed = false;
  reasons = text_append "Legal context error: " e.message ∷ [];
  evidence = [];
  snapshot = none;
  terms_hash = none;
  proof_hash = none;
  commitment = none;
  privacy_level = none;
}

-- `safeLegalDecision`
unfoldable pub safe_legal_decision : Setup → SpendIntent → Decision
safe_legal_decision setup i =
    decision_or_error (evaluate_legal setup.runtime setup.sources i setup.policy)

abbrev name_of : Option Provider → Option String
name_of none = none
name_of (some provider) = some provider.name

-- what the adapters decide of an intent
abbrev pub options_of : Setup → Decision → SpendIntent → Hub → Options
options_of setup legal i s = record {
  legal_decision = some legal;
  privacy_decision = some (evaluate_privacy i (get i.intent.id s.proofs));
  crypto_decision = some (evaluate_crypto i setup.policy);
  defi_decision = some (evaluate_defi i setup.policy);
  directory_name = name_of (get_provider i.intent.provider_id setup.providers);
}

-- The evaluation once the legal decision is there.
unfoldable pub evaluate_now : Setup → Moment → Decision → SpendIntent → Hub → Evaluation
evaluate_now setup m legal i s =
    evaluate_payment_intent setup.guards.payload i.intent setup.policy s.receipts m.now
      (options_of setup legal i s)

-- `evaluateIntent`: the legal decision is awaited, the rest reads the state and the intent after it
unfoldable pub evaluate_intent : Setup → World → SpendIntent → Action Hub Evaluation
evaluate_intent setup w i s =
    let legal = safe_legal_decision setup i in
    let t = w.during_evaluation s in (ok (evaluate_now setup w.moment legal (current i t) t), t)

-- the simulated wallet as an adapter
unfoldable pub simulated_adapter : Guards → PaymentAdapter
simulated_adapter guards = record {
  prepare = λ i evaluation. ok (prepare_payment i evaluation);
  settle =
      λ m i evaluation approved_by. ok (settle_payment guards.receipt m i evaluation approved_by);
}

abbrev adapter_of : Setup → Mode → PaymentAdapter
adapter_of setup simulated = simulated_adapter setup.guards
adapter_of setup stellar_testnet_direct = setup.direct
adapter_of setup soroban_dry_run = setup.soroban
adapter_of setup soroban_testnet_submit = setup.soroban

-- `activePaymentAdapter`
unfoldable pub active_payment_adapter : Setup → SpendIntent → PaymentAdapter
active_payment_adapter setup i =
    if is_link_intent i then simulated_adapter setup.guards else adapter_of setup setup.mode
