-- ===== src/SpendHub/Service/Samples.antt =====
-- A hub with one provider and one intent, for runs of the service.
use stellar_agent_spend_hub.Common.{
  ◌*◌, subst, String, none, some, true, false, [], ◌∷◌, ◌≡◌, refl, inl, inr, Bool-cases,
}
use stellar_agent_spend_hub.Common.Text.{codes}
use stellar_agent_spend_hub.Common.Result.{Result, ok, err, throw}
use stellar_agent_spend_hub.Domain.Amounts.{whole, unit_scale}
use stellar_agent_spend_hub.Domain.Budget.{Keeps, create_receipt-Keeps}
use stellar_agent_spend_hub.Domain.{Policy, Receipt, Scan}
use stellar_agent_spend_hub.SpendHub.Intent.{SpendIntent, Provider, draft_intent, is_link_intent}
use stellar_agent_spend_hub.SpendHub.Rails.{Moment, simulated, settle_payment, simulated_result}
use stellar_agent_spend_hub.SpendHub.Hub.{
  Hub, Setup, World, Guards, simulated_adapter, active_payment_adapter,
}
use stellar_agent_spend_hub.SpendHub.Service.{Draft}
use stellar_agent_spend_hub.SpendHub.Service.Payments.{IsCalm, IsKeeper, IsReceiptMaker}
use stellar_agent_spend_hub.SpendHub.Service.Charging.{IsHonest}

abbrev pub nothing_found : Scan
nothing_found = record { allowed = true; reasons = [] }

abbrev pub guards : Guards
guards = record {
  intent = λ i. nothing_found;
  payload = λ i. nothing_found;
  receipt = λ r. nothing_found;
  request = λ r. nothing_found;
  challenge = λ c. nothing_found;
  resource = λ r. nothing_found;
}

abbrev pub policy : Policy
policy = record {
  allowlisted_providers = "research" ∷ "shop" ∷ [];
  per_payment_limit = 100 * unit_scale;
  daily_limit = 800 * unit_scale;
  monthly_limit = 3000 * unit_scale;
  autopilot_enabled = false;
  require_legal_context = false;
  min_legal_trust_level = 1;
  allowed_assets = "USDC" ∷ [];
  allowed_defi_protocols = [];
  max_portfolio_action_amount = 50 * unit_scale;
  max_slippage_bps = 80;
}

abbrev pub provider : Provider
provider = record {
  provider_id = "research";
  name = "Research";
  category = "data";
  description = "Reports";
  tags = [];
  endpoint = "https://research.example/api";
  legal_context_url = none;
  privacy_requirement = none;
  payment_method = "stellar-smart-wallet";
}

-- a merchant that is paid by a link request
abbrev pub shop : Provider
shop = record provider {
  provider_id = "shop";
  name = "Shop";
  payment_method = "link-agent-wallet-simulated";
}

abbrev pub setup : Setup
setup = record {
  policy = policy;
  providers = provider ∷ shop ∷ [];
  guards = guards;
  runtime = record { sha256 = λ s. s; lower = λ s. s };
  sources = record {
    registry = [];
    context_at = λ url. throw 502 "offline";
    terms_at = λ url. throw 502 "offline";
  };
  mode = simulated;
  soroban = simulated_adapter guards;
  direct = simulated_adapter guards;
}

abbrev pub moment_at : String → Moment
moment_at mark = record {
  now = codes "2026-07-01T12:00:00.000Z";
  later = codes "2026-07-01T12:00:01.000Z";
  stamp = mark;
  safe_id = mark;
  receipt_id = mark;
}

-- nothing happens while a call waits
abbrev pub alone : String → World
alone mark = record {
  moment = moment_at mark;
  during_evaluation = λ s. s;
  during_adapter = λ n s. s;
}

pub alone-IsCalm : (mark : String) → IsCalm (alone mark)
alone-IsCalm mark = record { receipts = λ n s. refl; intents = λ n s id i h. (i, h, refl) }

pub alone-IsKeeper : (mark : String) → IsKeeper (alone mark)
alone-IsKeeper mark s id i h = (i, h)

abbrev pub draft : Draft
draft = record {
  provider_id = "research";
  amount = some (whole 30);
  intent_type = none;
  asset = "USDC";
  idempotency_key = some "key-1";
}

abbrev pub waiting : SpendIntent
waiting =
    draft_intent provider (some (whole 30)) none "USDC" (some "key-1") (moment_at "m1").now "m1"

abbrev pub shopping : SpendIntent
shopping = draft_intent shop (some (whole 40)) none "USDC" none (moment_at "m1").now "m1"

abbrev pub empty : Hub
empty = record {
  intents = [];
  receipts = [];
  proofs = [];
  vault_records = [];
  spend_requests = [];
  machine_challenges = [];
  idempotency_keys = [];
  soroban_executions = [];
}

abbrev pub id : String
id = "intent-research-m1"

abbrev pub shop_id : String
shop_id = "intent-shop-m1"

abbrev pub hub : Hub
hub = record empty { intents = waiting ∷ shopping ∷ [] }

abbrev pub value_or {ℓ} : {A : Type ℓ} → A → Result A → A
value_or a (ok b) = b
value_or a (err e) = a

simulated-IsReceiptMaker : IsReceiptMaker (simulated_adapter guards)
unfolding simulated_adapter settle_payment
simulated-IsReceiptMaker m i e by r h = subst (Keeps e.allowed m.later i.intent) (made h) (
    create_receipt-Keeps guards.receipt m.receipt_id m.later i.intent e
      (some (simulated_result i e m.stamp)) by)
  where
    made : {a b : Receipt} → ok a ≡ ok b → a ≡ b
    made k = cc

pub setup-IsHonest : IsHonest setup
unfolding active_payment_adapter
setup-IsHonest i = elim (Bool-cases (is_link_intent i)) [
  | inl e ↦ rw (e) simulated-IsReceiptMaker
  | inr e ↦ rw (e) simulated-IsReceiptMaker
]
