-- ===== src/SpendHub/Intent.antt =====
-- A spend intent and how it is built from a provider (src/spendHubIntentFactory.mjs). A text or an
-- amount that may be absent, empty or the number 0 is `none`; a text that reads as no number is an amount
-- that is not a number.
use Prim.Native.String.{◌++◌ as text_append}
use stellar_agent_spend_hub.Common.{
  ℕ, String, Bool, false, ◌||◌, Option, none, some, List, ◌++◌, map, filter, take, if◌then◌else◌,
  ◌-◌,
}
use stellar_agent_spend_hub.Common.Text.{Codes, codes, str_eq, is_digit, is_lower, is_upper}
use stellar_agent_spend_hub.Common.Result.{Result, ok, throw}
use stellar_agent_spend_hub.Domain.Amounts.{Amount, whole}
use stellar_agent_spend_hub.Domain.{Intent, low, medium, Scan}

pub record Provider : Type 0 where
  pub provider_id : String
  pub name : String
  pub category : String
  pub description : String
  pub tags : List String
  pub endpoint : String
  pub legal_context_url : Option String
  pub privacy_requirement : Option String
  pub payment_method : String

pub record CryptoAction : Type 0 where
  pub asset : String
  pub side : String
  pub slippage_bps : ℕ
  pub risk : String

pub record DefiAllocation : Type 0 where
  pub protocol : String
  pub strategy : String
  pub risk : String
  pub slippage_bps : ℕ

-- `intent` is the part that the policy decides on.
pub record SpendIntent : Type 0 where
  pub intent : Intent
  pub idempotency_key : Option String
  pub status : String
  pub due_date : Codes
  pub source_of_funds : String
  pub destination_address : Codes
  pub legal_context_url : Option String
  pub proof_status : String
  pub payment_method : String
  pub link_payment_mode : Option String
  pub endpoint : String
  pub directory : String
  pub crypto_action : Option CryptoAction
  pub defi_allocation : Option DefiAllocation
  pub secret_ref_commitment : Option String
  pub last_prepared_at : Option Codes
  pub last_prepared_memo : Option String
  pub settled_receipt_id : Option String
  pub dismissed_by : Option String
  pub dismissed_at : Option Codes

abbrev pub buy_crypto : String
buy_crypto = "buy_crypto"

abbrev pub defi_allocate : String
defi_allocate = "defi_allocate"

abbrev pub bill_pay : String
bill_pay = "bill_pay"

abbrev pub or_else {ℓ} : {A : Type ℓ} → Option A → A → A
or_else none a = a
or_else (some b) a = b

-- `isLinkProvider`
abbrev pub is_link_provider : Provider → Bool
is_link_provider provider = str_eq provider.payment_method "link-agent-wallet-simulated"

-- `isLinkIntent`
abbrev pub is_link_intent : SpendIntent → Bool
is_link_intent i =
    str_eq i.payment_method "link-agent-wallet-simulated"
    || str_eq i.source_of_funds "link-agent-wallet"

-- `suggestedAmount`
abbrev pub suggested_amount : String → Amount
suggested_amount category =
    if str_eq category buy_crypto
    then whole 25
    else if str_eq category defi_allocate
    then whole 35
    else if str_eq category bill_pay
    then whole 40
    else whole 12

-- `reasonForProvider`
abbrev pub reason_for_provider : Provider → String → String
reason_for_provider provider type =
    if is_link_provider provider
    then text_append "Iniciar compra con " (
        text_append provider.name "; el usuario aprueba antes de emitir una credencial tokenizada.")
    else if str_eq type buy_crypto
    then text_append "Comprar crypto permitido por la politica usando "
        (text_append provider.name ".")
    else if str_eq type defi_allocate
    then text_append "Preparar una asignacion DeFi en "
        (text_append provider.name "; bloqueada salvo riesgo bajo.")
    else if str_eq type bill_pay
    then text_append "Preparar un pago de cuenta privacy-first con prueba requerida para "
        (text_append provider.name ".")
    else text_append "Comprar el servicio de "
        (text_append provider.name " encontrado en el directorio y confirmar antes de pagar.")

abbrev is_alphanumeric : ℕ → Bool
is_alphanumeric c = is_digit c || is_lower c || is_upper c

abbrev to_upper : ℕ → ℕ
to_upper c = if is_lower c then c - 32 else c

abbrev destination : Provider → Codes
destination provider =
    if is_link_provider provider
    then codes "link://merchant/" ++ codes provider.provider_id
    else codes "GCL"
      ++ (map to_upper (filter is_alphanumeric (codes provider.provider_id)) ++ codes "SIMULATED")

abbrev is_zk : Option String → Bool
is_zk none = false
is_zk (some requirement) = str_eq requirement "zk-required"

-- The intent that `buildSpendIntent` builds; `now` is the ISO text of the time, `stamp` its
-- milliseconds in base 36.
unfoldable pub draft_intent :
    Provider → Option Amount → Option String → String → Option String → Codes → String → SpendIntent
draft_intent provider amount intent_type asset idempotency_key now stamp =
    let type = or_else intent_type provider.category in
    let link = is_link_provider provider in
    record {
      intent = record {
        id = text_append "intent-" (text_append provider.provider_id (text_append "-" stamp));
        provider_id = provider.provider_id;
        provider_name = provider.name;
        intent_type = type;
        category = provider.category;
        amount = or_else amount (suggested_amount provider.category);
        currency = if link then "USD" else "USDC";
        agent_reason = reason_for_provider provider type;
        autopilot_requested = false;
        risk_level = if str_eq type buy_crypto || str_eq type defi_allocate then medium else low;
        proof_required = is_zk provider.privacy_requirement;
        privacy_requirement = provider.privacy_requirement;
      };
      idempotency_key = idempotency_key;
      status = "created";
      due_date = take 10 now;
      source_of_funds = if link then "link-agent-wallet" else "stellar-smart-wallet-usdc";
      destination_address = destination provider;
      legal_context_url = provider.legal_context_url;
      proof_status = if is_zk provider.privacy_requirement then "missing" else "not-required";
      payment_method = provider.payment_method;
      link_payment_mode = if link then some "shared_payment_token" else none;
      endpoint = provider.endpoint;
      directory = if link then "link-agent-wallet-pattern" else "provider-directory";
      crypto_action =
          if str_eq type buy_crypto
          then some (record { asset = asset; side = "buy"; slippage_bps = 45; risk = "medium" })
          else none;
      defi_allocation =
          if str_eq type defi_allocate
          then some (record {
            protocol = "defindex";
            strategy = "stable-yield-demo";
            risk = "medium";
            slippage_bps = 60;
          })
          else none;
      secret_ref_commitment = none;
      last_prepared_at = none;
      last_prepared_memo = none;
      settled_receipt_id = none;
      dismissed_by = none;
      dismissed_at = none;
    }

-- `buildSpendIntent`
unfoldable pub build_spend_intent :
    (SpendIntent → Scan)
    → Provider
    → Option Amount
    → Option String
    → String
    → Option String
    → Codes
    → String
    → Result SpendIntent
build_spend_intent guard provider amount intent_type asset idempotency_key now stamp =
    let intent = draft_intent provider amount intent_type asset idempotency_key now stamp in
    if (guard intent).allowed then ok intent else throw 400 "Sensitive data in the intent"
