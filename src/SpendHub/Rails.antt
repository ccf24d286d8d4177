-- ===== src/SpendHub/Rails.antt =====
-- The rails that pay: the simulated Stellar wallet (src/paymentRailAdapter.mjs), the choice of a rail
-- (src/paymentRuntime.mjs), and the Link wallet (src/linkAgentWalletAdapter.mjs).
use Prim.Native.String.{◌++◌ as text_append}
use stellar_agent_spend_hub.Common.{
  String, Bool, true, false, ◌&&◌, ◌||◌, Option, none, some, List, [], ◌∷◌, map, if◌then◌else◌,
}
use stellar_agent_spend_hub.Common.Text.{Codes, codes, str_eq}
use stellar_agent_spend_hub.Common.Result.{Result, ok, throw, ◌>>=◌, ◌>>◌}
use stellar_agent_spend_hub.Money.{trim}
use stellar_agent_spend_hub.ContractAccount.Repository.{codes_eq, to_lower}
use stellar_agent_spend_hub.Domain.Amounts.{Amount}
use stellar_agent_spend_hub.Domain.{Evaluation, Receipt, RailResult, Scan, create_receipt}
use stellar_agent_spend_hub.SpendHub.Intent.{SpendIntent}

-- What a call reads of its surroundings: two times, a time in base 36, and new ids.
pub record Moment : Type 0 where
  pub now : Codes
  pub later : Codes
  pub stamp : String
  pub safe_id : String
  pub receipt_id : String

pub data Mode : Type 0 where
  simulated stellar_testnet_direct soroban_dry_run soroban_testnet_submit : Mode

-- `resolvePaymentExecutionMode`, of the configured rail
unfoldable pub resolve_payment_execution_mode : Codes → Mode
resolve_payment_execution_mode rail =
    let configured = map to_lower (trim rail) in
    if codes_eq configured (codes "stellar-testnet-direct")
    then stellar_testnet_direct
    else if codes_eq configured (codes "soroban-testnet-submit")
    then soroban_testnet_submit
    else if codes_eq configured (codes "soroban") || codes_eq configured (codes "soroban-dry-run")
    then soroban_dry_run
    else simulated

pub record PreparedPayment : Type 0 where
  pub rail : String
  pub network : String
  pub asset : String
  pub can_submit : Bool
  pub auth_model : String
  pub memo : String
  pub amount : Amount
  pub destination : Codes

-- `StellarTestnetAdapter.preparePayment`
unfoldable pub prepare_payment : SpendIntent → Evaluation → PreparedPayment
prepare_payment i evaluation = record {
  rail = "Stellar Smart Wallet";
  network = "stellar:testnet";
  asset = "USDC";
  can_submit = evaluation.allowed && evaluation.requires_confirmation;
  auth_model = "passkey + session key + policy signer";
  memo = text_append "spend:" (
      text_append i.intent.intent_type
        (text_append ":" (text_append i.intent.provider_id (text_append ":" i.intent.id))));
  amount = i.intent.amount;
  destination = i.destination_address;
}

-- the rail's answer that `StellarTestnetAdapter.settlePayment` makes up
unfoldable pub simulated_result : SpendIntent → Evaluation → String → RailResult
simulated_result i evaluation stamp = record {
  execution_status = none;
  transaction_hash =
      if evaluation.allowed
      then some (text_append "stellar_" (text_append i.intent.id (text_append "_" stamp)))
      else none;
  rail = some "Stellar Smart Wallet";
  network = some "stellar:testnet";
  asset = some "USDC";
  finality = some (if evaluation.allowed then "simulated" else "blocked-before-submit");
}

-- `StellarTestnetAdapter.settlePayment`
unfoldable pub settle_payment :
    (Receipt → Scan) → Moment → SpendIntent → Evaluation → String → Receipt
settle_payment guard m i evaluation approved_by =
    create_receipt guard m.receipt_id m.later i.intent evaluation
      (some (simulated_result i evaluation m.stamp)) approved_by

pub record LineItem : Type 0 where
  pub label : String
  pub amount : Amount
  pub currency : String

pub record Credential : Type 0 where
  pub kind : String
  pub id : String
  pub pii_exposed : Bool
  pub reusable : Bool

pub record SpendRequest : Type 0 where
  pub id : String
  pub intent_id : String
  pub provider_id : String
  pub merchant_name : String
  pub merchant_url : Option String
  pub amount : Amount
  pub currency : String
  pub status : String
  pub credential_type : String
  pub request_approval : Bool
  pub approval_channel : String
  pub line_items : List LineItem
  pub created_at : Codes
  pub approved_by : Option String
  pub approved_at : Option Codes
  pub denied_by : Option String
  pub denied_at : Option Codes
  pub payment_credential : Option Credential
  pub policy_allowed_at_creation : Bool
  pub policy_reasons : List String

-- `assertClean`; an error without a status is answered with 500
abbrev pub assert_clean : Scan → Result (Unit {0})
assert_clean scan = if scan.allowed then ok tt else throw 500 "Sensitive data"

abbrev credential_type_of : Option String → String
credential_type_of none = "shared_payment_token"
credential_type_of (some mode) =
    if str_eq mode "one_time_credential" then "one_time_credential" else "shared_payment_token"

-- `createSpendRequest` with a request for approval, and what the service adds to it
unfoldable pub create_spend_request :
    (SpendRequest → Scan) → Moment → SpendIntent → Option String → Evaluation → Result SpendRequest
create_spend_request guard m i merchant_url evaluation =
    let request : SpendRequest = record {
      id = text_append "link_sr_" m.safe_id;
      intent_id = i.intent.id;
      provider_id = i.intent.provider_id;
      merchant_name = i.intent.provider_name;
      merchant_url = merchant_url;
      amount = i.intent.amount;
      currency = i.intent.currency;
      status = "approval_required";
      credential_type = credential_type_of i.link_payment_mode;
      request_approval = true;
      approval_channel = "link-push-simulated";
      line_items =
          record {
            label = text_append i.intent.provider_name " agent purchase";
            amount = i.intent.amount;
            currency = i.intent.currency;
          }
          ∷ [];
      created_at = m.now;
      approved_by = none;
      approved_at = none;
      denied_by = none;
      denied_at = none;
      payment_credential = none;
      policy_allowed_at_creation = false;
      policy_reasons = [];
    } in
    assert_clean (guard request)
    >> ok (record request {
      policy_allowed_at_creation = evaluation.allowed;
      policy_reasons = if evaluation.allowed then [] else evaluation.reasons;
    })

-- `approveSpendRequest`
unfoldable pub approve_spend_request :
    (SpendRequest → Scan) → Moment → SpendRequest → String → Result SpendRequest
approve_spend_request guard m request approved_by =
    let prefix = if str_eq request.credential_type "shared_payment_token" then "spt" else "otc" in
    let approved = record request {
      status = "approved";
      approved_by = some approved_by;
      approved_at = some m.now;
      payment_credential = some (record {
        kind = request.credential_type;
        id = text_append prefix (text_append "_demo_" m.safe_id);
        pii_exposed = false;
        reusable = false;
      });
    } in
    assert_clean (guard approved) >> ok approved

-- `denySpendRequest`
unfoldable pub deny_spend_request :
    (SpendRequest → Scan) → Moment → SpendRequest → String → Result SpendRequest
deny_spend_request guard m request denied_by =
    let denied = record request {
      status = "denied";
      denied_by = some denied_by;
      denied_at = some m.now;
      payment_credential = none;
    } in
    assert_clean (guard denied) >> ok denied

abbrev pub request_approved :
    (SpendRequest → Scan) → Moment → SpendRequest → String → Result SpendRequest
request_approved guard m request approved_by =
    if str_eq request.status "approved"
    then ok request
    else approve_spend_request guard m request approved_by

abbrev pub credential_id : Option Credential → Result String
credential_id none = throw 500 "Cannot read properties of null"
credential_id (some credential) = ok credential.id

-- the rail's answer for an approved spend request
unfoldable pub link_result : SpendIntent → String → RailResult
link_result i transaction_hash = record {
  execution_status = none;
  transaction_hash = some transaction_hash;
  rail = some "Link Agent Wallet";
  network = some "fiat:link-simulated";
  asset = some i.intent.currency;
  finality = some "approval-gated-simulated";
}

-- `LinkAgentWalletAdapter.settlePayment`
unfoldable pub settle_link_payment :
    (SpendRequest → Scan)
    → (Receipt → Scan)
    → Moment
    → SpendIntent
    → Evaluation
    → SpendRequest
    → String
    → Result Receipt
settle_link_payment guard receipt_guard m i evaluation request approved_by = do
  approved ← request_approved guard m request approved_by
  hash ← credential_id approved.payment_credential
  ok (
      create_receipt receipt_guard m.receipt_id m.later i.intent evaluation
        (some (link_result i hash)) approved_by)
