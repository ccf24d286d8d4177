-- ===== src/SpendHub/Machine.antt =====
-- Machine payments of the hub: a challenge, and the receipt that answers it
-- (src/machinePaymentAdapter.mjs).
use Prim.Native.String.{◌++◌ as text_append}
use stellar_agent_spend_hub.Common.{
  ℕ, String, Bool, false, ◌&&◌, ◌||◌, not, Option, none, some, List, [], ◌∷◌, ◌==◌, find, drop, all,
  if◌then◌else◌,
}
use stellar_agent_spend_hub.Common.Text.{Codes, codes, str_eq, is_digit, is_lower, is_upper}
use stellar_agent_spend_hub.Common.Result.{Result, ok, ◌>>◌}
use stellar_agent_spend_hub.Money.{trim}
use stellar_agent_spend_hub.ContractAccount.Repository.{codes_eq}
use stellar_agent_spend_hub.Domain.Amounts.{Amount}
use stellar_agent_spend_hub.Domain.{Receipt, Scan, starts_with, is_settled}
use stellar_agent_spend_hub.SpendHub.Intent.{SpendIntent, Provider}
use stellar_agent_spend_hub.SpendHub.Rails.{Moment, assert_clean}

pub record Challenge : Type 0 where
  pub challenge_id : String
  pub protocol : String
  pub provider_id : String
  pub provider_name : String
  pub resource_id : String
  pub amount : Amount
  pub currency : String
  pub payment_methods : List String
  pub intent_id : String
  pub prepare_url : String
  pub approve_url : String
  pub created_at : Codes

abbrev intent_url : String → String → String
intent_url id action = text_append "/api/intents/" (text_append id (text_append "/" action))

-- `createChallenge`; it expires ten minutes after `created_at`
unfoldable pub create_challenge :
    (Challenge → Scan) → Moment → Provider → SpendIntent → String → Result Challenge
create_challenge guard m provider i resource_id =
    let challenge : Challenge = record {
      challenge_id = text_append "mpp_ch_" m.safe_id;
      protocol = "mpp-402-demo";
      provider_id = provider.provider_id;
      provider_name = provider.name;
      resource_id = resource_id;
      amount = i.intent.amount;
      currency = i.intent.currency;
      payment_methods = provider.payment_method ∷ [];
      intent_id = i.intent.id;
      prepare_url = intent_url i.intent.id "prepare";
      approve_url = intent_url i.intent.id "approve";
      created_at = m.now;
    } in
    assert_clean (guard challenge) >> ok challenge

-- `[a-zA-Z0-9_-]`
abbrev is_id_char : ℕ → Bool
is_id_char c = is_lower c || is_upper c || is_digit c || c == b'_' || c == b'-'

abbrev is_id : Codes → Bool
is_id [] = false
is_id (c ∷ s) = is_id_char c && all is_id_char s

abbrev id_in : Codes → Option Codes
id_in trimmed =
    if not (starts_with trimmed (codes "receipt:"))
    then none
    else if is_id (drop 8 trimmed)
    then some (drop 8 trimmed)
    else none

-- `parseReceiptCredential`
unfoldable pub parse_receipt_credential : Codes → Option Codes
parse_receipt_credential credential = id_in (trim credential)

pub data Verification : Type 0 where
  accepted : Receipt → Verification
  rejected : String → Verification

-- the receipt that a credential has to name
abbrev pub pays_for : Codes → String → Receipt → Bool
pays_for id provider_id r =
    codes_eq (codes r.id) id && str_eq r.provider_id provider_id && is_settled r.status

abbrev pub verify_found : (Receipt → Scan) → Option Receipt → Verification
verify_found guard none = rejected "Receipt not settled for this provider"
verify_found guard (some r) = if (guard r).allowed then accepted r else rejected "Sensitive data"

abbrev pub verify_id : (Receipt → Scan) → List Receipt → String → Option Codes → Verification
verify_id guard receipts provider_id none = rejected "Missing or invalid receipt credential"
verify_id guard receipts provider_id (some id) =
    verify_found guard (find (pays_for id provider_id) receipts)

-- `verifyCredential`
unfoldable pub verify_credential : (Receipt → Scan) → Codes → List Receipt → String → Verification
verify_credential guard credential receipts provider_id =
    verify_id guard receipts provider_id (parse_receipt_credential credential)

pub record Resource : Type 0 where
  pub protocol : String
  pub resource_id : String
  pub provider_id : String
  pub provider_name : String
  pub delivered_at : Codes
  pub content : String
  pub receipt_id : String
  pub rail : Option String
  pub network : Option String
  pub amount : Amount
  pub currency : String
  pub privacy_level : String

-- `deliverResource`, for a verification that accepts the receipt
unfoldable pub deliver_resource :
    (Resource → Scan) → Moment → Provider → String → Receipt → Result Resource
deliver_resource guard m provider resource_id r =
    let resource : Resource = record {
      protocol = "mpp-402-demo";
      resource_id = resource_id;
      provider_id = provider.provider_id;
      provider_name = provider.name;
      delivered_at = m.now;
      content = text_append "Paid machine resource from " provider.name;
      receipt_id = r.id;
      rail = r.rail;
      network = r.network;
      amount = r.amount;
      currency = r.currency;
      privacy_level = r.privacy_level;
    } in
    assert_clean (guard resource) >> ok resource
