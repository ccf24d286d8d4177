-- ===== src/Pilot/Record.antt =====
-- The record of a pilot request, and its public views (src/pilotService.mjs, pilotPresentation.mjs).
-- A time is a number of milliseconds; an absent one, or any field that may be null, is `none`.
use Prim.Native.String.{◌++◌}
use stellar_agent_spend_hub.Common.{ℕ, String, Bool, true, false, Option, none, some}

pub data Status : Type 0 where
  created prepared approved settling settled expired : Status

-- The receipt that `verifyPilotSettlement` builds.
pub record Receipt : Type 0 where
  pub protocol : String
  pub status : String
  pub transaction_hash : String
  pub network : String
  pub asset : String
  pub asset_contract_id : String
  pub amount : String
  pub recipient : String
  pub provider_id : String
  pub resource_id : String
  pub settled_at : String

pub record PilotRecord : Type 0 where
  pub version : ℕ
  pub request_id : String
  pub tenant_id : String
  pub provider_id : String
  pub provider_name : String
  pub resource_id : String
  pub resource_url : String
  pub amount : String
  pub amount_base_units : String
  pub asset : String
  pub asset_contract_id : String
  pub network : String
  pub recipient : String
  pub idempotency_digest : String
  pub payload_hash : String
  pub status : Status
  pub approval_token_hash : Option String
  pub approval_expires_at : Option ℕ
  pub approved_at : Option ℕ
  pub claim_id_hash : Option String
  pub claim_expires_at : Option ℕ
  pub transaction_hash : Option String
  pub receipt : Option Receipt
  pub created_at : ℕ
  pub updated_at : ℕ
  pub settled_at : Option String

-- `publicPilotRequest(record)`
pub record PublicRequest : Type 0 where
  pub request_id : String
  pub provider_id : String
  pub provider_name : String
  pub resource_id : String
  pub amount : String
  pub amount_base_units : String
  pub asset : String
  pub asset_contract_id : String
  pub network : String
  pub recipient : String
  pub status : Status
  pub requires_human_confirmation : Bool
  pub approval_expires_at : Option ℕ
  pub approved_at : Option ℕ
  pub transaction_hash : Option String
  pub explorer_url : Option String
  pub created_at : ℕ
  pub settled_at : Option String

-- `!["approved", "settling", "settled"].includes(status)`
abbrev pub awaits_human : Status → Bool
awaits_human approved = false
awaits_human settling = false
awaits_human settled = false
awaits_human other = true

abbrev pub explorer : String
explorer = "https://stellar.expert/explorer/testnet/tx"

abbrev explorer_url : Option String → Option String
explorer_url none = none
explorer_url (some hash) = some (explorer ++ "/" ++ hash)

unfoldable pub public_pilot_request : PilotRecord → PublicRequest
public_pilot_request r = record {
  request_id = r.request_id;
  provider_id = r.provider_id;
  provider_name = r.provider_name;
  resource_id = r.resource_id;
  amount = r.amount;
  amount_base_units = r.amount_base_units;
  asset = r.asset;
  asset_contract_id = r.asset_contract_id;
  network = r.network;
  recipient = r.recipient;
  status = r.status;
  requires_human_confirmation = awaits_human r.status;
  approval_expires_at = r.approval_expires_at;
  approved_at = r.approved_at;
  transaction_hash = r.transaction_hash;
  explorer_url = explorer_url r.transaction_hash;
  created_at = r.created_at;
  settled_at = r.settled_at;
}

-- `pilotBuyerRequest(record)`
pub record BuyerRequest : Type 0 where
  pub request : PublicRequest
  pub resource_url : String

unfoldable pub pilot_buyer_request : PilotRecord → BuyerRequest
pilot_buyer_request r = record { request = public_pilot_request r; resource_url = r.resource_url }

-- `publicPilotEvidence(record)`
pub record Evidence : Type 0 where
  pub evidence_type : String
  pub verification_status : String
  pub provider_id : String
  pub resource_id : String
  pub amount : String
  pub amount_base_units : String
  pub asset : String
  pub asset_contract_id : String
  pub network : String
  pub recipient : String
  pub transaction_hash : Option String
  pub explorer_url : String
  pub verified_at : Option String

-- a null hash is spelled so in the template
abbrev spell_hash : Option String → String
spell_hash none = "null"
spell_hash (some hash) = hash

unfoldable pub public_pilot_evidence : PilotRecord → Evidence
public_pilot_evidence r = record {
  evidence_type = "provider-pilot";
  verification_status = "verified";
  provider_id = r.provider_id;
  resource_id = r.resource_id;
  amount = r.amount;
  amount_base_units = r.amount_base_units;
  asset = r.asset;
  asset_contract_id = r.asset_contract_id;
  network = r.network;
  recipient = r.recipient;
  transaction_hash = r.transaction_hash;
  explorer_url = explorer ++ "/" ++ spell_hash r.transaction_hash;
  verified_at = r.settled_at;
}
