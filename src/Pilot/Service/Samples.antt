-- ===== src/Pilot/Service/Samples.antt =====
-- One pilot request through its life, as sample data for the tests.
use stellar_agent_spend_hub.Common.{
  ℕ, String, true, none, some, [], ◌∷◌, if◌then◌else◌, ◌≡◌, refl, Bool-cases, inl, inr,
}
use stellar_agent_spend_hub.Common.Text.{str_eq, is_digest}
use stellar_agent_spend_hub.Pilot.Record.{
  PilotRecord, Receipt, prepared, approved, settling, settled, pilot_buyer_request,
}
use stellar_agent_spend_hub.Pilot.Repository.{Repo, request_key, get_record}
use stellar_agent_spend_hub.Common.Map.{get}
use stellar_agent_spend_hub.Pilot.Repository.Versions.{Grows-refl}
use stellar_agent_spend_hub.Pilot.Service.{
  Crypto, Settings, Provider, World, Claim, Verified, pilot_tenant,
}
use stellar_agent_spend_hub.Pilot.Service.Approval.{IsFair}

abbrev pub hash_a : String
hash_a = "aaaaaaaaaaaaaaaaaaaaaaaaaaaaaaaaaaaaaaaaaaaaaaaaaaaaaaaaaaaaaaaa"

abbrev pub hash_0 : String
hash_0 = "0000000000000000000000000000000000000000000000000000000000000000"

abbrev pub digest : String → String
digest s = if str_eq s "token" then hash_a else hash_0

pub digest_hex : (s : String) → is_digest (digest s) ≡ true
unfolding is_digest
digest_hex s = elim (Bool-cases (str_eq s "token")) [ inl e ↦ rw e | inr e ↦ rw e ]

abbrev pub crypto : Crypto
crypto = record {
  digest = digest;
  hmac = λ k m. "token";
  iso = λ t. "1970-01-01T00:00:00.000Z";
  digest_hex = digest_hex;
}

abbrev pub provider : Provider
provider = record {
  provider_id = "stellar-agent-merchant-lab";
  name = "Merchant Lab";
  endpoint = "https://lab.example/snapshot";
  asset = "USDC";
  asset_contract_id = "CBIELTK6";
  network = "stellar:testnet";
  recipient = "GDRECIPIENT";
}

abbrev pub settings : Settings
settings = record {
  providers = ("stellar-agent-merchant-lab", provider) ∷ [];
  approval_secret = "0123456789abcdef0123456789abcdef";
  app_base_url = "https://hub.example/";
}

abbrev pub id : String
id = "00000000-0000-4000-8000-000000000001"

abbrev pub waiting : PilotRecord
waiting = record {
  version = 2;
  request_id = id;
  tenant_id = pilot_tenant;
  provider_id = provider.provider_id;
  provider_name = provider.name;
  resource_id = "stellar-risk-snapshot";
  resource_url = "https://lab.example/snapshot?resource=stellar-risk-snapshot";
  amount = "0.01";
  amount_base_units = "100000";
  asset = provider.asset;
  asset_contract_id = provider.asset_contract_id;
  network = provider.network;
  recipient = provider.recipient;
  idempotency_digest = hash_0;
  payload_hash = hash_0;
  status = prepared;
  approval_token_hash = some hash_a;
  approval_expires_at = some 700000;
  approved_at = none;
  claim_id_hash = none;
  claim_expires_at = none;
  transaction_hash = none;
  receipt = none;
  created_at = 90000;
  updated_at = 100000;
  settled_at = none;
}

abbrev pub holding : PilotRecord → Repo
holding r = record {
  memory = (request_key pilot_tenant id, r) ∷ [];
  idempotency = [];
  order = id ∷ [];
}

abbrev pub at_time : ℕ → World
at_time now = record { now = now; between = λ s. s; others = λ n s. s; stamp = λ n. now }

abbrev pub agreed : PilotRecord
agreed = record waiting {
  version = 3;
  status = approved;
  approved_at = some 200000;
  approval_token_hash = none;
  updated_at = 200000;
}

pub fair : (now : ℕ) → IsFair (at_time now)
fair now = record { before = Grows-refl; during = λ n s. Grows-refl s }

pub found_in : (r : PilotRecord) → get_record id pilot_tenant (holding r) ≡ some r
unfolding get_record request_key get
found_in r = refl

abbrev pub leased : PilotRecord
leased = record agreed {
  version = 4;
  status = settling;
  claim_id_hash = some hash_0;
  claim_expires_at = some 370000;
  updated_at = 250000;
}

abbrev pub claimed : Claim
claimed = record {
  claim_id = "claim";
  claim_expires_at = 370000;
  request = pilot_buyer_request leased;
}

abbrev pub paid : Receipt
paid = record {
  protocol = "x402";
  status = "settled";
  transaction_hash = hash_a;
  network = provider.network;
  asset = provider.asset;
  asset_contract_id = provider.asset_contract_id;
  amount = "0.01";
  recipient = provider.recipient;
  provider_id = provider.provider_id;
  resource_id = "stellar-risk-snapshot";
  settled_at = "1970-01-01T00:05:00.000Z";
}

abbrev pub proof : Verified
proof = record {
  transaction_hash = hash_a;
  receipt = paid;
  settled_at = "1970-01-01T00:05:00.000Z";
}

abbrev pub done : PilotRecord
done = record leased {
  version = 5;
  status = settled;
  transaction_hash = some hash_a;
  receipt = some paid;
  settled_at = some "1970-01-01T00:05:00.000Z";
  claim_id_hash = none;
  updated_at = 300000;
}
