-- ===== src/Pilot/Settlement/Tests.antt =====
-- The settlement verifier at a concrete payment of one cent.
use stellar_agent_spend_hub.Common.{true, false, none, some, [], ◌∷◌}
use stellar_agent_spend_hub.Common.Text.{codes}
use stellar_agent_spend_hub.Pilot.Service.{Verified}
use stellar_agent_spend_hub.Pilot.Service.Samples.{leased, hash_a}
use stellar_agent_spend_hub.Pilot.Settlement.{Network, Completion, Operation, receipt_of}

abbrev completion : Completion
completion = record {
  transaction_hash = hash_a;
  payment_status = "success";
  network = leased.network;
  asset = leased.asset;
  asset_contract_id = leased.asset_contract_id;
  amount = "0.01";
  recipient = leased.recipient;
  settled_at = "1970-01-01T00:05:00.000Z";
}

abbrev transfer : Operation
transfer = record {
  transaction_successful = true;
  transaction_hash = hash_a;
  kind = "invoke_host_function";
  parameter = some "AAAA";
  asset_balance_changes =
      record {
        kind = "transfer";
        asset_code = "USDC";
        to = leased.recipient;
        amount = codes "0.0100000";
      }
      ∷ [];
}

abbrev network : Network
network = record {
  lower = λ s. s;
  official = true;
  get_transaction = λ hash. record { ok_status = true; error = false; status = "SUCCESS" };
  get_operations = λ hash. record { ok_status = true; records = transfer ∷ [] };
  address = λ v. some leased.asset_contract_id;
  scan = λ r. none;
}

abbrev proof : Verified
proof = record {
  transaction_hash = hash_a;
  receipt = receipt_of leased completion hash_a;
  settled_at = "1970-01-01T00:05:00.000Z";
}
