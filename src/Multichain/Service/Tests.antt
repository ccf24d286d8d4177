-- ===== src/Multichain/Service/Tests.antt =====
-- The multichain service at concrete records: runs of the code, and the theorems applied to them.
use stellar_agent_spend_hub.Common.{String, true, false, none, some, [], ◌∷◌, ◌++◌, ◌≡◌, refl}
use stellar_agent_spend_hub.Common.Text.{Codes, codes, str_eq}
use stellar_agent_spend_hub.Common.Result.{ok}
use stellar_agent_spend_hub.Common.Map.{get, set}
use stellar_agent_spend_hub.Domain.{Scan, starts_with}
use stellar_agent_spend_hub.Common.Decimal.{value, value_from}
use stellar_agent_spend_hub.Money.{big_int}
use stellar_agent_spend_hub.Multichain.Repository.{Shelf, lookup, update, update_loop}
use stellar_agent_spend_hub.Multichain.Bridge.{
  Bridge, bridge_view, Burn, Chains, base_sepolia, base_sepolia_usdc, stellar_testnet,
  cctp_v2_token_messenger, hex, hook_bytes, uint32_be, prepare_burn, bridge_quote,
  validate_forwarding_destination, contract_strkey_to_bytes32, build_cctp_forwarder_hook_data,
}
use stellar_agent_spend_hub.Multichain.Verification.{
  Network, missing, found, Log, Transfer, BaseTransaction, Report, Settlement, CircleMessage,
  validate_evm_hash, verify_base_transaction, read_base_transaction, read_circle_message,
  validate_prepared_cctp_burn, verified_burn,
}
use stellar_agent_spend_hub.Multichain.Service.{
  Setup, World, Bridges, record_burn, require_bridge, public_bridge, bridge_status,
  verify_and_record_settlement,
}
use stellar_agent_spend_hub.Multichain.Service.Burns.{IsRecorded, record_burn-IsRecorded}
use stellar_agent_spend_hub.Multichain.Service.Stale.{stale_message}
use stellar_agent_spend_hub.Multichain.Service.Prepared.{prepared_burn_accepted}

abbrev nothing_found : Scan
nothing_found = record { allowed = true; reasons = [] }

abbrev chains : Chains
chains = record {
  is_address = λ a. true;
  get_address = λ a. a;
  lower = λ a. a;
  is_contract = λ s. str_eq s "CFORWARDER";
  is_account = λ s. str_eq s "GUSER";
  is_muxed = λ s. false;
  contract_bytes = λ s. "0xc0";
  text_of = λ s. "aaaa";
}

abbrev id : String
id = "11111111-1111-4111-8111-111111111111"

abbrev hash : Codes
hash = codes "0xaaaaaaaaaaaaaaaaaaaaaaaaaaaaaaaaaaaaaaaaaaaaaaaaaaaaaaaaaaaaaaaa"

abbrev today : Codes
today = codes "2026-07-01T12:00:00.000Z"

abbrev bridge : Bridge
bridge = record {
  version = 2;
  id = id;
  status = "prepared";
  source_network = base_sepolia;
  destination_network = stellar_testnet;
  source_address = "0x5";
  destination_address = "GUSER";
  amount = codes "1";
  amount_base_units = codes "1000000";
  destination_base_units = codes "10000000";
  asset = "USDC";
  burn_token = base_sepolia_usdc;
  token_messenger = cctp_v2_token_messenger;
  cctp_forwarder = "CFORWARDER";
  destination_domain = 27;
  finality_threshold = 2000;
  forwarding_service = "circle";
  quote = none;
  burn_transaction_hash = none;
  burn_block_number = none;
  destination_transaction_hash = none;
  destination_verified = false;
  attestation_status = none;
  created_at = today;
  updated_at = today;
  settled_at = none;
}

abbrev burn : Burn
burn = record {
  function_name = "depositForBurnWithHook";
  amount = 1000000;
  domain = 27;
  mint_recipient = "0xc0";
  burn_token = base_sepolia_usdc;
  destination_caller = "0xc0";
  max_fee = 0;
  finality = 2000;
  hook_data = codes "0x" ++ hex (hook_bytes (codes "GUSER"));
}

abbrev payment : Log
payment = record { address = base_sepolia_usdc; payload = "0x2710"; topics = [] }

abbrev transfer : Transfer
transfer = record { event_name = "Transfer"; from = "0x5"; to = "0x7"; value = 10000 }

abbrev message : CircleMessage
message = record { status = "pending_confirmations"; destination_hash = none }

abbrev net : Network
net = record {
  base_receipt = λ h. found (record { status = "0x1"; block_number = "0x10"; logs = payment ∷ [] });
  base_transaction =
      λ h. found (record { to = cctp_v2_token_messenger; from = "0x5"; input = "0x" });
  stellar_transaction = λ h. missing;
  circle_message = λ h. found message;
  decode_transfer = λ log. some transfer;
  decode_burn = λ input. some burn;
}

abbrev setup : Setup
setup = record {
  chains = chains;
  net = net;
  settings = record {
    forwarder = "CFORWARDER";
    destination = "GUSER";
    cctp_enabled = true;
    cctp_submit_enabled = true;
    merchant = "0x7";
  };
  bridge_guard = λ b. nothing_found;
  view_guard = λ b. nothing_found;
  settlement_guard = λ s. nothing_found;
}

abbrev holding : Bridge → Bridges
holding b = record { memory = (id, b) ∷ []; order = id ∷ [] }

abbrev alone : World
alone = record { now = today; stamp = λ n. today; between = λ s. s; others = λ n s. s }

abbrev burned : Bridge
burned = record bridge {
  version = 3;
  status = "burn_submitted";
  burn_transaction_hash = some hash;
  burn_block_number = some "0x10";
  attestation_status = some "pending";
}

burn_run :
    record_burn setup alone id hash (holding bridge) ≡ (ok (bridge_view burned), holding burned)
unfolding record_burn verified_burn require_bridge validate_evm_hash verify_base_transaction
    read_base_transaction validate_prepared_cctp_burn contract_strkey_to_bytes32
    build_cctp_forwarder_hook_data hex hook_bytes uint32_be update update_loop get set public_bridge
    starts_with big_int value value_from
burn_run = refl

record_burn-IsRecorded_example :
    IsRecorded setup alone id hash (holding bridge) (bridge_view burned) (holding burned)
record_burn-IsRecorded_example =
    record_burn-IsRecorded setup alone id hash (holding bridge) (bridge_view burned)
      (holding burned) burn_run

abbrev report : Report
report = record {
  id = some "payment-1";
  network = base_sepolia;
  transaction_hash = hash;
  asset_id = base_sepolia_usdc;
  payer = "0x5";
  recipient = "0x7";
  settled_at = some today;
}

abbrev no_settlements : Shelf Settlement
no_settlements = record { memory = []; order = [] }

abbrev settled_shelf : Shelf Settlement
settled_shelf = (verify_and_record_settlement setup today report no_settlements).1

abbrev settled_bridge : Bridge
settled_bridge = record burned { version = 4; status = "settled"; destination_verified = true }

-- while the message is read, another call settles the bridge
abbrev overtaken : World
overtaken = record alone { between = λ s. holding settled_bridge }

found_run : require_bridge id (holding burned) ≡ (ok burned, holding burned)
unfolding require_bridge get
found_run = refl

answered : read_circle_message net hash ≡ some message
unfolding read_circle_message
answered = refl

there : lookup id (holding settled_bridge) ≡ some settled_bridge
unfolding get
there = refl

stale_message_example :
    (r : Bridge) × (lookup id (bridge_status setup overtaken id (holding burned)).1 ≡ some r)
    × (r.status ≡ "attesting")
stale_message_example =
    stale_message setup overtaken id (holding burned) burned settled_bridge hash message found_run
      refl refl answered refl there (λ n u. refl)

abbrev sent : BaseTransaction
sent = record { to = cctp_v2_token_messenger; from = "0x5"; input = "0x" }

prepared_run : prepare_burn chains bridge today ≡ ok (bridge_quote bridge today, burn)
unfolding prepare_burn validate_forwarding_destination contract_strkey_to_bytes32
    build_cctp_forwarder_hook_data hex hook_bytes uint32_be big_int value value_from
prepared_run = refl

prepared_burn_accepted_example : validate_prepared_cctp_burn net chains sent bridge ≡ ok tt
prepared_burn_accepted_example =
    prepared_burn_accepted net chains bridge sent today (bridge_quote bridge today) burn (λ a. refl)
      refl refl refl prepared_run refl refl refl
