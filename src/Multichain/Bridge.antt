-- ===== src/Multichain/Bridge.antt =====
-- A bridge of USDC from Base to Stellar (src/cctpBridgeAdapter.mjs), and its public view
-- (src/multichainPublicViews.mjs).
use stellar_agent_spend_hub.Common.{
  ℕ, ◌+◌, String, Bool, false, ◌||◌, not, Option, none, List, [], ◌∷◌, ◌++◌, ◌-◌, ◌/◌, ◌%◌, ◌^◌,
  ltb, length, replicate, if◌then◌else◌,
}
use stellar_agent_spend_hub.Common.Text.{Codes, codes, str_eq}
use stellar_agent_spend_hub.Common.Result.{Result, ok, throw, throw_if, ◌>>=◌, ◌>>◌}
use stellar_agent_spend_hub.ContractAccount.Repository.{codes_eq}
use stellar_agent_spend_hub.Domain.{Scan}
use stellar_agent_spend_hub.Money.{TokenAmount, big_int, parse_token_amount, scale_base_units}
use stellar_agent_spend_hub.Multichain.Repository.{Stored}

-- The quote that the preparation of a bridge adds.
pub record BridgeQuote : Type 0 where
  pub source_network : String
  pub destination_network : String
  pub amount : Codes
  pub amount_base_units : Codes
  pub destination_base_units : Codes
  pub fee_base_units : String
  pub expires_at : Codes

pub record Bridge : Type 0 where
  pub version : ℕ
  pub id : String
  pub status : String
  pub source_network : String
  pub destination_network : String
  pub source_address : String
  pub destination_address : String
  pub amount : Codes
  pub amount_base_units : Codes
  pub destination_base_units : Codes
  pub asset : String
  pub burn_token : String
  pub token_messenger : String
  pub cctp_forwarder : String
  pub destination_domain : ℕ
  pub finality_threshold : ℕ
  pub forwarding_service : String
  pub quote : Option BridgeQuote
  pub burn_transaction_hash : Option Codes
  pub burn_block_number : Option String
  pub destination_transaction_hash : Option Codes
  pub destination_verified : Bool
  pub attestation_status : Option String
  pub created_at : Codes
  pub updated_at : Codes
  pub settled_at : Option Codes

-- What `publicBridge` shows, without the links made of the hashes and the constant fields.
pub record PublicBridge : Type 0 where
  pub id : String
  pub status : String
  pub source_network : String
  pub destination_network : String
  pub source_address : String
  pub destination_address : String
  pub amount : Codes
  pub amount_base_units : Codes
  pub destination_base_units : Codes
  pub asset : String
  pub forwarding_service : String
  pub burn_transaction_hash : Option Codes
  pub destination_transaction_hash : Option Codes
  pub destination_verified : Bool
  pub attestation_status : Option String
  pub created_at : Codes
  pub updated_at : Codes
  pub settled_at : Option Codes

abbrev pub bridge_view : Bridge → PublicBridge
bridge_view b = record {
  id = b.id;
  status = b.status;
  source_network = b.source_network;
  destination_network = b.destination_network;
  source_address = b.source_address;
  destination_address = b.destination_address;
  amount = b.amount;
  amount_base_units = b.amount_base_units;
  destination_base_units = b.destination_base_units;
  asset = b.asset;
  forwarding_service = b.forwarding_service;
  burn_transaction_hash = b.burn_transaction_hash;
  destination_transaction_hash = b.destination_transaction_hash;
  destination_verified = b.destination_verified;
  attestation_status = b.attestation_status;
  created_at = b.created_at;
  updated_at = b.updated_at;
  settled_at = b.settled_at;
}

abbrev pub stored_bridge : Stored Bridge
stored_bridge = record {
  version_of = λ b. b.version;
  stamp_with = λ version now b. record b { version = version; updated_at = now };
}

-- What the packages for the chains answer on texts (viem and the Stellar SDK), the lower case of a
-- text, and the text of code points.
pub record Chains : Type 0 where
  pub is_address : String → Bool
  pub get_address : String → String
  pub lower : String → String
  pub is_contract : String → Bool
  pub is_account : String → Bool
  pub is_muxed : String → Bool
  pub contract_bytes : String → String
  pub text_of : Codes → String

abbrev pub base_sepolia : String
base_sepolia = "eip155:84532"

abbrev pub stellar_testnet : String
stellar_testnet = "stellar:testnet"

abbrev pub base_sepolia_usdc : String
base_sepolia_usdc = "0x036CbD53842c5426634e7929541eC2318f3dCF7e"

abbrev pub cctp_v2_token_messenger : String
cctp_v2_token_messenger = "0x8FE6B999Dc680CcFDD5Bf7EB0974218be2542DAA"

-- The environment: the forwarder, the destination, the gates and the merchant; an absent text is "".
pub record Settings : Type 0 where
  pub forwarder : String
  pub destination : String
  pub cctp_enabled : Bool
  pub cctp_submit_enabled : Bool
  pub merchant : String

-- `contractStrkeyToBytes32`
unfoldable pub contract_strkey_to_bytes32 : Chains → String → Result String
contract_strkey_to_bytes32 chains strkey =
    if chains.is_contract strkey
    then ok (chains.contract_bytes strkey)
    else throw 503 "CCTP Stellar forwarder contract is invalid"

abbrev nibble : ℕ → ℕ
nibble n = if ltb n 10 then b'0' + n else b'a' + (n - 10)

-- `buffer.toString("hex")`
unfoldable pub hex : List ℕ → Codes
hex [] = []
hex (b ∷ bs) = nibble (b / 16 % 16) ∷ nibble (b % 16) ∷ hex bs

-- `buffer.writeUInt32BE(n, …)`
unfoldable pub uint32_be : ℕ → List ℕ
uint32_be n = n / 2 ^ 24 % 256 ∷ n / 2 ^ 16 % 256 ∷ n / 2 ^ 8 % 256 ∷ n % 256 ∷ []

-- the hook of a recipient: 24 zero bytes, two words, the recipient
unfoldable pub hook_bytes : List ℕ → List ℕ
hook_bytes recipient =
    replicate 24 0 ++ (uint32_be 0 ++ (uint32_be (length recipient) ++ recipient))

-- `buildCctpForwarderHookData`; a valid recipient is ASCII
unfoldable pub build_cctp_forwarder_hook_data : Chains → String → Result Codes
build_cctp_forwarder_hook_data chains recipient =
    if not
      (chains.is_account recipient || chains.is_contract recipient || chains.is_muxed recipient)
    then throw 503 "CCTP Stellar destination is invalid"
    else ok (codes "0x" ++ hex (hook_bytes (codes recipient)))

-- `validateForwardingDestination`
unfoldable pub validate_forwarding_destination : Chains → String → String → Result (Unit {0})
validate_forwarding_destination chains forwarder destination =
    throw_if (not (chains.is_contract forwarder)) 503 "CCTP Stellar forwarder contract is invalid"
    >> throw_if (not (chains.is_account destination)) 503
        "CCTP destination must be the dedicated Stellar user account"
    >> throw_if (str_eq forwarder destination) 409
        "CCTP forwarder and final destination must differ"

abbrev new_bridge : Chains → Settings → String → Codes → String → TokenAmount → Codes → Bridge
new_bridge chains settings id now source_address money destination_units = record {
  version = 1;
  id = id;
  status = "created";
  source_network = base_sepolia;
  destination_network = stellar_testnet;
  source_address = chains.get_address source_address;
  destination_address = settings.destination;
  amount = money.amount;
  amount_base_units = money.amount_base_units;
  destination_base_units = destination_units;
  asset = "USDC";
  burn_token = base_sepolia_usdc;
  token_messenger = cctp_v2_token_messenger;
  cctp_forwarder = settings.forwarder;
  destination_domain = 27;
  finality_threshold = 2000;
  forwarding_service = "circle";
  quote = none;
  burn_transaction_hash = none;
  burn_block_number = none;
  destination_transaction_hash = none;
  destination_verified = false;
  attestation_status = none;
  created_at = now;
  updated_at = now;
  settled_at = none;
}

-- `CctpBridgeAdapter.createIntent`; `id` is the new UUID
unfoldable pub create_bridge_intent :
    Chains → Settings → (Bridge → Scan) → String → Codes → String → Codes → Result Bridge
create_bridge_intent chains settings guard id now source_address amount = do
  throw_if (not (chains.is_address source_address)) 400
      "A valid Privy EVM source address is required"
  money ← parse_token_amount amount 6
  throw_if (not (codes_eq money.amount (codes "1"))) 409
      "Supervised CCTP demo amount must be exactly 1 USDC"
  validate_forwarding_destination chains settings.forwarder settings.destination
  destination_units ← scale_base_units money.amount_base_units 6 7
  let bridge = new_bridge chains settings id now source_address money destination_units
  throw_if (not (guard bridge).allowed) 400 "Sensitive data"
  ok bridge

-- what `prepare` gives besides the transactions
unfoldable pub bridge_quote : Bridge → Codes → BridgeQuote
bridge_quote b expires_at = record {
  source_network = b.source_network;
  destination_network = b.destination_network;
  amount = b.amount;
  amount_base_units = b.amount_base_units;
  destination_base_units = b.destination_base_units;
  fee_base_units = "0";
  expires_at = expires_at;
}

abbrev pub is_preparable : String → Bool
is_preparable status = str_eq status "created" || str_eq status "prepared"

-- The arguments of the burn that the calldata of the second transaction encodes.
pub record Burn : Type 0 where
  pub function_name : String
  pub amount : ℕ
  pub domain : ℕ
  pub mint_recipient : String
  pub burn_token : String
  pub destination_caller : String
  pub max_fee : ℕ
  pub finality : ℕ
  pub hook_data : Codes

-- `CctpBridgeAdapter.prepare`: the quote, and the burn to be signed
unfoldable pub prepare_burn : Chains → Bridge → Codes → Result (BridgeQuote × Burn)
prepare_burn chains b expires_at = do
  throw_if (not (is_preparable b.status)) 409 "Bridge cannot be prepared"
  validate_forwarding_destination chains b.cctp_forwarder b.destination_address
  forwarder ← contract_strkey_to_bytes32 chains b.cctp_forwarder
  hook ← build_cctp_forwarder_hook_data chains b.destination_address
  amount ← big_int b.amount_base_units
  ok (
    bridge_quote b expires_at,
    record {
      function_name = "depositForBurnWithHook";
      amount = amount;
      domain = 27;
      mint_recipient = forwarder;
      burn_token = chains.get_address base_sepolia_usdc;
      destination_caller = forwarder;
      max_fee = 0;
      finality = 2000;
      hook_data = hook;
    },
  )
