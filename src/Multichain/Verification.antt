-- ===== src/Multichain/Verification.antt =====
-- What a transaction has to show (src/multichainVerification.mjs). A hash is its code points.
use Prim.Native.String.{◌++◌ as text_append}
use stellar_agent_spend_hub.Common.{
  ℕ, String, Bool, false, ◌&&◌, ◌||◌, not, Option, none, some, List, [], ◌∷◌, ◌==◌, map, drop, take,
  if◌then◌else◌,
}
use stellar_agent_spend_hub.Common.Text.{Codes, codes, str_eq, is_run, is_hex_lower}
use stellar_agent_spend_hub.Common.Result.{Result, ok, throw, throw_if, ◌>>=◌, ◌>>◌}
use stellar_agent_spend_hub.ContractAccount.Repository.{codes_eq, to_lower}
use stellar_agent_spend_hub.Domain.{Scan, starts_with}
use stellar_agent_spend_hub.Money.{big_int}
use stellar_agent_spend_hub.Multichain.Bridge.{
  Bridge, Burn, Chains, Settings, base_sepolia, base_sepolia_usdc, contract_strkey_to_bytes32,
  build_cctp_forwarder_hook_data,
}

-- `validateEvmHash`
unfoldable pub validate_evm_hash : Codes → Result Codes
validate_evm_hash value =
    let hash = map to_lower value in
    if starts_with hash (codes "0x") && is_run 64 64 is_hex_lower (drop 2 hash)
    then ok hash
    else throw 400 "Invalid EVM transaction hash"

pub record Log : Type 0 where
  pub address : String
  pub payload : String
  pub topics : List String

pub record Transfer : Type 0 where
  pub event_name : String
  pub from : String
  pub to : String
  pub value : ℕ

pub record BaseReceipt : Type 0 where
  pub status : String
  pub block_number : String
  pub logs : List Log

pub record BaseTransaction : Type 0 where
  pub to : String
  pub from : String
  pub input : String

pub record StellarTransaction : Type 0 where
  pub successful : Bool
  pub hash : Codes

-- a message of Circle; its hash is the first of the two fields that is there
pub record CircleMessage : Type 0 where
  pub status : String
  pub destination_hash : Option Codes

-- What a fetch answers: nothing usable, a reply without a result, or a result.
pub data Fetched (A : Type 0) : Type 0 where
  unavailable missing : Fetched A
  found : A → Fetched A

-- The answers of the networks and what viem decodes.
pub record Network : Type 0 where
  pub base_receipt : Codes → Fetched BaseReceipt
  pub base_transaction : Codes → Fetched BaseTransaction
  pub stellar_transaction : Codes → Fetched StellarTransaction
  pub circle_message : Codes → Fetched CircleMessage
  pub decode_transfer : Log → Option Transfer
  pub decode_burn : String → Option Burn

abbrev pub succeeded : Fetched BaseReceipt → Result BaseReceipt
succeeded unavailable = throw 502 "Base Sepolia RPC unavailable"
succeeded missing = throw 404 "Base Sepolia transaction not found"
succeeded (found r) =
    if not (str_eq r.status "0x1") then throw 409 "Base Sepolia transaction failed" else ok r

-- `verifyBaseTransaction`
unfoldable pub verify_base_transaction : Network → Codes → Result BaseReceipt
verify_base_transaction net hash = succeeded (net.base_receipt hash)

abbrev there : Fetched BaseTransaction → Result BaseTransaction
there unavailable = throw 502 "Base Sepolia RPC unavailable"
there missing = throw 404 "Base Sepolia transaction not found"
there (found t) = ok t

-- `readBaseTransaction`
unfoldable pub read_base_transaction : Network → Codes → Result BaseTransaction
read_base_transaction net hash = there (net.base_transaction hash)

abbrev first_message : Fetched CircleMessage → Option CircleMessage
first_message (found m) = some m
first_message other = none

-- `readCircleMessage`
unfoldable pub read_circle_message : Network → Codes → Option CircleMessage
read_circle_message net hash = first_message (net.circle_message hash)

abbrev is_hex : ℕ → Bool
is_hex c = is_hex_lower (to_lower c)

-- `text.replace(/^0x/, "")`
abbrev strip_0x : Codes → Codes
strip_0x s = if starts_with s (codes "0x") then drop 2 s else s

abbrev hash_of : Option Codes → Option Codes
hash_of none = none
hash_of (some value) =
    if is_run 64 64 is_hex (strip_0x value) then some (map to_lower (strip_0x value)) else none

-- `circleDestinationHash`
unfoldable pub circle_destination_hash : CircleMessage → Option Codes
circle_destination_hash message = hash_of message.destination_hash

abbrev confirms : Codes → Fetched StellarTransaction → Bool
confirms hash (found t) = t.successful && codes_eq (map to_lower t.hash) hash
confirms hash other = false

-- `verifyStellarDestinationTransaction`
unfoldable pub verify_stellar_destination_transaction : Network → Codes → Bool
verify_stellar_destination_transaction net hash = confirms hash (net.stellar_transaction hash)

abbrev completed : Bridge → Codes → Bool → Option Codes → Bridge
completed b now verified none = record b { status = "forwarding" }
completed b now verified (some hash) = record b {
  destination_transaction_hash = some hash;
  status = if verified then "settled" else "forwarding";
  destination_verified = verified;
  settled_at = if verified then some now else none;
}

-- `applyCircleStatus`
unfoldable pub apply_circle_status : Chains → Bridge → CircleMessage → Codes → Bool → Bridge
apply_circle_status chains b message now verified =
    let status = chains.lower message.status in
    let noted = record b {
      attestation_status = some (if str_eq status "" then "pending" else status);
    } in
    if str_eq status "complete"
    then completed noted now verified (circle_destination_hash message)
    else if str_eq status "failed" || str_eq status "expired"
    then record noted { status = "manual_review" }
    else if str_eq status "pending_confirmations"
    then record noted { status = "attesting" }
    else record noted { status = "forwarding" }

-- An address that is one, and is the same as another; `getAddress` of a text that is no address,
-- which throws in the package, is some text here.
abbrev pub same_address : Chains → String → String → Bool
same_address chains a b =
    chains.is_address a && str_eq (chains.get_address a) (chains.get_address b)

abbrev pub decoded_or_409 : Option Burn → Result Burn
decoded_or_409 none = throw 409 "CCTP burn calldata is invalid"
decoded_or_409 (some burn) = ok burn

-- the comparisons before that of the hook
abbrev pub matches : Chains → Bridge → String → ℕ → Burn → Bool
matches chains b forwarder amount burn =
    burn.amount == amount
    && burn.domain == b.destination_domain
    && str_eq (chains.lower burn.mint_recipient) forwarder
    && str_eq (chains.get_address burn.burn_token) (chains.get_address b.burn_token)
    && str_eq (chains.lower burn.destination_caller) forwarder
    && burn.max_fee == 0
    && burn.finality == b.finality_threshold

-- `validatePreparedCctpBurn`
unfoldable pub validate_prepared_cctp_burn :
    Network → Chains → BaseTransaction → Bridge → Result (Unit {0})
validate_prepared_cctp_burn net chains t b = do
  throw_if
      (not
        (same_address chains t.to b.token_messenger && same_address chains t.from b.source_address))
      409 "CCTP burn transaction does not match the prepared source and TokenMessenger"
  burn ← decoded_or_409 (net.decode_burn t.input)
  throw_if (not (str_eq burn.function_name "depositForBurnWithHook")) 409
      "Unexpected CCTP burn function"
  forwarder ← contract_strkey_to_bytes32 chains b.cctp_forwarder
  amount ← big_int b.amount_base_units
  throw_if (not (matches chains b (chains.lower forwarder) amount burn)) 409
      "CCTP burn calldata does not match the prepared bridge intent"
  hook ← build_cctp_forwarder_hook_data chains b.destination_address
  throw_if (not (codes_eq (map to_lower burn.hook_data) (map to_lower hook))) 409
      "CCTP burn calldata does not match the prepared bridge intent"

-- the checks of `recordBurn` on a transaction: its hash and its receipt
unfoldable pub verified_burn : Network → Chains → Bridge → Codes → Result (Codes × BaseReceipt)
verified_burn net chains b transaction_hash = do
  hash ← validate_evm_hash transaction_hash
  receipt ← verify_base_transaction net hash
  transaction ← read_base_transaction net hash
  validate_prepared_cctp_burn net chains transaction b
  ok (hash, receipt)

-- What a caller reports of a settlement; an absent text is "".
pub record Report : Type 0 where
  pub id : Option String
  pub network : String
  pub transaction_hash : Codes
  pub asset_id : String
  pub payer : String
  pub recipient : String
  pub settled_at : Option Codes

pub record Settlement : Type 0 where
  pub id : String
  pub network : String
  pub asset_id : String
  pub amount : String
  pub amount_base_units : ℕ
  pub payer : String
  pub recipient : String
  pub transaction_hash : Codes
  pub settled_at : Codes

abbrev or_else : {A : Type 0} → Option A → A → A
or_else none a = a
or_else (some b) a = b

abbrev pub settlement_of : Chains → Codes → Report → Codes → Settlement
settlement_of chains now report hash = record {
  id = or_else report.id (text_append "base-x402-" (chains.text_of (take 12 (drop 2 hash))));
  network = report.network;
  asset_id = report.asset_id;
  amount = "0.01";
  amount_base_units = 10000;
  payer = chains.get_address report.payer;
  recipient = chains.get_address report.recipient;
  transaction_hash = hash;
  settled_at = or_else report.settled_at now;
}

-- `sanitizeSettlement`
unfoldable pub sanitize_settlement :
    Chains → Settings → (Settlement → Scan) → Codes → Report → Result Settlement
sanitize_settlement chains settings guard now report = do
  throw_if (not (str_eq report.network base_sepolia)) 409 "Only Base Sepolia settlement is accepted"
  hash ← validate_evm_hash report.transaction_hash
  throw_if (not (str_eq (chains.lower report.asset_id) (chains.lower base_sepolia_usdc))) 409
      "Settlement asset is not Base Sepolia USDC"
  throw_if
      (not (chains.is_address settings.merchant)
        || not (same_address chains report.recipient settings.merchant))
      409 "Settlement recipient does not match the configured merchant"
  throw_if (not (chains.is_address report.payer)) 400 "Settlement payer and recipient are required"
  throw_if (not (guard (settlement_of chains now report hash)).allowed) 500 "Sensitive data"
  ok (settlement_of chains now report hash)

-- the comparisons of a decoded event with a settlement
abbrev pub pays : Chains → Settlement → Transfer → Bool
pays chains s t =
    str_eq t.event_name "Transfer"
    && t.value == 10000
    && str_eq (chains.get_address t.to) (chains.get_address s.recipient)
    && str_eq (chains.get_address t.from) (chains.get_address s.payer)

abbrev pub paid_by : Chains → Settlement → Option Transfer → Option Transfer
paid_by chains s none = none
paid_by chains s (some t) = if pays chains s t then some t else none

abbrev pub first_of : Option Transfer → Option Transfer → Option Transfer
first_of none rest = rest
first_of (some t) rest = some t

-- `findExactUsdcTransfer`; the addresses of the answer are the event's
unfoldable pub find_exact_usdc_transfer : Network → Chains → List Log → Settlement → Option Transfer
find_exact_usdc_transfer net chains [] s = none
find_exact_usdc_transfer net chains (log ∷ logs) s =
    let rest = find_exact_usdc_transfer net chains logs s in
    if not (str_eq (chains.lower log.address) (chains.lower base_sepolia_usdc))
    then rest
    else first_of (paid_by chains s (net.decode_transfer log)) rest
