-- ===== src/Pilot/Settlement.antt =====
-- The settlement verifier of the pilot (src/pilotService.mjs, `verifyPilotSettlement`). What the
-- network and the SDK answer are arguments.
pub mod Sound
mod Tests
use stellar_agent_spend_hub.Common.{
  ℕ, ◌+◌, ◌-◌, ◌*◌, ◌^◌, String, Bool, true, false, ◌&&◌, ◌||◌, not, Option, none, some, List, [],
  ◌∷◌, ◌==◌, leb, if◌then◌else◌, length, all, any,
}
use stellar_agent_spend_hub.Common.Text.{Codes, codes, str_eq, is_digit, is_digest}
use stellar_agent_spend_hub.Common.Result.{Result, ok, throw, throw_if, ◌>>=◌, ◌>>◌}
use stellar_agent_spend_hub.Common.Decimal.{value}
use stellar_agent_spend_hub.Money.{span}
use stellar_agent_spend_hub.Pilot.Record.{PilotRecord, Receipt}
use stellar_agent_spend_hub.Pilot.Service.{Verified}

-- What the buyer hands in; `settled_at` is the time given, or else the present one.
pub record Completion : Type 0 where
  pub transaction_hash : String
  pub payment_status : String
  pub network : String
  pub asset : String
  pub asset_contract_id : String
  pub amount : String
  pub recipient : String
  pub settled_at : String

pub record BalanceChange : Type 0 where
  pub kind : String
  pub asset_code : String
  pub to : String
  pub amount : Codes

-- An operation as Horizon lists it; `parameter` is the first parameter, if its type is `Address` and
-- its value a text.
pub record Operation : Type 0 where
  pub transaction_successful : Bool
  pub transaction_hash : String
  pub kind : String
  pub parameter : Option String
  pub asset_balance_changes : List BalanceChange

pub record RpcAnswer : Type 0 where
  pub ok_status : Bool
  pub error : Bool
  pub status : String

pub record HorizonAnswer : Type 0 where
  pub ok_status : Bool
  pub records : List Operation

-- The world outside: lower case of a text, whether the configured RPC has the official origin,
-- the two services, the SDK's address of a value, and the scan for sensitive data.
pub record Network : Type 0 where
  pub lower : String → String
  pub official : Bool
  pub get_transaction : String → RpcAnswer
  pub get_operations : String → HorizonAnswer
  pub address : String → Option String
  pub scan : Receipt → Option String

-- the text after the point, of one to seven digits
abbrev fraction_ok : Codes → Bool
fraction_ok f = leb 1 (length f) && leb (length f) 7 && all is_digit f

abbrev units_of_parts : Codes × Codes → Option ℕ
units_of_parts ([], rest) = none
units_of_parts (c ∷ whole, []) = some (value (c ∷ whole) * 10000000)
units_of_parts (c ∷ whole, d ∷ f) =
    if d == b'.' && fraction_ok f
    then some (value (c ∷ whole) * 10000000 + value f * 10 ^ (7 - length f))
    else none

-- `decimalToBaseUnits`
unfoldable pub decimal_to_base_units : Codes → Option ℕ
decimal_to_base_units s = units_of_parts (span s)

-- `===` of two amounts, either of which may be null
abbrev pub units_eq : Option ℕ → Option ℕ → Bool
units_eq none none = true
units_eq none (some n) = false
units_eq (some m) none = false
units_eq (some m) (some n) = m == n

-- `decodeContractAddress`
abbrev pub decode_contract_address : Network → Option String → Option String
decode_contract_address net none = none
decode_contract_address net (some v) = net.address v

abbrev pub is_text : Option String → String → Bool
is_text none t = false
is_text (some s) t = str_eq s t

abbrev pub is_transfer : String → String → BalanceChange → Bool
is_transfer recipient amount change =
    str_eq change.kind "transfer"
    && str_eq change.asset_code "USDC"
    && str_eq change.to recipient
    && units_eq (decimal_to_base_units change.amount) (decimal_to_base_units (codes amount))

-- `verifyTransferOperation`
unfoldable pub verify_transfer_operation :
    Network → String → String → String → String → Operation → Bool
verify_transfer_operation net hash asset_contract_id recipient amount operation =
    operation.transaction_successful
    && str_eq operation.transaction_hash hash
    && str_eq operation.kind "invoke_host_function"
    && is_text (decode_contract_address net operation.parameter) asset_contract_id
    && any (is_transfer recipient amount) operation.asset_balance_changes

abbrev pub receipt_of : PilotRecord → Completion → String → Receipt
receipt_of request completion hash = record {
  protocol = "mpp/stellar-charge@0.7";
  status = completion.payment_status;
  transaction_hash = hash;
  network = completion.network;
  asset = completion.asset;
  asset_contract_id = completion.asset_contract_id;
  amount = completion.amount;
  recipient = completion.recipient;
  provider_id = request.provider_id;
  resource_id = request.resource_id;
  settled_at = completion.settled_at;
}

abbrev pub verified : String → Receipt → Option String → Result Verified
verified hash receipt (some reasons) = throw 400 reasons
verified hash receipt none =
    ok (record { transaction_hash = hash; receipt = receipt; settled_at = receipt.settled_at })

-- `verifyPilotSettlement({ request, completion })`
unfoldable pub verify_pilot_settlement : Network → Completion → PilotRecord → Result Verified
verify_pilot_settlement net completion request =
    let hash = net.lower completion.transaction_hash in
    let receipt = receipt_of request completion hash in
    let rpc = net.get_transaction hash in
    let horizon = net.get_operations hash in
    throw_if (not (is_digest hash)) 400 "Invalid settlement transaction hash"
    >> throw_if (not (str_eq receipt.status "success" || str_eq receipt.status "settled")) 409
        "MPP receipt is not settled"
    >> throw_if (not (str_eq receipt.network request.network)) 409 "MPP receipt network mismatch"
    >> throw_if (not (str_eq receipt.asset request.asset)) 409 "MPP receipt asset mismatch"
    >> throw_if (not (str_eq receipt.asset_contract_id request.asset_contract_id)) 409
        "MPP receipt assetContractId mismatch"
    >> throw_if (not (str_eq receipt.amount request.amount)) 409 "MPP receipt amount mismatch"
    >> throw_if (not (str_eq receipt.recipient request.recipient)) 409
        "MPP receipt recipient mismatch"
    >> throw_if (not net.official) 409 "Only official testnet RPC is allowed"
    >> throw_if (not rpc.ok_status) 503 "Stellar RPC transaction verification is unavailable"
    >> throw_if (rpc.error || not (str_eq rpc.status "SUCCESS")) 409
        "Settlement is not successful on Stellar testnet"
    >> throw_if (not horizon.ok_status) 503 "Horizon operation verification is unavailable"
    >> throw_if
        (not (
          any
            (verify_transfer_operation net hash request.asset_contract_id request.recipient
              request.amount)
            horizon.records))
        409 "Transaction does not contain the approved USDC transfer"
    >> verified hash receipt (net.scan receipt)
