-- ===== src/ContractAccount/Repository.antt =====
-- The repository of contract account requests and receipts in memory
-- (src/contractAccountRepository.mjs). What a request holds beside its status is its `body`.
pub mod Once
pub mod Ledger
use stellar_agent_spend_hub.Common.{
  ℕ, ◌+◌, max, min, String, Bool, true, false, ◌&&◌, ◌||◌, not, Option, none, some, List, [], ◌∷◌,
  ◌==◌, leb, if◌then◌else◌, filter, take, map,
}
use stellar_agent_spend_hub.Common.Text.{Codes, is_run, is_digit, is_upper}
use stellar_agent_spend_hub.Common.Result.{Result, ok, err, throw}
use stellar_agent_spend_hub.Common.Map.{Map, get, set}

pub data RequestStatus : Type 0 where
  prepared submitting failed : RequestStatus

pub record Request : Type 0 where
  pub request_id : String
  pub status : RequestStatus
  pub consumed_at : Option ℕ
  pub error_code : Option String
  pub body : String

-- What the caller of `saveReceipt` gives; an absent text is `none`.
pub record RawReceipt : Type 0 where
  pub transaction_hash : Option Codes
  pub contract_id : String
  pub action : String
  pub asset_contract_id : Option String
  pub destination : Option String
  pub amount : Option String
  pub signer_type : String
  pub settled_at : String

pub record SafeReceipt : Type 0 where
  pub protocol : String
  pub status : String
  pub network : String
  pub transaction_hash : Option Codes
  pub contract_id : String
  pub action : String
  pub asset_contract_id : Option String
  pub destination : Option String
  pub amount : Option String
  pub policy_decision : String
  pub signer_type : String
  pub settled_at : String

pub record Accounts : Type 0 where
  pub requests : Map Request
  pub receipts : List SafeReceipt

abbrev pub is_prepared : RequestStatus → Bool
is_prepared prepared = true
is_prepared other = false

pub save_request : Request → Accounts → Accounts
save_request value s = record s { requests = set value.request_id value s.requests }

pub get_request : String → Accounts → Option Request
get_request request_id s = get request_id s.requests

abbrev pub consume_found : String → ℕ → Accounts → Option Request → Result Request × Accounts
consume_found request_id now s none = (throw 404 "Contract account request not found or expired", s)
consume_found request_id now s (some current) =
    if not (is_prepared current.status)
    then (throw 409 "Contract account request already consumed", s)
    else (
      ok current,
      record s {
        requests =
            set request_id (record current { status = submitting; consumed_at = some now })
              s.requests;
      },
    )

-- `consumeRequest(requestId, now)`
pub consume_request : String → ℕ → Accounts → Result Request × Accounts
consume_request request_id now s = consume_found request_id now s (get request_id s.requests)

abbrev pub fail_found : String → String → Accounts → Option Request → Accounts
fail_found request_id error_code s none = s
fail_found request_id error_code s (some current) = record s {
  requests =
      set request_id (record current { status = failed; error_code = some error_code }) s.requests;
}

-- `markFailed(requestId, errorCode)`
pub mark_failed : String → String → Accounts → Accounts
mark_failed request_id error_code s = fail_found request_id error_code s (get_request request_id s)

-- `/[a-f0-9]/i`
abbrev pub is_hex : ℕ → Bool
is_hex c = is_digit c || (leb b'a' c && leb c b'f') || (leb b'A' c && leb c b'F')

abbrev pub to_lower : ℕ → ℕ
to_lower c = if is_upper c then c + 32 else c

abbrev pub safe_hash : Option Codes → Option Codes
safe_hash none = none
safe_hash (some hash) = if is_run 64 64 is_hex hash then some (map to_lower hash) else none

unfoldable pub sanitize_contract_account_receipt : RawReceipt → SafeReceipt
sanitize_contract_account_receipt receipt = record {
  protocol = "soroban-contract-account-v1";
  status = "settled";
  network = "stellar:testnet";
  transaction_hash = safe_hash receipt.transaction_hash;
  contract_id = receipt.contract_id;
  action = receipt.action;
  asset_contract_id = receipt.asset_contract_id;
  destination = receipt.destination;
  amount = receipt.amount;
  policy_decision = "allow";
  signer_type = receipt.signer_type;
  settled_at = receipt.settled_at;
}

abbrev pub codes_eq : Codes → Codes → Bool
codes_eq [] [] = true
codes_eq [] (d ∷ t) = false
codes_eq (c ∷ s) [] = false
codes_eq (c ∷ s) (d ∷ t) = c == d && codes_eq s t

-- `left === right` of two hashes, either of which may be null
abbrev pub hash_eq : Option Codes → Option Codes → Bool
hash_eq none none = true
hash_eq none (some t) = false
hash_eq (some s) none = false
hash_eq (some s) (some t) = codes_eq s t

-- `saveReceipt` where the repository has no remote store
pub save_receipt : RawReceipt → Accounts → SafeReceipt × Accounts
save_receipt receipt s =
    let safe = sanitize_contract_account_receipt receipt in
    (
      safe,
      record s {
        receipts = take 100 (
            safe
            ∷ filter (λ item. not (hash_eq item.transaction_hash safe.transaction_hash))
                s.receipts);
      },
    )

-- `Number(limit) || 20`
abbrev or_twenty : ℕ → ℕ
or_twenty limit = if limit == 0 then 20 else limit

pub list_receipts : ℕ → Accounts → List SafeReceipt
list_receipts limit s = take (min 20 (max 1 (or_twenty limit))) s.receipts
