-- ===== src/ContractAccount/Tests.antt =====
-- Contract accounts at concrete requests, receipts and ceremonies.
use stellar_agent_spend_hub.Common.{
  ◌≤◌, String, false, none, some, List, [], ◌∷◌, take, length, ◌≡◌, arith,
}
use stellar_agent_spend_hub.Common.Text.{codes}
use stellar_agent_spend_hub.ContractAccount.Repository.{
  Accounts, RawReceipt, prepared, save_receipt, list_receipts, sanitize_contract_account_receipt,
}
use stellar_agent_spend_hub.ContractAccount.Repository.Once.{
  Op, consuming, failing, times_consumed, consume_at_most_once,
}
use stellar_agent_spend_hub.ContractAccount.Repository.Ledger.{IsLedger, save_receipt-IsLedger}
use stellar_agent_spend_hub.ContractAccount.Ceremony.{Ceremonies, pending, claim, status}
use stellar_agent_spend_hub.ContractAccount.Ceremony.Lifecycle.{
  Op as CeremonyOp, claiming, completing, times_claimed, claim_at_most_once, claim-status, succeeds,
  answers_pending,
}

abbrev accounts : Accounts
accounts = record {
  requests =
      (
        "request-1",
        record {
          request_id = "request-1";
          status = prepared;
          consumed_at = none;
          error_code = none;
          body = "{}";
        },
      )
      ∷ [];
  receipts = [];
}

-- two callers try to consume the request, with a failure in between
abbrev attempts : List Op
attempts = consuming "request-1" 1000 ∷ failing "request-1" "rpc" ∷ consuming "request-1" 2000 ∷ []

consume_at_most_once_example : times_consumed "request-1" attempts accounts ≤ 1
consume_at_most_once_example =
    consume_at_most_once "request-1" attempts accounts (tt, (tt, (tt, tt)))

abbrev receipt : RawReceipt
receipt = record {
  transaction_hash =
      some (codes "aaaaaaaaaaaaaaaaaaaaaaaaaaaaaaaaAAAAAAAAAAAAAAAAAAAAAAAAAAAAAAAA");
  contract_id = "CACCOUNT";
  action = "transfer";
  asset_contract_id = none;
  destination = none;
  amount = some "5";
  signer_type = "passkey";
  settled_at = "2026-07-01T12:00:00.000Z";
}

empty-IsLedger : IsLedger accounts
empty-IsLedger = record { bounded = omega arith; distinct = tt }

save_receipt-IsLedger_example :
    IsLedger (save_receipt receipt accounts).1
    × (length (list_receipts 5 (save_receipt receipt accounts).1) ≤ 20)
    × (take 1 (list_receipts 5 (save_receipt receipt accounts).1)
        ≡ sanitize_contract_account_receipt receipt ∷ [])
save_receipt-IsLedger_example = save_receipt-IsLedger receipt 5 accounts empty-IsLedger

abbrev ceremony_id : String
ceremony_id = "00000000-0000-4000-8000-00000000000c"

abbrev ceremonies : Ceremonies
ceremonies = record {
  production = false;
  records =
      (
        ceremony_id,
        record {
          ceremony_id = ceremony_id;
          status = pending;
          created_at = 0;
          expires_at = 600000;
          rp_id = "agente-pagos-stellar.vercel.app";
          owner_key_fingerprint = "0123456789abcdef";
          registration = "{}";
          claimed_at = none;
          deployed_at = none;
          failed_at = none;
          contract_id = none;
          transaction_hash = none;
        },
      )
      ∷ [];
}

abbrev claims : List CeremonyOp
claims =
    claiming ceremony_id 1000
    ∷ completing ceremony_id "CACCOUNT" none 2000
    ∷ claiming ceremony_id 3000
    ∷ []

claim_at_most_once_example : times_claimed ceremony_id claims ceremonies ≤ 1
claim_at_most_once_example = claim_at_most_once ceremony_id claims ceremonies (tt, (tt, (tt, tt)))

claim-status_example :
    succeeds (claim ceremony_id 1000 ceremonies).0
    ≡ answers_pending (status ceremony_id 1000 ceremonies)
claim-status_example = claim-status ceremony_id 1000 ceremonies
