-- ===== src/Pilot/Settlement/Sound.antt =====
-- What a verified settlement means on the network.
use stellar_agent_spend_hub.Common.{String, true, some, List, [], ◌∷◌, ◌≡◌, ◌⊎◌}
use stellar_agent_spend_hub.Common.Text.{is_digest}
use stellar_agent_spend_hub.Common.Result.{Result}
use stellar_agent_spend_hub.Pilot.Record.{PilotRecord}
use stellar_agent_spend_hub.Pilot.Service.{Verified}
use stellar_agent_spend_hub.Pilot.Settlement.{
  Network, Completion, Operation, BalanceChange, decimal_to_base_units, decode_contract_address,
  receipt_of,
}

-- Some element of a list has a property.
abbrev pub Any {ℓ} : {A : Type ℓ} → (A → Type 0) → List A → Type 0
Any P [] = ⊥
Any P (x ∷ xs) = P x ⊎ Any P xs

-- A balance change that pays 0.01 USDC, 100000 base units, to a recipient.
pub record Pays (recipient : String) (change : BalanceChange) : Type 0 where
  pub transfer : change.kind ≡ "transfer"
  pub usdc : change.asset_code ≡ "USDC"
  pub to : change.to ≡ recipient
  pub worth : decimal_to_base_units change.amount ≡ some 100000

-- An operation of a successful transaction that calls the asset's contract and pays.
pub record Settles (net : Network) (hash contract recipient : String) (op : Operation)
    : Type 0 where
  pub successful : op.transaction_successful ≡ true
  pub same_transaction : op.transaction_hash ≡ hash
  pub invokes : op.kind ≡ "invoke_host_function"
  pub of_asset : decode_contract_address net op.parameter ≡ some contract
  pub pays : Any (Pays recipient) op.asset_balance_changes

-- What a verified settlement of a request rests on.
pub record IsSettledOn (net : Network) (request : PilotRecord) (v : Verified) : Type 0 where
  pub hash : is_digest v.transaction_hash ≡ true
  pub successful : (net.get_transaction v.transaction_hash).status ≡ "SUCCESS"
  pub paid :
      Any
        (Settles net v.transaction_hash request.asset_contract_id request.recipient)
        (net.get_operations v.transaction_hash).records
  pub same_hash : v.receipt.transaction_hash ≡ v.transaction_hash
  pub same_network : v.receipt.network ≡ request.network
  pub same_asset : v.receipt.asset ≡ request.asset
  pub same_contract : v.receipt.asset_contract_id ≡ request.asset_contract_id
  pub same_amount : v.receipt.amount ≡ request.amount
  pub same_recipient : v.receipt.recipient ≡ request.recipient

module _ (net : Network) (completion : Completion) (request : PilotRecord) where
  abbrev hash_of : String
  hash_of = net.lower completion.transaction_hash

  abbrev answer : Verified
  answer = record {
    transaction_hash = hash_of;
    receipt = receipt_of request completion hash_of;
    settled_at = completion.settled_at;
  }
