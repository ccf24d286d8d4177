-- ===== src/Multichain/Service/Settlements.antt =====
-- A settlement that is verified and recorded (src/multichainService.mjs,
-- `verifyAndRecordSettlement`; src/multichainVerification.mjs).
use stellar_agent_spend_hub.Common.{Bool, true, false, not, some, map, ◌≡◌, arith}
use stellar_agent_spend_hub.Common.Result.{ok}
use stellar_agent_spend_hub.Common.After.{After}
use stellar_agent_spend_hub.Common.Returns.{Returns}
use stellar_agent_spend_hub.ContractAccount.Repository.{to_lower}
use stellar_agent_spend_hub.Pilot.Settlement.Sound.{Any}
use stellar_agent_spend_hub.Multichain.Bridge.{Chains, Settings, base_sepolia_usdc}
use stellar_agent_spend_hub.Multichain.Verification.{
  Network, Log, BaseReceipt, Report, Settlement, Transfer, pays, verify_base_transaction,
}
use stellar_agent_spend_hub.Multichain.Service.{Setup}

-- A settlement made of a report.
record IsClean (chains : Chains) (settings : Settings) (report : Report) (x : Settlement)
    : Type 0 where
  pub hash : x.transaction_hash ≡ map to_lower report.transaction_hash
  pub payer : x.payer ≡ chains.get_address report.payer
  pub recipient : x.recipient ≡ chains.get_address report.recipient
  pub merchant : chains.get_address report.recipient ≡ chains.get_address settings.merchant
  pub units : x.amount_base_units ≡ 10000

not-false : (b : Bool) → not b ≡ false → b ≡ true
not-false b h = ground arith

-- A log of the USDC contract that pays 0.01 USDC, as the settlement says.
pub record IsPayment (setup : Setup) (x : Settlement) (log : Log) : Type 0 where
  pub of_usdc : setup.chains.lower log.address ≡ setup.chains.lower base_sepolia_usdc
  pub transfer : Transfer
  pub decoded : setup.net.decode_transfer log ≡ some transfer
  pub is_transfer : transfer.event_name ≡ "Transfer"
  pub value : transfer.value ≡ x.amount_base_units
  pub to : setup.chains.get_address transfer.to ≡ x.recipient
  pub from : setup.chains.get_address transfer.from ≡ x.payer

-- What a recorded settlement rests on.
pub record IsPaidOn (setup : Setup) (x : Settlement) : Type 0 where
  pub receipt : BaseReceipt
  pub successful : verify_base_transaction setup.net x.transaction_hash ≡ ok receipt
  pub paid : Any (IsPayment setup x) receipt.logs
  pub to_merchant : x.recipient ≡ setup.chains.get_address setup.settings.merchant

-- The log that the search has found.
record IsMatch (net : Network) (chains : Chains) (s : Settlement) (t : Transfer) (log : Log)
    : Type 0 where
  pub of_usdc : chains.lower log.address ≡ chains.lower base_sepolia_usdc
  pub decoded : net.decode_transfer log ≡ some t
  pub paying : pays chains s t ≡ true
