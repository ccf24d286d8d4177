-- ===== src/Multichain/Service.antt =====
-- The calls of the multichain service (src/multichainService.mjs).
pub mod Burns
pub mod Settlements
pub mod Stale
pub mod Prepared
mod Tests
use stellar_agent_spend_hub.Common.{
  ℕ, String, Bool, true, false, ◌&&◌, ◌||◌, not, ◌==◌, Option, none, some, List, [], ◌∷◌, map,
  filter, if◌then◌else◌, ◌++◌,
}
use stellar_agent_spend_hub.Common.Text.{Codes, codes, str_eq, is_run, is_digit}
use stellar_agent_spend_hub.Common.Result.{Result, ok, err, throw}
use stellar_agent_spend_hub.Common.Action.{
  Action, ◌>>=◌, ◌>>◌, pure, raise, raise_if, lift, gets, modify,
}
use stellar_agent_spend_hub.ContractAccount.Repository.{is_hex}
use stellar_agent_spend_hub.Domain.{Scan}
use stellar_agent_spend_hub.Multichain.Repository.{Shelf, Stored, lookup, create, update, list}
use stellar_agent_spend_hub.Multichain.Bridge.{
  Bridge, PublicBridge, bridge_view, BridgeQuote, Burn, Chains, Settings, stored_bridge,
  create_bridge_intent, prepare_burn, is_preparable,
}
use stellar_agent_spend_hub.Multichain.Verification.{
  Network, CircleMessage, BaseReceipt, BaseTransaction, Report, Settlement, Transfer,
  validate_evm_hash, verify_base_transaction, read_base_transaction, read_circle_message,
  circle_destination_hash, verify_stellar_destination_transaction, apply_circle_status,
  verified_burn, sanitize_settlement, find_exact_usdc_transfer,
}

-- The service's dependencies, its environment and its scans for sensitive data.
pub record Setup : Type 0 where
  pub chains : Chains
  pub net : Network
  pub settings : Settings
  pub bridge_guard : Bridge → Scan
  pub view_guard : PublicBridge → Scan
  pub settlement_guard : Settlement → Scan

-- The surroundings of a call: the time, and what other calls do to the bridges while it waits for the
-- networks, and between the read and the write of each attempt.
pub record World : Type 0 where
  pub now : Codes
  pub stamp : ℕ → Codes
  pub between : Shelf Bridge → Shelf Bridge
  pub others : ℕ → Shelf Bridge → Shelf Bridge

abbrev pub Bridges : Type 0
Bridges = Shelf Bridge

-- `/^[0-9a-f-]{36}$/i`
abbrev pub is_bridge_id : String → Bool
is_bridge_id id = is_run 36 36 (λ c. is_hex c || c == b'-') (codes id)

abbrev pub bridge_or_404 : Option Bridge → Result Bridge
bridge_or_404 none = throw 404 "Bridge not found"
bridge_or_404 (some b) = ok b

-- `requireBridge`
unfoldable pub require_bridge : String → Action Bridges Bridge
require_bridge id s =
    if not (is_bridge_id id)
    then (throw 400 "Invalid bridge id", s)
    else (bridge_or_404 (lookup id s), s)

-- `publicBridge`
unfoldable pub public_bridge : Setup → Bridge → Result PublicBridge
public_bridge setup b =
    if (setup.view_guard (bridge_view b)).allowed
    then ok (bridge_view b)
    else throw 500 "Sensitive data"

-- `createBridge`; `id` is the new UUID
unfoldable pub create_bridge : Setup → World → String → String → Codes → Action Bridges PublicBridge
create_bridge setup w id source_address amount = do
  raise_if (not setup.settings.cctp_enabled) 503 "CCTP bridge is disabled"
  intent ← lift (
      create_bridge_intent setup.chains setup.settings setup.bridge_guard id w.now source_address
        amount)
  b ← create id intent
  lift (public_bridge setup b)

abbrev pub prepare_change : BridgeQuote → Bridge → Result Bridge
prepare_change quote b =
    if not (is_preparable b.status)
    then throw 409 "Bridge is not preparable"
    else ok (record b { status = "prepared"; quote = some quote })

-- `prepareBridge`, with the burn that is to be signed
unfoldable pub prepare_bridge :
    Setup → World → String → Codes → Action Bridges (Burn × PublicBridge)
prepare_bridge setup w id expires_at = do
  intent ← require_bridge id
  (quote, burn) ← lift (prepare_burn setup.chains intent expires_at)
  b ← update stored_bridge id (prepare_change quote) w.stamp w.others
  shown ← lift (public_bridge setup b)
  pure (burn, shown)

abbrev pub burn_change : Codes → String → Bridge → Result Bridge
burn_change hash block_number b =
    if not (str_eq b.status "prepared")
    then throw 409 "Bridge burn was already recorded"
    else ok (record b {
      status = "burn_submitted";
      burn_transaction_hash = some hash;
      burn_block_number = some block_number;
      attestation_status = some "pending";
    })

-- `recordBurn`
unfoldable pub record_burn : Setup → World → String → Codes → Action Bridges PublicBridge
record_burn setup w id transaction_hash = do
  raise_if (not setup.settings.cctp_submit_enabled) 409 "CCTP submit gate is closed"
  intent ← require_bridge id
  raise_if (not (str_eq intent.status "prepared")) 409
      "Bridge must be prepared before recording burn"
  (hash, receipt) ← lift (verified_burn setup.net setup.chains intent transaction_hash)
  modify w.between
  b ← update stored_bridge id (burn_change hash receipt.block_number) w.stamp w.others
  lift (public_bridge setup b)

abbrev pub verified_hash : Setup → Option Codes → Bool
verified_hash setup none = false
verified_hash setup (some hash) = verify_stellar_destination_transaction setup.net hash

-- the change of `bridgeStatus`, whatever the status of the record
abbrev pub status_change : Setup → World → CircleMessage → Bridge → Result Bridge
status_change setup w message b = ok (
    apply_circle_status setup.chains b message w.now
      (verified_hash setup (circle_destination_hash message)))

abbrev pub is_done : String → Bool
is_done status = str_eq status "settled" || str_eq status "failed" || str_eq status "manual_review"

abbrev pub apply_message :
    Setup → World → String → Bridge → Option CircleMessage → Action Bridges Bridge
apply_message setup w id intent none = do modify w.between; pure intent
apply_message setup w id intent (some message) = do
  modify w.between
  update stored_bridge id (status_change setup w message) w.stamp w.others

abbrev pub follow : Setup → World → String → Bridge → Option Codes → Action Bridges Bridge
follow setup w id intent none = pure intent
follow setup w id intent (some hash) =
    if is_done intent.status
    then pure intent
    else apply_message setup w id intent (read_circle_message setup.net hash)

-- `bridgeStatus`
unfoldable pub bridge_status : Setup → World → String → Action Bridges PublicBridge
bridge_status setup w id = do
  intent ← require_bridge id
  b ← follow setup w id intent intent.burn_transaction_hash
  lift (public_bridge setup b)

-- `recordSettlement`
unfoldable pub record_settlement : Setup → Codes → Report → Action (Shelf Settlement) Settlement
record_settlement setup now report = do
  safe ← lift (sanitize_settlement setup.chains setup.settings setup.settlement_guard now report)
  create safe.id safe

abbrev pub transfer_or_409 : Option Transfer → Result Transfer
transfer_or_409 none = throw 409 "No exact 0.01 USDC transfer matches this settlement"
transfer_or_409 (some t) = ok t

-- a settlement with the addresses of its transfer, as it is recorded
abbrev pub report_of : Chains → Settlement → Transfer → Report
report_of chains safe t = record {
  id = some safe.id;
  network = safe.network;
  transaction_hash = safe.transaction_hash;
  asset_id = safe.asset_id;
  payer = chains.get_address t.from;
  recipient = chains.get_address t.to;
  settled_at = some safe.settled_at;
}

-- `verifyAndRecordSettlement`
unfoldable pub verify_and_record_settlement :
    Setup → Codes → Report → Action (Shelf Settlement) Settlement
verify_and_record_settlement setup now report = do
  safe ← lift (sanitize_settlement setup.chains setup.settings setup.settlement_guard now report)
  transaction ← lift (verify_base_transaction setup.net safe.transaction_hash)
  transfer ←
      lift (transfer_or_409 (find_exact_usdc_transfer setup.net setup.chains transaction.logs safe))
  record_settlement setup now (report_of setup.chains safe transfer)

-- What `evidence` shows: a settlement, or a bridge that is settled.
pub data Evidence : Type 0 where
  settlement_evidence : Settlement → Evidence
  bridge_evidence : PublicBridge → Evidence

abbrev put_before : Result Evidence → Result (List Evidence) → Result (List Evidence)
put_before (err e) rest = err e
put_before (ok first) (err e) = err e
put_before (ok first) (ok rest) = ok (first ∷ rest)

abbrev shown_bridge : Result PublicBridge → Result Evidence
shown_bridge (err e) = err e
shown_bridge (ok b) = ok (bridge_evidence b)

abbrev both : Result (List Evidence) → Result (List Evidence) → Result (List Evidence)
both (err e) bridges = err e
both (ok settlements) (err e) = err e
both (ok settlements) (ok bridges) = ok (settlements ++ bridges)

abbrev settlements_of : List (Option Settlement) → Result (List Evidence)
settlements_of [] = ok []
settlements_of (none ∷ rest) = throw 500 "Cannot read properties of null"
settlements_of (some s ∷ rest) = put_before (ok (settlement_evidence s)) (settlements_of rest)

abbrev bridges_of : Setup → List (Option Bridge) → Result (List Evidence)
bridges_of setup [] = ok []
bridges_of setup (none ∷ rest) = throw 500 "Cannot read properties of null"
bridges_of setup (some b ∷ rest) =
    let later = bridges_of setup rest in
    if str_eq b.status "settled"
    then put_before (shown_bridge (public_bridge setup b)) later
    else later

-- `evidence`: the newest twenty of each kind
unfoldable pub evidence : Setup → Bridges → Shelf Settlement → Result (List Evidence)
evidence setup bridges settlements =
    both (settlements_of (list 20 settlements)) (bridges_of setup (list 20 bridges))
