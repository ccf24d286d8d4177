-- ===== src/Multichain/Service/Stale.antt =====
-- A message of Circle that arrives after the bridge has moved on (src/multichainService.mjs,
-- `bridgeStatus`).
use stellar_agent_spend_hub.Common.{ℕ, ◌+◌, String, Bool, false, some, ◌≡◌, refl}
use stellar_agent_spend_hub.Common.Text.{Codes}
use stellar_agent_spend_hub.Common.Result.{ok}
use stellar_agent_spend_hub.Common.Map.{get-set_self}
use stellar_agent_spend_hub.Multichain.Repository.{lookup}
use stellar_agent_spend_hub.Multichain.Repository.Written.{update_alone}
use stellar_agent_spend_hub.Multichain.Bridge.{Bridge, Chains, stored_bridge}
use stellar_agent_spend_hub.Multichain.Verification.{
  CircleMessage, read_circle_message, circle_destination_hash, apply_circle_status,
}
use stellar_agent_spend_hub.Multichain.Service.{
  Setup, World, Bridges, bridge_status, require_bridge, is_done, status_change, verified_hash,
}

still_attesting :
    (chains : Chains) (b : Bridge) (message : CircleMessage) (now : Codes) (verified : Bool)
    → chains.lower message.status ≡ "pending_confirmations"
    → (apply_circle_status chains b message now verified).status ≡ "attesting"
unfolding apply_circle_status
still_attesting chains b message now verified h = rw h refl

-- When the status of a bridge that is not done is asked for and Circle answers that confirmations are
-- pending, the bridge is put to "attesting" whatever its status is after the wait for that answer, a
-- settled bridge included, if no call comes in between then.
pub stale_message :
    (setup : Setup) (w : World) (id : String) (s : Bridges) (b b' : Bridge) (hash : Codes)
    (message : CircleMessage)
    → require_bridge id s ≡ (ok b, s)
    → b.burn_transaction_hash ≡ some hash
    → is_done b.status ≡ false
    → read_circle_message setup.net hash ≡ some message
    → setup.chains.lower message.status ≡ "pending_confirmations"
    → lookup id (w.between s) ≡ some b'
    → ((n : ℕ) (u : Bridges) → w.others n u ≡ u)
    → (r : Bridge) × (lookup id (bridge_status setup w id s).1 ≡ some r) × (r.status ≡ "attesting")
unfolding bridge_status
stale_message setup w id s b b' hash message found burned open_yet answer pending there quiet =
    let verified = verified_hash setup (circle_destination_hash message) in
    let applied = apply_circle_status setup.chains b' message w.now verified in
    let next : Bridge = stored_bridge.stamp_with (b'.version + 1) (w.stamp 7) applied in
    let written =
      update_alone stored_bridge id (status_change setup w message) w.stamp w.others (w.between s)
        b' applied quiet there refl in
    (
      next,
      rw (found, burned, open_yet, answer, written) (get-set_self id next (w.between s).memory),
      still_attesting setup.chains b' message w.now verified pending,
    )
