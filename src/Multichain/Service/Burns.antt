-- ===== src/Multichain/Service/Burns.antt =====
-- A burn that is recorded for a bridge (src/multichainService.mjs, `recordBurn`;
-- src/multichainVerification.mjs, `validatePreparedCctpBurn`).
use stellar_agent_spend_hub.Common.{
  ℕ, String, Bool, true, false, ◌&&◌, not, Option, none, some, map, ◌≡◌, sym, ap, subst, ◌∙◌, arith,
  inl, inr, Bool-cases, and-eq-true, ==_iff,
}
use stellar_agent_spend_hub.Common.Text.{Codes, str_eq, eq_iff}
use stellar_agent_spend_hub.Common.Result.{ok, throw}
use stellar_agent_spend_hub.Common.After.{
  After, After-bind, After-lift, After-raise_if, After-weaken, After-ok,
}
use stellar_agent_spend_hub.Common.Returns.{
  gives_ok, Returns, returns, Returns-ok, Returns-throw_if, Returns-bind, Returns-weaken,
}
use stellar_agent_spend_hub.ContractAccount.Repository.{codes_eq, to_lower}
use stellar_agent_spend_hub.Money.{big_int}
use stellar_agent_spend_hub.Multichain.Repository.{lookup}
use stellar_agent_spend_hub.Multichain.Repository.Written.{IsWritten, update-IsWritten}
use stellar_agent_spend_hub.Multichain.Bridge.{
  Bridge, PublicBridge, bridge_view, Burn, Chains, stored_bridge, contract_strkey_to_bytes32,
  build_cctp_forwarder_hook_data,
}
use stellar_agent_spend_hub.Multichain.Verification.{
  Network, BaseTransaction, BaseReceipt, same_address, matches, decoded_or_409,
  validate_prepared_cctp_burn, verified_burn, validate_evm_hash, verify_base_transaction,
  read_base_transaction,
}
use stellar_agent_spend_hub.Multichain.Service.{
  Setup, World, Bridges, record_burn, burn_change, is_bridge_id, require_bridge, bridge_or_404,
  public_bridge,
}

-- The transaction burns what the bridge was prepared for.
pub record IsBurn (net : Network) (chains : Chains) (t : BaseTransaction) (b : Bridge)
    : Type 0 where
  pub to_messenger : same_address chains t.to b.token_messenger ≡ true
  pub from_source : same_address chains t.from b.source_address ≡ true
  pub burn : Burn
  pub decoded : net.decode_burn t.input ≡ some burn
  pub named : burn.function_name ≡ "depositForBurnWithHook"
  pub amount : big_int b.amount_base_units ≡ ok burn.amount
  pub domain : burn.domain ≡ b.destination_domain
  pub forwarder : String
  pub of_contract : contract_strkey_to_bytes32 chains b.cctp_forwarder ≡ ok forwarder
  pub mints_to : chains.lower burn.mint_recipient ≡ chains.lower forwarder
  pub calls : chains.lower burn.destination_caller ≡ chains.lower forwarder
  pub token : chains.get_address burn.burn_token ≡ chains.get_address b.burn_token
  pub no_fee : burn.max_fee ≡ 0
  pub finality : burn.finality ≡ b.finality_threshold
  pub hook : Codes
  pub of_destination : build_cctp_forwarder_hook_data chains b.destination_address ≡ ok hook
  pub same_hook : codes_eq (map to_lower burn.hook_data) (map to_lower hook) ≡ true

not-false : (b : Bool) → not b ≡ false → b ≡ true
not-false b h = ground arith

decoded-eq : (o : Option Burn) (burn : Burn) → decoded_or_409 o ≡ ok burn → o ≡ some burn
decoded-eq none burn h = cc
decoded-eq (some x) burn h = cc

burn_facts :
    (net : Network) (chains : Chains) (t : BaseTransaction) (b : Bridge) (burn : Burn)
    (forwarder : String) (amount : ℕ) (hook : Codes)
    → (same_address chains t.to b.token_messenger && same_address chains t.from b.source_address)
      ≡ true
    → net.decode_burn t.input ≡ some burn
    → str_eq burn.function_name "depositForBurnWithHook" ≡ true
    → contract_strkey_to_bytes32 chains b.cctp_forwarder ≡ ok forwarder
    → big_int b.amount_base_units ≡ ok amount
    → matches chains b (chains.lower forwarder) amount burn ≡ true
    → build_cctp_forwarder_hook_data chains b.destination_address ≡ ok hook
    → codes_eq (map to_lower burn.hook_data) (map to_lower hook) ≡ true
    → IsBurn net chains t b
burn_facts net chains t b burn forwarder amount hook addresses decoded named contract units h of
      hooked =
    let (to, from) = and-eq-true _ _ addresses in
    let (h, finality) = and-eq-true _ _ h in
    let (h, fee) = and-eq-true _ _ h in
    let (h, caller) = and-eq-true _ _ h in
    let (h, token) = and-eq-true _ _ h in
    let (h, mint) = and-eq-true _ _ h in
    let (worth, domain) = and-eq-true _ _ h in
    record {
      to_messenger = to;
      from_source = from;
      burn = burn;
      decoded = decoded;
      named = (eq_iff _ _).0 named;
      amount = units ∙ ap (λ n. ok n) (sym ((==_iff _ _).0 worth));
      domain = (==_iff _ _).0 domain;
      forwarder = forwarder;
      of_contract = contract;
      mints_to = (eq_iff _ _).0 mint;
      calls = (eq_iff _ _).0 caller;
      token = (eq_iff _ _).0 token;
      no_fee = (==_iff _ _).0 fee;
      finality = (==_iff _ _).0 finality;
      hook = hook;
      of_destination = of;
      same_hook = hooked;
    }

validate-IsBurn :
    (net : Network) (chains : Chains) (t : BaseTransaction) (b : Bridge)
    → Returns (λ u. IsBurn net chains t b) (validate_prepared_cctp_burn net chains t b)
unfolding validate_prepared_cctp_burn
validate-IsBurn net chains t b =
    Returns-bind
      (Returns-throw_if
        (not (
          same_address chains t.to b.token_messenger
          && same_address chains t.from b.source_address))
        409 _)
      (λ _ addresses.
        Returns-bind (returns (decoded_or_409 (net.decode_burn t.input))) (λ burn decoded.
          Returns-bind
            (Returns-throw_if (not (str_eq burn.function_name "depositForBurnWithHook")) 409 _)
            (λ _ named.
              Returns-bind (returns (contract_strkey_to_bytes32 chains b.cctp_forwarder))
                (λ forwarder contract.
                  Returns-bind (returns (big_int b.amount_base_units)) (λ amount units.
                    Returns-bind
                      (Returns-throw_if
                        (not (matches chains b (chains.lower forwarder) amount burn)) 409 _)
                      (λ _ matching.
                        Returns-bind
                          (returns (build_cctp_forwarder_hook_data chains b.destination_address))
                          (λ hook of.
                            Returns-weaken
                              (λ _ hooked.
                                burn_facts net chains t b burn forwarder amount hook
                                  (not-false _ addresses) (decoded-eq _ burn decoded)
                                  (not-false _ named) contract units (not-false _ matching) of
                                  (not-false _ hooked))
                              (Returns-throw_if
                                (not (codes_eq (map to_lower burn.hook_data) (map to_lower hook)))
                                409 _))))))))

-- The checks that a burn has passed, with its hash and its receipt.
pub record IsVerified (net : Network) (chains : Chains) (b : Bridge) (transaction_hash : Codes)
    (hash : Codes) (receipt : BaseReceipt) : Type 0 where
  pub valid : validate_evm_hash transaction_hash ≡ ok hash
  pub successful : verify_base_transaction net hash ≡ ok receipt
  pub transaction : BaseTransaction
  pub read : read_base_transaction net hash ≡ ok transaction
  pub burns : IsBurn net chains transaction b

verified_burn-IsVerified :
    (net : Network) (chains : Chains) (b : Bridge) (transaction_hash : Codes)
    → Returns
        (λ p. IsVerified net chains b transaction_hash p.0 p.1)
        (verified_burn net chains b transaction_hash)
unfolding verified_burn
verified_burn-IsVerified net chains b transaction_hash =
    Returns-bind (returns (validate_evm_hash transaction_hash)) (λ hash valid.
      Returns-bind (returns (verify_base_transaction net hash)) (λ receipt successful.
        Returns-bind (returns (read_base_transaction net hash)) (λ transaction read.
          Returns-bind (validate-IsBurn net chains transaction b) (λ _ burns.
            gives_ok (hash, receipt)
              (record {
                valid = valid;
                successful = successful;
                transaction = transaction;
                read = read;
                burns = burns;
              })))))

-- What a recorded burn rests on, and what it has written.
pub record IsRecorded (setup : Setup) (w : World) (id : String) (transaction_hash : Codes)
    (s : Bridges) (v : PublicBridge) (t : Bridges) : Type 0 where
  pub intent : Bridge
  pub found : lookup id s ≡ some intent
  pub prepared : intent.status ≡ "prepared"
  pub hash : Codes
  pub receipt : BaseReceipt
  pub checked : IsVerified setup.net setup.chains intent transaction_hash hash receipt
  pub bridge : Bridge
  pub write :
      IsWritten stored_bridge id
        (burn_change hash receipt.block_number)
        w.stamp
        w.others
        (w.between s)
        bridge
        t
  pub still_prepared : write.current.status ≡ "prepared"
  pub shown : v ≡ bridge_view bridge

found_bridge : (o : Option Bridge) (b : Bridge) → bridge_or_404 o ≡ ok b → o ≡ some b
found_bridge none b h = cc
found_bridge (some x) b h = cc

pub require_bridge-After :
    (id : String) (s : Bridges)
    → After (λ b t. (lookup id s ≡ some b) × (t ≡ s)) (λ t. Unit) (require_bridge id s)
unfolding require_bridge
require_bridge-After id s = elim (Bool-cases (is_bridge_id id)) [
  | inr bad ↦ rw (bad) (record { holds = tt })
  | inl good ↦ rw (good) (
      After-weaken (λ b t (e, same). (found_bridge (lookup id s) b e, same)) (λ t u. tt)
        (After-lift {R = λ t. Unit {0}} (bridge_or_404 (lookup id s)) s tt))
]

burn_change-prepared :
    (hash : Codes) (block_number : String) (b c : Bridge)
    → burn_change hash block_number b ≡ ok c
    → b.status ≡ "prepared"
burn_change-prepared hash block_number b c h = elim (Bool-cases (str_eq b.status "prepared")) [
  | inl e ↦ (eq_iff _ _).0 e
  | inr e ↦ absurd (refused (rw (e) at h))
]
  where
    refused : throw {A = Bridge} 409 "Bridge burn was already recorded" ≡ ok c → ⊥
    refused k = cc

pub public_bridge-eq :
    (setup : Setup) (b : Bridge) (v : PublicBridge)
    → public_bridge setup b ≡ ok v
    → v ≡ bridge_view b
unfolding public_bridge
public_bridge-eq setup b v h = elim (Bool-cases (setup.view_guard (bridge_view b)).allowed) [
  | inl e ↦ shown (rw (e) at h)
  | inr e ↦ absurd (refused (rw (e) at h))
]
  where
    shown : ok (bridge_view b) ≡ ok v → v ≡ bridge_view b
    shown k = cc

    refused : throw {A = PublicBridge} 500 "Sensitive data" ≡ ok v → ⊥
    refused k = cc

-- The call with an open gate.
module _ (setup : Setup) (w : World) (id : String) (transaction_hash : Codes) (s : Bridges) where
  record_burn-After :
      After
        (IsRecorded setup w id transaction_hash s)
        (λ t. Unit)
        (record_burn setup w id transaction_hash s)
  unfolding record_burn
  record_burn-After =
      After-bind (After-raise_if (not setup.settings.cctp_submit_enabled) 409 _ s tt)
        (λ _ a (_, at_s). After-bind (require_bridge-After id a) (λ intent b (there, at_b).
          After-bind (After-raise_if (not (str_eq intent.status "prepared")) 409 _ b tt)
            (λ _ c (is, at_c).
              After-bind
                (After-lift (verified_burn setup.net setup.chains intent transaction_hash) c tt)
                (λ (hash, receipt) d (done, at_d).
                  let checked =
                    Returns-ok _ (hash, receipt)
                      (verified_burn-IsVerified setup.net setup.chains intent transaction_hash)
                      done in
                  let change = burn_change hash receipt.block_number in
                  After-bind
                    (update-IsWritten stored_bridge id change w.stamp w.others (w.between d))
                    (λ bridge e write.
                      After-weaken
                        (λ v t (shown, at_e).
                          let kept : d ≡ s = at_d ∙ at_c ∙ at_b ∙ at_s in
                          let write' : IsWritten stored_bridge id change w.stamp w.others
                              (w.between s) bridge t =
                            subst
                              (λ x.
                                IsWritten stored_bridge id change w.stamp w.others (w.between x)
                                  bridge t)
                              kept
                              (subst
                                (IsWritten stored_bridge id change w.stamp w.others (w.between d)
                                  bridge)
                                (sym at_e) write) in
                          record {
                            intent = intent;
                            found = ap (lookup id) (sym at_s) ∙ there;
                            prepared = (eq_iff _ _).0 (not-false _ is);
                            hash = hash;
                            receipt = receipt;
                            checked = checked;
                            bridge = bridge;
                            write = write';
                            still_prepared =
                                burn_change-prepared hash receipt.block_number write'.current
                                  write'.changed write'.mutated;
                            shown = public_bridge-eq setup bridge v shown;
                          })
                        (λ t (u : Unit {0}). u) (After-lift (public_bridge setup bridge) e tt))))))

  -- A burn that is recorded was sent in a successful transaction from the bridge's source to its
  -- messenger, whose calldata burns the bridge's amount of its token, without a fee, for its forwarder
  -- and its destination; the bridge was prepared when the call read it, and prepared again in the record
  -- that one of the attempts of the update read and noted the burn on, over a live record of the same
  -- version.
  pub record_burn-IsRecorded :
      (v : PublicBridge) (t : Bridges)
      → record_burn setup w id transaction_hash s ≡ (ok v, t)
      → IsRecorded setup w id transaction_hash s v t
  record_burn-IsRecorded v t done =
      After-ok (record_burn setup w id transaction_hash s) v t record_burn-After done
