-- ===== src/Multichain/Service/Prepared.antt =====
-- The burn that is prepared for a bridge is the one that is accepted (src/cctpBridgeAdapter.mjs,
-- `prepare`; src/multichainVerification.mjs, `validatePreparedCctpBurn`).
use stellar_agent_spend_hub.Common.{
  ℕ, String, true, not, some, [], ◌∷◌, ◌==◌, map, ◌≡◌, refl, ap, ◌∙◌, ==_iff,
}
use stellar_agent_spend_hub.Common.Text.{Codes, eq_refl}
use stellar_agent_spend_hub.Common.Result.{ok}
use stellar_agent_spend_hub.Common.Returns.{
  Returns, returns, gives_ok, Returns-ok, Returns-throw_if, Returns-bind,
}
use stellar_agent_spend_hub.ContractAccount.Repository.{codes_eq, to_lower}
use stellar_agent_spend_hub.Money.{big_int}
use stellar_agent_spend_hub.Multichain.Bridge.{
  Bridge, BridgeQuote, Burn, Chains, base_sepolia_usdc, is_preparable, prepare_burn,
  validate_forwarding_destination, contract_strkey_to_bytes32, build_cctp_forwarder_hook_data,
}
use stellar_agent_spend_hub.Multichain.Verification.{
  Network, BaseTransaction, same_address, validate_prepared_cctp_burn,
}

-- what a preparation that returns has computed
record IsPrepared (chains : Chains) (b : Bridge) (burn : Burn) : Type 0 where
  pub forwarder : String
  pub of_contract : contract_strkey_to_bytes32 chains b.cctp_forwarder ≡ ok forwarder
  pub hook : Codes
  pub of_destination : build_cctp_forwarder_hook_data chains b.destination_address ≡ ok hook
  pub amount : ℕ
  pub of_amount : big_int b.amount_base_units ≡ ok amount
  pub made : burn ≡ record {
    function_name = "depositForBurnWithHook";
    amount = amount;
    domain = 27;
    mint_recipient = forwarder;
    burn_token = chains.get_address base_sepolia_usdc;
    destination_caller = forwarder;
    max_fee = 0;
    finality = 2000;
    hook_data = hook;
  }

prepare-IsPrepared :
    (chains : Chains) (b : Bridge) (expires_at : Codes)
    → Returns (λ p. IsPrepared chains b p.1) (prepare_burn chains b expires_at)
unfolding prepare_burn
prepare-IsPrepared chains b expires_at =
    Returns-bind (Returns-throw_if (not (is_preparable b.status)) 409 _) (λ _ _.
      Returns-bind
        (returns (validate_forwarding_destination chains b.cctp_forwarder b.destination_address))
        (λ _ _.
          Returns-bind (returns (contract_strkey_to_bytes32 chains b.cctp_forwarder))
            (λ forwarder contract.
              Returns-bind (returns (build_cctp_forwarder_hook_data chains b.destination_address))
                (λ hook destination.
                  Returns-bind (returns (big_int b.amount_base_units)) (λ amount units.
                    gives_ok _ (record {
                      forwarder = forwarder;
                      of_contract = contract;
                      hook = hook;
                      of_destination = destination;
                      amount = amount;
                      of_amount = units;
                      made = refl;
                    }))))))

==_refl : (n : ℕ) → (n == n) ≡ true
==_refl n = (==_iff n n).1 refl

codes_eq_refl : (s : Codes) → codes_eq s s ≡ true
codes_eq_refl [] = refl
codes_eq_refl (c ∷ s) = rw (==_refl c) (codes_eq_refl s)

accepts :
    (net : Network) (chains : Chains) (b : Bridge) (t : BaseTransaction) (forwarder : String)
    (hook : Codes) (amount : ℕ)
    → ((a : String) → chains.get_address (chains.get_address a) ≡ chains.get_address a)
    → b.burn_token ≡ base_sepolia_usdc
    → b.destination_domain ≡ 27
    → b.finality_threshold ≡ 2000
    → contract_strkey_to_bytes32 chains b.cctp_forwarder ≡ ok forwarder
    → build_cctp_forwarder_hook_data chains b.destination_address ≡ ok hook
    → big_int b.amount_base_units ≡ ok amount
    → net.decode_burn t.input
      ≡ some (record {
        function_name = "depositForBurnWithHook";
        amount = amount;
        domain = 27;
        mint_recipient = forwarder;
        burn_token = chains.get_address base_sepolia_usdc;
        destination_caller = forwarder;
        max_fee = 0;
        finality = 2000;
        hook_data = hook;
      })
    → same_address chains t.to b.token_messenger ≡ true
    → same_address chains t.from b.source_address ≡ true
    → validate_prepared_cctp_burn net chains t b ≡ ok tt
unfolding validate_prepared_cctp_burn
accepts net chains b t forwarder hook amount checksum token domain finality contract destination
      units decoded to from =
    rw (
      to,
      from,
      decoded,
      contract,
      units,
      destination,
      domain,
      finality,
      token,
      checksum base_sepolia_usdc,
      ==_refl amount,
      eq_refl (chains.lower forwarder),
      eq_refl (chains.get_address base_sepolia_usdc),
      codes_eq_refl (map to_lower hook),
    )

-- The burn that `prepare` gives for a bridge, sent from its source to its messenger, passes the check
-- before a burn is recorded; where the bridge has the token, the domain and the finality that new
-- bridges get, and the checksummed form of an address is its own.
pub prepared_burn_accepted :
    (net : Network) (chains : Chains) (b : Bridge) (t : BaseTransaction) (expires_at : Codes)
    (quote : BridgeQuote) (burn : Burn)
    → ((a : String) → chains.get_address (chains.get_address a) ≡ chains.get_address a)
    → b.burn_token ≡ base_sepolia_usdc
    → b.destination_domain ≡ 27
    → b.finality_threshold ≡ 2000
    → prepare_burn chains b expires_at ≡ ok (quote, burn)
    → net.decode_burn t.input ≡ some burn
    → same_address chains t.to b.token_messenger ≡ true
    → same_address chains t.from b.source_address ≡ true
    → validate_prepared_cctp_burn net chains t b ≡ ok tt
prepared_burn_accepted net chains b t expires_at quote burn checksum token domain finality done
      decoded to from =
    let p = Returns-ok _ (quote, burn) (prepare-IsPrepared chains b expires_at) done in
    accepts net chains b t p.forwarder p.hook p.amount checksum token domain finality p.of_contract
      p.of_destination p.of_amount (decoded ∙ ap (λ x. some x) p.made) to from
