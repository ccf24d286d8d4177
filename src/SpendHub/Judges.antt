-- ===== src/SpendHub/Judges.antt =====
-- The adapters that judge an intent: legal context, privacy proof, crypto action, DeFi allocation
-- (src/legalContextAdapter.mjs, zkCommitmentAdapter.mjs, cryptoActionAdapter.mjs, defindexAdapter.mjs),
-- and the directory and the vault (src/providerDirectoryAdapter.mjs, privacyVaultAdapter.mjs).
use Prim.Native.String.{◌++◌ as text_append}
use stellar_agent_spend_hub.Common.{
  ℕ, String, Bool, true, false, not, Option, none, some, List, [], ◌∷◌, ◌++◌, ltb, if◌then◌else◌,
  find, take, drop,
}
use stellar_agent_spend_hub.Common.Text.{Codes, codes, str_eq}
use stellar_agent_spend_hub.Common.Result.{Result, ok, ◌>>=◌}
use stellar_agent_spend_hub.Common.Map.{Map, get}
use stellar_agent_spend_hub.Domain.Amounts.{exceeds}
use stellar_agent_spend_hub.Domain.{Policy, Decision, starts_with, listed, is_empty}
use stellar_agent_spend_hub.SpendHub.Intent.{
  SpendIntent, Provider, CryptoAction, DefiAllocation, or_else, defi_allocate,
}

-- SHA-256 as `0x` and hexadecimal characters, and the lower case of a text.
pub record Runtime : Type 0 where
  pub sha256 : String → String
  pub lower : String → String

-- reasons and evidence of a judge
abbrev Notes : Type 0
Notes = List String × List String

abbrev judge : Bool → String → String → Notes → Notes
judge true reason proof (reasons, evidence) = (reasons ++ (reason ∷ []), evidence)
judge false reason proof (reasons, evidence) = (reasons, evidence ++ (proof ∷ []))

abbrev object : Bool → String → Notes → Notes
object true reason (reasons, evidence) = (reasons ++ (reason ∷ []), evidence)
object false reason notes = notes

-- a decision that holds nothing but reasons and evidence
abbrev pub plain : Notes → Decision
plain (reasons, evidence) = record {
  allowed = is_empty reasons;
  reasons = reasons;
  evidence = evidence;
  snapshot = none;
  terms_hash = none;
  proof_hash = none;
  commitment = none;
  privacy_level = none;
}

abbrev judge_action : SpendIntent → Policy → CryptoAction → Decision
judge_action i policy action = plain (
    object (str_eq action.risk "high") "Riesgo crypto alto requiere bloqueo v1" (
      judge (ltb policy.max_slippage_bps action.slippage_bps) "Slippage supera policy"
        "Slippage dentro de policy"
        (judge (exceeds i.intent.amount policy.max_portfolio_action_amount)
          "La accion crypto supera el monto maximo" "El monto crypto esta dentro del limite"
          (judge (not (listed action.asset policy.allowed_assets))
            (text_append "Activo " (text_append action.asset " no esta allowlisted"))
            (text_append "Asset " (text_append action.asset " allowed")) ([], [])))))

abbrev judge_crypto : SpendIntent → Policy → Option CryptoAction → Decision
judge_crypto i policy none = plain ([], "No additional crypto action" ∷ [])
judge_crypto i policy (some action) = judge_action i policy action

-- `CryptoActionAdapter.evaluate`
unfoldable pub evaluate_crypto : SpendIntent → Policy → Decision
evaluate_crypto i policy = judge_crypto i policy i.crypto_action

abbrev allocation_risk : Option DefiAllocation → String
allocation_risk none = "medium"
allocation_risk (some allocation) = allocation.risk

-- `DeFindexAdapter.evaluate`
unfoldable pub evaluate_defi : SpendIntent → Policy → Decision
evaluate_defi i policy =
    if not (str_eq i.intent.intent_type defi_allocate)
    then plain ([], "No DeFindex allocation requested" ∷ [])
    else plain (
        object (not (str_eq (allocation_risk i.defi_allocation) "low"))
          "Asignacion DeFi de riesgo no bajo bloqueada en v1"
          (judge (exceeds i.intent.amount policy.max_portfolio_action_amount)
            "La asignacion DeFi supera el monto maximo" "El monto DeFi esta dentro del limite"
            (judge (not (listed "defindex" policy.allowed_defi_protocols))
              "DeFindex no esta allowlisted" "DeFindex allowlisted como placeholder" ([], []))))

pub record Proof : Type 0 where
  pub proof_status : String
  pub proof_type : String
  pub provider_id : String
  pub commitment : String
  pub proof_hash : String
  pub purpose : String

-- `ZkCommitmentAdapter.createProof`, with `createCommitment`
unfoldable pub create_proof : Runtime → String → String → String → String → Proof
create_proof runtime provider_id secret_ref salt purpose =
    let commitment =
      runtime.sha256 (
        text_append provider_id
          (text_append ":" (text_append secret_ref (text_append ":" salt)))) in
    record {
      proof_status = "valid";
      proof_type = "demo-commitment-membership";
      provider_id = provider_id;
      commitment = commitment;
      proof_hash =
          runtime.sha256 (text_append "proof:" (text_append commitment (text_append ":" purpose)));
      purpose = purpose;
    }

abbrev differs : Option String → String → Bool
differs none commitment = false
differs (some expected) commitment = not (str_eq commitment expected)

abbrev privacy :
    Bool → List String → List String → Option String → Option String → String → Decision
privacy allowed reasons evidence proof_hash commitment level = record {
  allowed = allowed;
  reasons = reasons;
  evidence = evidence;
  snapshot = none;
  terms_hash = none;
  proof_hash = proof_hash;
  commitment = commitment;
  privacy_level = some level;
}

abbrev proof_missing : SpendIntent → Decision
proof_missing i =
    privacy false ("ZK proof required before paying" ∷ []) [] none i.secret_ref_commitment
      (or_else i.intent.privacy_requirement "zk-required")

abbrev judge_proof : SpendIntent → Option Proof → Decision
judge_proof i none = proof_missing i
judge_proof i (some proof) =
    if not (str_eq proof.proof_status "valid")
    then proof_missing i
    else if differs i.secret_ref_commitment proof.commitment
    then privacy false ("Commitment no coincide con el proof" ∷ []) [] (some proof.proof_hash)
        (some proof.commitment) (or_else i.intent.privacy_requirement "zk-required")
    else privacy true []
        ("Demo ZK proof verified" ∷ "The private identifier is never revealed" ∷ [])
        (some proof.proof_hash) (some proof.commitment)
        (or_else i.intent.privacy_requirement "zk-required")

-- `ZkCommitmentAdapter.evaluate`
unfoldable pub evaluate_privacy : SpendIntent → Option Proof → Decision
evaluate_privacy i proof =
    if not i.intent.proof_required
    then privacy true [] ("Proof opcional para este intento" ∷ []) none i.secret_ref_commitment
        (or_else i.intent.privacy_requirement "standard")
    else judge_proof i proof

pub record LegalContext : Type 0 where
  pub terms : String
  pub atr_hash : Option String
  pub acceptance_required : Bool
  pub trust_level : Option ℕ
  pub dispute_resolution : Option String

pub record LegalEntry : Type 0 where
  pub terms_text : Option String
  pub legal_context : LegalContext

-- The registry, and what fetching a context or its terms answers.
pub record LegalSources : Type 0 where
  pub registry : Map LegalEntry
  pub context_at : String → Result LegalContext
  pub terms_at : String → Result String

-- `normalizeHash`
unfoldable pub normalize_hash : Runtime → Option String → Option String
normalize_hash runtime none = none
normalize_hash runtime (some value) =
    if starts_with (codes value) (codes "0x")
    then some (runtime.lower value)
    else some (text_append "0x" (runtime.lower value))

abbrev context_of : LegalSources → String → Option LegalEntry → Result LegalContext
context_of sources url none = sources.context_at url
context_of sources url (some entry) = ok entry.legal_context

-- `fetchLegalContext`
unfoldable pub fetch_legal_context : LegalSources → String → Result LegalContext
fetch_legal_context sources url = context_of sources url (get url sources.registry)

abbrev terms_text_of : Option LegalEntry → Option String
terms_text_of none = none
terms_text_of (some entry) = entry.terms_text

abbrev entry_with : String → Map LegalEntry → Option LegalEntry
entry_with url [] = none
entry_with url ((k, entry) ∷ rest) =
    if str_eq entry.legal_context.terms url then some entry else entry_with url rest

abbrev text_or_fetch : LegalSources → String → Option String → Result String
text_or_fetch sources url none = sources.terms_at url
text_or_fetch sources url (some text) = ok text

-- `fetchTerms`
unfoldable pub fetch_terms : LegalSources → String → Result String
fetch_terms sources url =
    text_or_fetch sources url (terms_text_of (entry_with url sources.registry))

abbrev default_trust : LegalContext → ℕ
default_trust c = if c.acceptance_required then 3 else elim c.atr_hash [ none ↦ 1 | some h ↦ 2 ]

abbrev judge_hash : Option String → String → Notes → Notes
judge_hash none terms_hash (reasons, evidence) =
    (reasons, evidence ++ ("Terminos encontrados sin hash" ∷ []))
judge_hash (some declared) terms_hash notes =
    judge (not (str_eq declared terms_hash)) "ATR hash no coincide con los terminos"
      "Hash de terminos verificado" notes

abbrev note_acceptance : Bool → Notes → Notes
note_acceptance true (reasons, evidence) =
    (reasons, evidence ++ ("Se requiere aceptacion explicita" ∷ []))
note_acceptance false notes = notes

-- the decision on a context whose terms have the hash `terms_hash`
unfoldable pub judge_context : Runtime → Policy → String → LegalContext → String → Decision
judge_context runtime policy url c terms_hash =
    let trust = or_else c.trust_level (default_trust c) in
    let decision = plain (
      note_acceptance c.acceptance_required (
        judge (ltb trust policy.min_legal_trust_level) "Nivel de confianza bajo el minimo requerido"
          "Nivel de confianza cumple la politica"
          (judge_hash (normalize_hash runtime c.atr_hash) terms_hash ([], [])))) in
    record decision {
      terms_hash = some terms_hash;
      snapshot = some (record {
        legal_context_url = url;
        terms_url = c.terms;
        atr_hash = normalize_hash runtime c.atr_hash;
        acceptance_required = c.acceptance_required;
        trust_level = trust;
        dispute_resolution = c.dispute_resolution;
      });
    }

abbrev no_context : Policy → Decision
no_context policy =
    if policy.require_legal_context
    then plain ("Provider does not publish a legal context" ∷ [], [])
    else plain ([], "Legal context opcional para este pago" ∷ [])

abbrev judge_url : Runtime → LegalSources → Policy → Option String → Result Decision
judge_url runtime sources policy none = ok (no_context policy)
judge_url runtime sources policy (some url) = do
  c ← fetch_legal_context sources url
  terms ← fetch_terms sources c.terms
  ok (judge_context runtime policy url c (runtime.sha256 terms))

-- `LegalContextAdapter.evaluate`
unfoldable pub evaluate_legal : Runtime → LegalSources → SpendIntent → Policy → Result Decision
evaluate_legal runtime sources i policy = judge_url runtime sources policy i.legal_context_url

-- `ProviderDirectoryAdapter.get`
unfoldable pub get_provider : String → List Provider → Option Provider
get_provider provider_id providers = find (λ p. str_eq p.provider_id provider_id) providers

pub record VaultRecord : Type 0 where
  pub secret_ref : String
  pub provider_id : String
  pub purpose : String
  pub sealed_secret : Codes
  pub created_at : Codes

-- `PrivacyVaultAdapter.storeSecret`
unfoldable pub store_secret : Runtime → String → String → String → String → Codes → VaultRecord
store_secret runtime secret_ref plaintext purpose provider_id now =
    let sealed_hash = runtime.sha256 (
      text_append provider_id
        (text_append ":" (text_append purpose (text_append ":" plaintext)))) in
    record {
      secret_ref = secret_ref;
      provider_id = provider_id;
      purpose = purpose;
      sealed_secret = codes "sealed:v1:" ++ take 16 (drop 2 (codes sealed_hash));
      created_at = now;
    }
