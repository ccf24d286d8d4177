-- ===== src/ContractAccount/Ceremony.antt =====
-- The passkey ceremony in memory (src/contractAccountCeremony.mjs). A time is a number of
-- milliseconds, whose order is that of its ISO texts.
pub mod Lifecycle
use stellar_agent_spend_hub.Common.{
  ℕ, ◌+◌, ◌*◌, String, Bool, true, false, ◌&&◌, ◌||◌, not, Option, none, some, List, leb,
  if◌then◌else◌,
}
use stellar_agent_spend_hub.Common.Result.{Result, ok, err, throw}
use stellar_agent_spend_hub.Common.Map.{Map, get, set}
use stellar_agent_spend_hub.Common.Text.{Codes}
use stellar_agent_spend_hub.Pilot.Validation.{is_request_id}
use stellar_agent_spend_hub.ContractAccount.Repository.{safe_hash}

abbrev pub ceremony_ttl_seconds : ℕ
ceremony_ttl_seconds = 600

pub data CeremonyStatus : Type 0 where
  pending claimed deployed failed expired : CeremonyStatus

pub record Ceremony : Type 0 where
  pub ceremony_id : String
  pub status : CeremonyStatus
  pub created_at : ℕ
  pub expires_at : ℕ
  pub rp_id : String
  pub owner_key_fingerprint : String
  pub registration : String
  pub claimed_at : Option ℕ
  pub deployed_at : Option ℕ
  pub failed_at : Option ℕ
  pub contract_id : Option String
  pub transaction_hash : Option Codes

-- `publicCeremony(record)`
pub record PublicCeremony : Type 0 where
  pub ceremony_id : String
  pub status : CeremonyStatus
  pub rp_id : String
  pub owner_key_fingerprint : String
  pub created_at : ℕ
  pub expires_at : ℕ
  pub contract_id : Option String
  pub transaction_hash : Option Codes

abbrev pub is_pending : CeremonyStatus → Bool
is_pending pending = true
is_pending other = false

abbrev is_deployed : CeremonyStatus → Bool
is_deployed deployed = true
is_deployed other = false

-- What the repository runs on: whether it is in production, where memory is refused, and the records.
pub record Ceremonies : Type 0 where
  pub production : Bool
  pub records : Map Ceremony

unfoldable pub public_ceremony : Ceremony → PublicCeremony
public_ceremony r = record {
  ceremony_id = r.ceremony_id;
  status = r.status;
  rp_id = r.rp_id;
  owner_key_fingerprint = r.owner_key_fingerprint;
  created_at = r.created_at;
  expires_at = r.expires_at;
  contract_id = if is_deployed r.status then r.contract_id else none;
  transaction_hash = if is_deployed r.status then safe_hash r.transaction_hash else none;
}

abbrev not_found : {A : Type 0} → Result A
not_found = throw 404 "Passkey ceremony not found or expired"

abbrev unavailable : {A : Type 0} → Result A
unavailable = throw 503 "Passkey ceremony store is unavailable"

-- `repository.save(record)`, behind `assertProductionStore`
pub save : Ceremony → Ceremonies → Result Ceremony × Ceremonies
save r s =
    if s.production
    then (unavailable, s)
    else (ok r, record s { records = set r.ceremony_id r s.records })

abbrev pub claim_found : String → ℕ → Ceremonies → Option Ceremony → Result Ceremony × Ceremonies
claim_found id now s none = (not_found, s)
claim_found id now s (some r) =
    if not (is_pending r.status)
    then (throw 409 "Passkey ceremony already consumed", s)
    else if leb r.expires_at now
    then (throw 410 "Passkey ceremony expired", s)
    else (
      ok r,
      record s {
        records = set id (record r { status = claimed; claimed_at = some now }) s.records;
      },
    )

-- `repository.claim(ceremonyId, now)`
pub claim_record : String → ℕ → Ceremonies → Result Ceremony × Ceremonies
claim_record id now s =
    if s.production then (unavailable, s) else claim_found id now s (get id s.records)

-- `service.claim(ceremonyId)`
pub claim : String → ℕ → Ceremonies → Result Ceremony × Ceremonies
claim id now s =
    if not (is_request_id id) then (throw 400 "Invalid ceremonyId", s) else claim_record id now s

abbrev update_found :
    String
    → (Ceremony → Ceremony)
    → Ceremonies
    → Option Ceremony
    → Result (Option Ceremony) × Ceremonies
update_found id patch s none = (ok none, s)
update_found id patch s (some current) =
    (ok (some (patch current)), record s { records = set id (patch current) s.records })

-- `repository.update(ceremonyId, patch)`
pub update : String → (Ceremony → Ceremony) → Ceremonies → Result (Option Ceremony) × Ceremonies
update id patch s =
    if s.production then (unavailable, s) else update_found id patch s (get id s.records)

-- `repository.complete(ceremonyId, result, now)`
pub complete :
    String → String → Option Codes → ℕ → Ceremonies → Result (Option Ceremony) × Ceremonies
complete id contract_id transaction_hash now s =
    update id
      (λ r. record r {
        status = deployed;
        deployed_at = some now;
        contract_id = some contract_id;
        transaction_hash = transaction_hash;
      })
      s

-- `repository.fail(ceremonyId, now)`
pub fail : String → ℕ → Ceremonies → Result (Option Ceremony) × Ceremonies
fail id now s = update id (λ r. record r { status = failed; failed_at = some now }) s

-- the status that is shown: a pending ceremony whose time is over is expired
abbrev pub shown : ℕ → Ceremony → CeremonyStatus
shown now r = if is_pending r.status && leb r.expires_at now then expired else r.status

abbrev pub status_found : ℕ → Option Ceremony → Result PublicCeremony
status_found now none = not_found
status_found now (some r) = ok (public_ceremony (record r { status = shown now r }))

-- `service.status(ceremonyId)`
pub status : String → ℕ → Ceremonies → Result PublicCeremony
status id now s =
    if not (is_request_id id)
    then throw 400 "Invalid ceremonyId"
    else if s.production
    then unavailable
    else status_found now (get id s.records)
