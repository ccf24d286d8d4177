-- ===== src/Pilot/Service.antt =====
-- The pilot service (src/pilotService.mjs, `class PilotService`). A method reads the store, may
-- wait while other calls change it (`World.between`, `World.others`), and writes.
pub mod Changes
pub mod Approval
pub mod Claims
pub mod Drafts
pub mod Holding
pub mod Reachable
pub mod Samples
mod Tests
mod StoreTests
use Prim.Native.String.{◌++◌}
use stellar_agent_spend_hub.Common.{
  ℕ, ◌+◌, ◌*◌, String, Bool, true, false, ◌&&◌, not, Option, none, some, List, ltb, leb,
  if◌then◌else◌, length, filter, map, ◌≡◌,
}
use stellar_agent_spend_hub.Common.Text.{codes, str_eq, is_digest}
use stellar_agent_spend_hub.Common.Result.{Result, ok, throw}
use stellar_agent_spend_hub.Common.Action.{Action, ◌>>=◌, ◌>>◌, pure, raise, raise_if, lift, modify}
use stellar_agent_spend_hub.Common.Map.{Map, get}
use stellar_agent_spend_hub.Pilot.Record.{
  PilotRecord, PublicRequest, BuyerRequest, Evidence, Receipt, Status, created, prepared, approved,
  settling, settled, expired, public_pilot_request, pilot_buyer_request, public_pilot_evidence,
}
use stellar_agent_spend_hub.Pilot.Validation.{
  pilot_amount_usdc, validate_pilot_resource_id, validate_pilot_amount,
  validate_pilot_idempotency_key, safe_digest_equal, is_request_id,
}
use stellar_agent_spend_hub.Pilot.Repository.{Repo, Mutate, get_record, create, update, list}

abbrev pub approval_ttl : ℕ
approval_ttl = 10 * 60 * 1000

abbrev pub claim_ttl : ℕ
claim_ttl = 2 * 60 * 1000

abbrev pub merchant_lab : String
merchant_lab = "stellar-agent-merchant-lab"

abbrev pub pilot_tenant : String
pilot_tenant = "merchant-lab-reference"

-- What the service takes from the runtime: SHA-256 in hexadecimal, HMAC-SHA-256 in base64url, and
-- the ISO text of a time.
pub record Crypto : Type 0 where
  pub digest : String → String
  pub hmac : String → String → String
  pub iso : ℕ → String
  pub digest_hex : (s : String) → is_digest (digest s) ≡ true

pub record Provider : Type 0 where
  pub provider_id : String
  pub name : String
  pub endpoint : String
  pub asset : String
  pub asset_contract_id : String
  pub network : String
  pub recipient : String

pub record Settings : Type 0 where
  pub providers : Map Provider
  pub approval_secret : String
  pub app_base_url : String

-- One call: the time that it reads, and what other calls do to the store while it waits.
pub record World : Type 0 where
  pub now : ℕ
  pub between : Repo → Repo
  pub others : ℕ → Repo → Repo
  pub stamp : ℕ → ℕ

pub record Draft : Type 0 where
  pub provider_id : String
  pub resource_id : String
  pub amount : String
  pub idempotency_key : String

pub record Prepared : Type 0 where
  pub request : PublicRequest
  pub approval_url : String
  pub expires_at : ℕ

pub record Claim : Type 0 where
  pub claim_id : String
  pub claim_expires_at : ℕ
  pub request : BuyerRequest

-- What the verifier returns for a settlement.
pub record Verified : Type 0 where
  pub transaction_hash : String
  pub receipt : Receipt
  pub settled_at : String

-- `["created", "prepared"].includes(status)`
abbrev pub can_prepare : Status → Bool
can_prepare created = true
can_prepare prepared = true
can_prepare other = false

abbrev pub is_prepared : Status → Bool
is_prepared prepared = true
is_prepared other = false

abbrev pub is_approved : Status → Bool
is_approved approved = true
is_approved other = false

abbrev pub is_settling : Status → Bool
is_settling settling = true
is_settling other = false

abbrev pub is_settled : Status → Bool
is_settled settled = true
is_settled other = false

-- `Date.parse(time || "") <= now`: an absent time is NaN, and no order holds of it
abbrev pub is_past : Option ℕ → ℕ → Bool
is_past none now = false
is_past (some t) now = leb t now

-- `text.replace(/\/+$/, "")`
abbrev slash_onto : String → String → String
slash_onto c (String.[]) = if str_eq c "/" then "" else c
slash_onto c rest = c ++ rest

strip_slashes : String → String
strip_slashes (String.[]) = ""
strip_slashes (String.◌∷◌ c s) = slash_onto (String.◌∷◌ c (String.[])) (strip_slashes s)

-- The mutators that the methods hand to `repository.update`.
abbrev pub prepare_change : String → ℕ → Mutate
prepare_change token_hash expires_at r =
    if not (can_prepare r.status)
    then throw 409 "Pilot request cannot be prepared"
    else ok (record r {
      status = prepared;
      approval_expires_at = some expires_at;
      approval_token_hash = some token_hash;
    })

-- the earlier expiry, if it lies ahead, or a new one
abbrev pub expiry : Option ℕ → ℕ → ℕ
expiry none now = now + approval_ttl
expiry (some t) now = if ltb now t then t else now + approval_ttl

abbrev pub expire_change : Mutate
expire_change r = ok (record r { status = expired })

-- One time stands for the two at which the code reads its clock: before the update and in it.
abbrev pub approve_change : ℕ → Mutate
approve_change now r =
    if not (is_prepared r.status)
    then throw 409 "Pilot approval was already consumed"
    else ok (record r { status = approved; approved_at = some now; approval_token_hash = none })

-- One time stands for the test of the old lease and for the start of the new one.
abbrev pub claim_change : String → ℕ → Mutate
claim_change claim_hash now r =
    if not (is_approved r.status) && not (is_settling r.status && is_past r.claim_expires_at now)
    then throw 409 "Pilot request cannot be claimed"
    else ok (record r {
      status = settling;
      claim_id_hash = some claim_hash;
      claim_expires_at = some (now + claim_ttl);
    })

abbrev pub complete_change : String → Verified → Mutate
complete_change claim_hash verified r =
    if not (is_settling r.status)
    then throw 409 "Pilot settlement was already completed"
    else if not (safe_digest_equal r.claim_id_hash claim_hash)
    then throw 403 "Pilot claim is invalid"
    else ok (record r {
      status = settled;
      transaction_hash = some verified.transaction_hash;
      receipt = some verified.receipt;
      settled_at = some verified.settled_at;
      claim_id_hash = none;
    })

-- `JSON.stringify(normalized)`; after the checks no text holds a quote or a backslash
pub normalized_json : String → String → String → String → String
normalized_json provider_id resource_id amount key =
    "{\"providerId\":\""
    ++ (provider_id
        ++ ("\",\"resourceId\":\""
            ++ (resource_id
                ++ ("\",\"amount\":\""
                    ++ (amount ++ ("\",\"idempotencyKey\":\"" ++ (key ++ "\"}")))))))

pub require_request : String → String → Action Repo PilotRecord
require_request request_id tenant_id s =
    if not (is_request_id request_id)
    then (throw 400 "Invalid pilot requestId", s)
    else elim (get_record request_id tenant_id s) [
      | none ↦ (throw 404 "Pilot request not found", s)
      | some r ↦ (ok r, s)
    ]

-- `saved.payloadHash`; there is no `null` to read it from as long as the store keeps its records
abbrev pub saved_as : String → Option PilotRecord → Result PublicRequest
saved_as payload_hash none = throw 500 "Cannot read properties of null"
saved_as payload_hash (some saved) =
    if str_eq saved.payload_hash payload_hash
    then ok (public_pilot_request saved)
    else throw 409 "Idempotency key conflicts with another request"

abbrev pub store_record : PilotRecord → Action Repo (Option PilotRecord)
store_record r s = let (saved, t) = create r s in (ok saved, t)

module _ (crypto : Crypto) (settings : Settings) where
  open crypto use {digest, hmac, iso}

  pub require_provider : String → Result Provider
  require_provider provider_id = elim (get provider_id settings.providers) [
    | none ↦ throw 403 "Provider is not allowlisted"
    | some provider ↦
        if str_eq provider.provider_id merchant_lab
        then ok provider
        else throw 403 "Provider is not allowlisted"
  ]

  pub secret : Result String
  secret =
      if ltb (length (codes settings.approval_secret)) 32
      then throw 503 "Pilot approval secret is not configured"
      else ok settings.approval_secret

  pub new_record : String → String → Provider → String → String → String → ℕ → PilotRecord
  new_record request_id tenant_id provider resource_id key payload_hash now = record {
    version = 1;
    request_id = request_id;
    tenant_id = tenant_id;
    provider_id = provider.provider_id;
    provider_name = provider.name;
    resource_id = resource_id;
    resource_url = provider.endpoint ++ ("?resource=" ++ resource_id);
    amount = pilot_amount_usdc;
    amount_base_units = "100000";
    asset = provider.asset;
    asset_contract_id = provider.asset_contract_id;
    network = provider.network;
    recipient = provider.recipient;
    idempotency_digest = digest (tenant_id ++ (":" ++ key));
    payload_hash = payload_hash;
    status = created;
    approval_token_hash = none;
    approval_expires_at = none;
    approved_at = none;
    claim_id_hash = none;
    claim_expires_at = none;
    transaction_hash = none;
    receipt = none;
    created_at = now;
    updated_at = now;
    settled_at = none;
  }

  -- `createDraft`; `request_id` is the new UUID
  pub create_draft : ℕ → String → String → Draft → Action Repo PublicRequest
  create_draft now request_id tenant_id draft = do
    provider ← lift (require_provider draft.provider_id)
    resource_id ← lift (validate_pilot_resource_id draft.resource_id)
    amount ← lift (validate_pilot_amount draft.amount)
    key ← lift (validate_pilot_idempotency_key draft.idempotency_key)
    let payload_hash = digest (normalized_json provider.provider_id resource_id amount key)
    saved ← store_record (new_record request_id tenant_id provider resource_id key payload_hash now)
    lift (saved_as payload_hash saved)

  abbrev pub approval_token : String → String → ℕ → String
  approval_token key request_id expires_at = hmac key (request_id ++ ("." ++ iso expires_at))

  pub prepare : World → String → String → Action Repo Prepared
  prepare w request_id tenant_id = do
    existing ← require_request request_id tenant_id
    modify w.between
    raise_if (not (can_prepare existing.status)) 409 "Pilot request cannot be prepared"
    let expires_at = expiry existing.approval_expires_at w.now
    key ← lift secret
    let token = approval_token key request_id expires_at
    updated ←
        update request_id tenant_id (prepare_change (digest token) expires_at) w.stamp w.others
    pure (record {
      request = public_pilot_request updated;
      approval_url =
          strip_slashes settings.app_base_url
          ++ ("/spend?pilot=" ++ (request_id ++ ("#approval=" ++ token)));
      expires_at = expires_at;
    })

  pub get_public_request : String → Action Repo PublicRequest
  get_public_request request_id = do
    r ← require_request request_id pilot_tenant
    pure (public_pilot_request r)

  abbrev expire : World → String → String → Action Repo Unit
  expire w request_id tenant_id = do
    gone ← update request_id tenant_id expire_change w.stamp w.others
    raise 410 "Pilot approval expired"

  pub approve : World → String → String → Action Repo PublicRequest
  approve w request_id token = do
    existing ← require_request request_id pilot_tenant
    modify w.between
    raise_if (not (is_prepared existing.status)) 409 "Pilot request is not awaiting approval"
    if is_past existing.approval_expires_at w.now
        then expire w request_id existing.tenant_id
        else pure tt
    raise_if (not (safe_digest_equal existing.approval_token_hash (digest token))) 403
        "Pilot approval token is invalid"
    updated ← update request_id existing.tenant_id (approve_change w.now) w.stamp w.others
    pure (public_pilot_request updated)

  -- `claim`; `claim_id` is the new UUID
  pub claim : World → String → String → String → Action Repo Claim
  claim w claim_id request_id tenant_id = do
    updated ← update request_id tenant_id (claim_change (digest claim_id) w.now) w.stamp w.others
    pure (record {
      claim_id = claim_id;
      claim_expires_at = w.now + claim_ttl;
      request = pilot_buyer_request updated;
    })

  -- `complete`; `verify` is the settlement verifier, which reads the network
  pub complete :
      World → (PilotRecord → Result Verified) → String → String → String → Action Repo PublicRequest
  complete w verify claim_id request_id tenant_id = do
    existing ← require_request request_id tenant_id
    raise_if (not (is_settling existing.status)) 409 "Pilot request is not settling"
    raise_if (is_past existing.claim_expires_at w.now) 410 "Pilot claim expired"
    raise_if (not (safe_digest_equal existing.claim_id_hash (digest claim_id))) 403
        "Pilot claim is invalid"
    modify w.between
    verified ← lift (verify existing)
    updated ←
        update request_id tenant_id (complete_change (digest claim_id) verified) w.stamp w.others
    pure (public_pilot_request updated)

  pub get_status : String → String → Action Repo PublicRequest
  get_status request_id tenant_id = do
    r ← require_request request_id tenant_id
    pure (public_pilot_request r)

  abbrev receipt_of : PilotRecord → Option Receipt
  receipt_of r = if is_settled r.status then r.receipt else none

  abbrev or_not_found : Option Receipt → Result Receipt
  or_not_found none = throw 404 "Pilot receipt not found"
  or_not_found (some receipt) = ok receipt

  pub get_receipt : String → String → Action Repo Receipt
  get_receipt request_id tenant_id = do
    r ← require_request request_id tenant_id
    lift (or_not_found (receipt_of r))

  -- the list of `evidence`
  pub evidence : Repo → List Evidence
  evidence s =
      map public_pilot_evidence (filter (λ r. is_settled r.status) (list pilot_tenant 20 s))
