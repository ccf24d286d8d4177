-- ===== src/Pilot/Service/Holding.antt =====
-- A property of every stored record that the calls of the service keep.
use stellar_agent_spend_hub.Common.{ℕ, String, ◌≡◌, refl, inl, inr, Bool-cases, Option-cases, not}
use stellar_agent_spend_hub.Common.Result.{Result, ok, err, HttpError, Result-cases}
use stellar_agent_spend_hub.Common.Action.{Action, continue}
use stellar_agent_spend_hub.Pilot.Record.{PilotRecord, created}
use stellar_agent_spend_hub.Pilot.Repository.{Repo, Mutate, bump, get_record, update}
use stellar_agent_spend_hub.Pilot.Repository.Kept.{AllRecords, update-AllRecords, create-AllRecords}
use stellar_agent_spend_hub.Pilot.Validation.{
  validate_pilot_resource_id, validate_pilot_amount, validate_pilot_idempotency_key, is_request_id,
  safe_digest_equal,
}
use stellar_agent_spend_hub.Pilot.Service.{
  Crypto, Settings, World, Verified, Draft, create_draft, prepare, approve, claim, complete,
  approve_change, expire_change, require_request, is_past, can_prepare, prepare_change,
  claim_change, complete_change, is_prepared, is_settling, pilot_tenant, secret, new_record,
  require_provider,
}

-- A call of the service, of any kind and with any arguments.
pub data Call : Type 0 where
  drafting : ℕ → String → String → Draft → Call
  preparing : World → String → String → Call
  approving : World → String → String → Call
  claiming : World → String → String → String → Call
  completing : World → (PilotRecord → Result Verified) → String → String → String → Call

-- The store that a call leaves, whether it returns or throws.
unfoldable pub after : Crypto → Settings → Call → Repo → Repo
after crypto settings (drafting now id tenant d) s =
    (create_draft crypto settings now id tenant d s).1
after crypto settings (preparing w id tenant) s = (prepare crypto settings w id tenant s).1
after crypto settings (approving w id token) s = (approve crypto settings w id token s).1
after crypto settings (claiming w claim_id id tenant) s =
    (claim crypto settings w claim_id id tenant s).1
after crypto settings (completing w verify claim_id id tenant) s =
    (complete crypto settings w verify claim_id id tenant s).1

-- A change that succeeds keeps a property of a record.
abbrev pub Upholds : (PilotRecord → Type 0) → Mutate → Type 0
Upholds P change = (r r' : PilotRecord) → P r → change r ≡ ok r' → P r'

-- New records have the property, and each change of the service keeps it, a settlement by what the
-- verifier has found where that is good.
pub record Laws (P : PilotRecord → Type 0) (Good : Verified → Type 0) : Type 0 where
  pub fresh : (r : PilotRecord) → r.status ≡ created → P r
  pub stamps : (r current : PilotRecord) (t : ℕ) → P r → P (bump current t r)
  pub prepares : (hash : String) (t : ℕ) → Upholds P (prepare_change hash t)
  pub approves : (now : ℕ) → Upholds P (approve_change now)
  pub expires : Upholds P expire_change
  pub claims : (hash : String) (now : ℕ) → Upholds P (claim_change hash now)
  pub completes : (hash : String) (x : Verified) → Good x → Upholds P (complete_change hash x)

-- The store at the end of a chain whose last steps write nothing.
ended :
    (P : PilotRecord → Type 0) {A B : Type 0} (x : Result A × Repo) (f : A → Result B)
    → AllRecords P x.1
    → AllRecords P (continue x (λ a s. (f a, s))).1
ended P (ok a, s) f v = v
ended P (err e, s) f v = v

thrown :
    (P : PilotRecord → Type 0) {A B C : Type 0} (x : Result A × Repo) (e : HttpError)
    (f : B → Action Repo C)
    → AllRecords P x.1
    → AllRecords P (continue (continue x (λ a s. (err e, s))) f).1
thrown P (ok a, s) e f v = v
thrown P (err d, s) e f v = v

module _ (P : PilotRecord → Type 0) (Good : Verified → Type 0) where
  -- What the other calls do to the store keeps the property as well.
  abbrev pub KeepsHeld : World → Type 0
  KeepsHeld w =
      ((s : Repo) → AllRecords P s → AllRecords P (w.between s))
      × ((n : ℕ) (s : Repo) → AllRecords P s → AllRecords P (w.others n s))

  -- The other calls keep the property, and a verifier accepts only what is good.
  abbrev pub IsSure : Call → Type 0
  IsSure (drafting now id tenant d) = Unit
  IsSure (preparing w id tenant) = KeepsHeld w
  IsSure (approving w id token) = KeepsHeld w
  IsSure (claiming w claim_id id tenant) = KeepsHeld w
  IsSure (completing w verify claim_id id tenant) =
      ((r : PilotRecord) (x : Verified) → verify r ≡ ok x → Good x) × KeepsHeld w

module _ (P : PilotRecord → Type 0) (Good : Verified → Type 0) (laws : Laws P Good)
    (crypto : Crypto) (settings : Settings) where
  updated_held :
      (w : World) (id tenant : String) (change : Mutate) (s : Repo)
      → KeepsHeld P Good w
      → Upholds P change
      → AllRecords P s
      → AllRecords P (update id tenant change w.stamp w.others s).1
  updated_held w id tenant change s k p v =
      update-AllRecords P id tenant change w.stamp w.others k.1 p laws.stamps s v

  create_draft-Holding :
      (now : ℕ) (id tenant : String) (d : Draft) (s : Repo)
      → AllRecords P s
      → AllRecords P (create_draft crypto settings now id tenant d s).1
  unfolding create_draft new_record
  create_draft-Holding now id tenant d s v =
      elim (Result-cases (require_provider crypto settings d.provider_id)) [
        | inl (e, failed) ↦ rw failed v
        | inr (provider, allowed) ↦ elim (Result-cases (validate_pilot_resource_id d.resource_id)) [
          | inl (e, failed) ↦ rw (allowed, failed) v
          | inr (resource_id, resource) ↦ elim (Result-cases (validate_pilot_amount d.amount)) [
            | inl (e, failed) ↦ rw (allowed, resource, failed) v
            | inr (amount, price) ↦
                elim (Result-cases (validate_pilot_idempotency_key d.idempotency_key)) [
                  | inl (e, failed) ↦ rw (allowed, resource, price, failed) v
                  | inr (key, named) ↦
                      rw (allowed, resource, price, named)
                        (create-AllRecords P _ s (laws.fresh _ refl) v)
                ]
          ]
        ]
      ]

  prepare-Holding :
      (w : World) (id tenant : String) (s : Repo)
      → KeepsHeld P Good w
      → AllRecords P s
      → AllRecords P (prepare crypto settings w id tenant s).1
  unfolding prepare require_request
  prepare-Holding w id tenant s k v = elim (Bool-cases (is_request_id id)) [
    | inr malformed ↦ rw malformed v
    | inl formed ↦ elim (Option-cases (get_record id tenant s)) [
      | inl missing ↦ rw (formed, missing) v
      | inr (seen, read) ↦ elim (Bool-cases (not (can_prepare seen.status))) [
        | inl late ↦ rw (formed, read, late) (k.0 s v)
        | inr early ↦ elim (Result-cases (secret crypto settings)) [
          | inl (e, failed) ↦ rw (formed, read, early, failed) (k.0 s v)
          | inr (key, configured) ↦
              rw (formed, read, early, configured)
                (ended P (update id tenant _ w.stamp w.others (w.between s)) _
                  (updated_held w id tenant _ (w.between s) k (laws.prepares _ _) (k.0 s v)))
        ]
      ]
    ]
  ]

  approve-Holding :
      (w : World) (id token : String) (s : Repo)
      → KeepsHeld P Good w
      → AllRecords P s
      → AllRecords P (approve crypto settings w id token s).1
  unfolding approve require_request
  approve-Holding w id token s k v = elim (Bool-cases (is_request_id id)) [
    | inr malformed ↦ rw malformed v
    | inl formed ↦ elim (Option-cases (get_record id pilot_tenant s)) [
      | inl missing ↦ rw (formed, missing) v
      | inr (seen, read) ↦ elim (Bool-cases (not (is_prepared seen.status))) [
        | inl early ↦ rw (formed, read, early) (k.0 s v)
        | inr awaited ↦ elim (Bool-cases (is_past seen.approval_expires_at w.now)) [
          | inl late ↦
              rw (formed, read, awaited, late)
                (thrown P (update id seen.tenant_id expire_change w.stamp w.others (w.between s)) _
                  _
                  (updated_held w id seen.tenant_id expire_change (w.between s) k laws.expires
                    (k.0 s v)))
          | inr in_time ↦
              elim (Bool-cases
                (not (safe_digest_equal seen.approval_token_hash (crypto.digest token)))) [
                  | inl wrong ↦ rw (formed, read, awaited, in_time, wrong) (k.0 s v)
                  | inr right ↦
                      rw (formed, read, awaited, in_time, right)
                        (ended P
                          (update id seen.tenant_id (approve_change w.now) w.stamp w.others
                            (w.between s))
                          _
                          (updated_held w id seen.tenant_id (approve_change w.now) (w.between s) k
                            (laws.approves w.now) (k.0 s v)))
                ]
        ]
      ]
    ]
  ]

  claim-Holding :
      (w : World) (claim_id id tenant : String) (s : Repo)
      → KeepsHeld P Good w
      → AllRecords P s
      → AllRecords P (claim crypto settings w claim_id id tenant s).1
  unfolding claim
  claim-Holding w claim_id id tenant s k v =
      ended P (update id tenant _ w.stamp w.others s) _
        (updated_held w id tenant _ s k (laws.claims _ w.now) v)

  complete-Holding :
      (w : World) (verify : PilotRecord → Result Verified) (claim_id id tenant : String) (s : Repo)
      → ((r : PilotRecord) (x : Verified) → verify r ≡ ok x → Good x)
      → KeepsHeld P Good w
      → AllRecords P s
      → AllRecords P (complete crypto settings w verify claim_id id tenant s).1
  unfolding complete require_request
  complete-Holding w verify claim_id id tenant s sure k v = elim (Bool-cases (is_request_id id)) [
    | inr malformed ↦ rw malformed v
    | inl formed ↦ elim (Option-cases (get_record id tenant s)) [
      | inl missing ↦ rw (formed, missing) v
      | inr (seen, read) ↦ elim (Bool-cases (not (is_settling seen.status))) [
        | inl idle ↦ rw (formed, read, idle) v
        | inr leased ↦ elim (Bool-cases (is_past seen.claim_expires_at w.now)) [
          | inl late ↦ rw (formed, read, leased, late) v
          | inr in_time ↦
              elim (Bool-cases
                (not (safe_digest_equal seen.claim_id_hash (crypto.digest claim_id)))) [
                  | inl wrong ↦ rw (formed, read, leased, in_time, wrong) v
                  | inr right ↦ elim (Result-cases (verify seen)) [
                    | inl (e, failed) ↦ rw (formed, read, leased, in_time, right, failed) (k.0 s v)
                    | inr (x, accepted) ↦
                        rw (formed, read, leased, in_time, right, accepted)
                          (ended P (update id tenant _ w.stamp w.others (w.between s)) _ (
                            updated_held w id tenant _ (w.between s) k
                              (laws.completes _ x (sure seen x accepted)) (k.0 s v)))
                  ]
                ]
        ]
      ]
    ]
  ]

  -- A call of the service, whether it returns or throws, keeps the property of every record.
  pub after-Holding :
      (c : Call) (s : Repo)
      → IsSure P Good c
      → AllRecords P s
      → AllRecords P (after crypto settings c s)
  unfolding after
  after-Holding (drafting now id tenant d) s k v = create_draft-Holding now id tenant d s v
  after-Holding (preparing w id tenant) s k v = prepare-Holding w id tenant s k v
  after-Holding (approving w id token) s k v = approve-Holding w id token s k v
  after-Holding (claiming w claim_id id tenant) s k v = claim-Holding w claim_id id tenant s k v
  after-Holding (completing w verify claim_id id tenant) s k v =
      complete-Holding w verify claim_id id tenant s k.0 k.1 v
