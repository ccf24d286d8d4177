-- ===== src/Pilot/Service/Changes.antt =====
-- The changes that the service makes to a record: which statuses they lead to, and the facts that
-- each status stands for.
use stellar_agent_spend_hub.Common.{
  ℕ, String, ◌≡◌, refl, Option, some, none, Bool, true, false, not, ◌&&◌, if◌then◌else◌,
}
use stellar_agent_spend_hub.Common.Result.{ok, err, HttpError}
use stellar_agent_spend_hub.Pilot.Record.{
  PilotRecord, Status, created, prepared, approved, settling, settled, expired,
}
use stellar_agent_spend_hub.Pilot.Repository.{Mutate, bump}
use stellar_agent_spend_hub.Pilot.Validation.{safe_digest_equal}
use stellar_agent_spend_hub.Pilot.Service.{
  Verified, prepare_change, approve_change, expire_change, claim_change, complete_change,
  can_prepare, is_prepared, is_approved, is_settling, is_past,
}

abbrev pub IsSome {ℓ} : {A : Type ℓ} → Option A → Type 0
IsSome none = ⊥
IsSome (some a) = Unit

-- What a record has at its status. An approval is needed for every later one, and only a settled
-- record has a receipt.
abbrev pub StatusFacts : Status → PilotRecord → Type 0
StatusFacts created r = Unit
StatusFacts prepared r = IsSome r.approval_token_hash × IsSome r.approval_expires_at
StatusFacts approved r = IsSome r.approved_at × (r.approval_token_hash ≡ none)
StatusFacts settling r = IsSome r.approved_at × IsSome r.claim_id_hash × IsSome r.claim_expires_at
StatusFacts settled r =
    IsSome r.approved_at
    × IsSome r.transaction_hash
    × IsSome r.receipt
    × IsSome r.settled_at
    × (r.claim_id_hash ≡ none)
StatusFacts expired r = Unit

abbrev pub IsValid : PilotRecord → Type 0
IsValid r = StatusFacts r.status r

abbrev pub Preserves : Mutate → Type 0
Preserves change = (r r' : PilotRecord) → IsValid r → change r ≡ ok r' → IsValid r'

approved_at_of :
    (s : Status) (r : PilotRecord) (past : Bool)
    → StatusFacts s r
    → (not (is_approved s) && not (is_settling s && past)) ≡ false
    → IsSome r.approved_at
approved_at_of created r past v h = absurd (true-ne-false h)
  where
    true-ne-false : true ≡ false → ⊥
    true-ne-false e = cc
approved_at_of prepared r past v h = cc
approved_at_of approved r past v h = v.0
approved_at_of settling r past v h = v.0
approved_at_of settled r past v h = v.0
approved_at_of expired r past v h = cc

settling_facts :
    (s : Status) (r : PilotRecord)
    → StatusFacts s r
    → not (is_settling s) ≡ false
    → IsSome r.approved_at
settling_facts settling r v h = v.0
settling_facts approved r v h = v.0
settling_facts settled r v h = v.0
settling_facts s r v h = cc

-- A guarded change that succeeds has passed its guard.
pub guard-eq-ok :
    (b : Bool) (e : HttpError) (x r : PilotRecord)
    → (if b then err e else ok x) ≡ ok r
    → (b ≡ false) × (r ≡ x)
guard-eq-ok true e x r h = absurd (err-is-ok h)
  where
    err-is-ok : err e ≡ ok r → ⊥
    err-is-ok k = cc
guard-eq-ok false e x r h = (refl, cc)

pub guard_guard-eq-ok :
    (b c : Bool) (e f : HttpError) (x r : PilotRecord)
    → (if b then err e else if c then err f else ok x) ≡ ok r
    → (b ≡ false) × (c ≡ false) × (r ≡ x)
guard_guard-eq-ok true c e f x r h = absurd (err-is-ok h)
  where
    err-is-ok : err e ≡ ok r → ⊥
    err-is-ok k = cc
guard_guard-eq-ok false c e f x r h = let (p, q) = guard-eq-ok c f x r h in (refl, p, q)

-- The two fields that `update` writes are in no fact.
facts-bump :
    (s : Status) (r current : PilotRecord) (now : ℕ)
    → StatusFacts s r
    → StatusFacts s (bump current now r)
facts-bump created r current now v = v
facts-bump prepared r current now v = v
facts-bump approved r current now v = v
facts-bump settling r current now v = v
facts-bump settled r current now v = v
facts-bump expired r current now v = v

pub bump-IsValid : (r current : PilotRecord) (now : ℕ) → IsValid r → IsValid (bump current now r)
bump-IsValid r current now v = facts-bump r.status r current now v

pub prepare_change-Preserves : (hash : String) (t : ℕ) → Preserves (prepare_change hash t)
prepare_change-Preserves hash t r r' v h =
    let (open_to, same) = guard-eq-ok (not (can_prepare r.status)) _ _ r' h in rw same (tt, tt)

pub approve_change-Preserves : (now : ℕ) → Preserves (approve_change now)
approve_change-Preserves now r r' v h =
    let (open_to, same) = guard-eq-ok (not (is_prepared r.status)) _ _ r' h in rw same (tt, refl)

pub expire_change-Preserves : Preserves expire_change
expire_change-Preserves r r' v h = let same : r' ≡ record r { status = expired } = cc in rw same tt

pub claim_change-Preserves : (hash : String) (now : ℕ) → Preserves (claim_change hash now)
claim_change-Preserves hash now r r' v h =
    let past = is_past r.claim_expires_at now in
    let (open_to, same) =
      guard-eq-ok (not (is_approved r.status) && not (is_settling r.status && past)) _ _ r' h in
    rw same (approved_at_of r.status r past v open_to, tt, tt)

pub complete_change-Preserves :
    (hash : String) (verified : Verified) → Preserves (complete_change hash verified)
complete_change-Preserves hash verified r r' v h =
    let (open_to, held, same) =
      guard_guard-eq-ok (not (is_settling r.status)) (not (safe_digest_equal r.claim_id_hash hash))
        _ _ _ r' h in
    rw same (settling_facts r.status r v open_to, tt, tt, tt, refl)
