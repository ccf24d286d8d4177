-- ===== src/Pilot/Service/Claims.antt =====
-- Claiming an approved request, and settling it with the claim.
use stellar_agent_spend_hub.Common.{
  ℕ, suc, String, ◌+◌, ◌<◌, ◌≡◌, refl, ◌∙◌, ap, some, none, inl, inr, ◌⊎◌, Bool, true, false, not,
  ◌&&◌, Bool-cases, Option-cases, arith, leb,
}
use stellar_agent_spend_hub.Common.Result.{Result, ok, throw, Result-cases}
use stellar_agent_spend_hub.Common.Action.{Action, ◌>>=◌, pure, bind-eq-ok, pure-eq-ok, err-ne-ok}
use stellar_agent_spend_hub.Common.Stage.{Stage}
use stellar_agent_spend_hub.Pilot.Record.{
  PilotRecord, PublicRequest, Status, created, approved, settling, settled, public_pilot_request,
}
use stellar_agent_spend_hub.Pilot.Repository.{Repo, get_record, put_record, update, bump}
use stellar_agent_spend_hub.Pilot.Repository.Atomic.{
  get_record-put_record, update-atomic, atomic_found,
}
use stellar_agent_spend_hub.Pilot.Repository.Linear.{update-Committed}
use stellar_agent_spend_hub.Pilot.Repository.Versions.{Grows-same}
use stellar_agent_spend_hub.Pilot.Validation.{safe_digest_equal, is_request_id}
use stellar_agent_spend_hub.Pilot.Service.{
  Crypto, Settings, World, Claim, Verified, require_request, claim, claim_change, complete,
  complete_change, is_approved, is_settling, is_past, claim_ttl,
}
use stellar_agent_spend_hub.Pilot.Service.Changes.{guard-eq-ok, guard_guard-eq-ok}
use stellar_agent_spend_hub.Pilot.Service.Approval.{IsFair}

claimable :
    (s : Status) (past : Bool)
    → (not (is_approved s) && not (is_settling s && past)) ≡ false
    → (s ≡ approved) ⊎ ((s ≡ settling) × (past ≡ true))
claimable approved past h = inl refl
claimable settling true h = inr (refl, refl)
claimable settling false h = cc
claimable created past h = cc
claimable s past h = cc

-- What one of the attempts of a claim that succeeds has written over what.
pub record IsClaim (crypto : Crypto) (w : World) (claim_id id tenant : String) (s t : Repo)
    : Type 0 where
  pub left : ℕ
  pub before : Repo
  pub reached : Stage w.others 8 s (suc left) before
  pub live : PilotRecord
  pub read : get_record id tenant (w.others left before) ≡ some live
  pub free :
      (live.status ≡ approved)
      ⊎ ((live.status ≡ settling) × (is_past live.claim_expires_at w.now ≡ true))
  pub written :
      t
      ≡ put_record id tenant
          (bump live (w.stamp left) (record live {
            status = settling;
            claim_id_hash = some (crypto.digest claim_id);
            claim_expires_at = some (w.now + claim_ttl);
          }))
          (w.others left before)

module _ (crypto : Crypto) (settings : Settings) (w : World) (claim_id id tenant : String)
    (s t : Repo) where
  -- A claim that succeeds among calls that count versions up has found the request approved, or
  -- settling under a lease that had run out, and has put it under a new lease with its own digest.
  pub claim-IsClaim :
      (c : Claim)
      → IsFair w
      → claim crypto settings w claim_id id tenant s ≡ (ok c, t)
      → IsClaim crypto w claim_id id tenant s t
  unfolding claim
  claim-IsClaim c fair h =
      let change = claim_change (crypto.digest claim_id) w.now in
      let (r, u, updated, done) = bind-eq-ok (update id tenant change w.stamp w.others) _ s t c h in
      let (_, kept) = pure-eq-ok _ c u t done in
      let k =
        update-Committed id tenant change w.stamp w.others s r u
          (λ n v a b read live same.
            Grows-same v (w.others n v) id tenant a b (fair.during n v) read live same)
          updated in
      let (open_to, changed) =
        guard-eq-ok
          (not (is_approved k.live.status)
            && not (is_settling k.live.status && is_past k.live.claim_expires_at w.now))
          _ _ k.changed k.mutated in
      record {
        left = k.left;
        before = k.before;
        reached = k.reached;
        live = k.live;
        read = k.read;
        free = claimable k.live.status (is_past k.live.claim_expires_at w.now) open_to;
        written =
            kept
            ∙ k.written
            ∙ ap (λ x. put_record id tenant x (w.others k.left k.before))
                (k.result ∙ ap (λ x. bump k.live (w.stamp k.left) x) changed);
      }

-- While the lease of a claim runs, no second claim succeeds: on the store that a claim left, where
-- no other call intervenes, one that comes before the lease ends is refused with status 409 and
-- changes nothing.
pub claim_exclusive :
    (crypto : Crypto) (settings : Settings) (w : World) (now : ℕ) (between : Repo → Repo)
    (stamp : ℕ → ℕ) (claim_id claim_id' id tenant : String) (s t : Repo) (c : Claim)
    → IsFair w
    → claim crypto settings w claim_id id tenant s ≡ (ok c, t)
    → now < w.now + claim_ttl
    → claim crypto settings
        (record { now = now; between = between; others = λ n u. u; stamp = stamp })
        claim_id'
        id
        tenant
        t
      ≡ (throw 409 "Pilot request cannot be claimed", t)
unfolding claim
claim_exclusive crypto settings w now between stamp claim_id claim_id' id tenant s t c fair h
      early =
    let k = claim-IsClaim crypto settings w claim_id id tenant s t c fair h in
    let next = bump k.live (w.stamp k.left) (record k.live {
      status = settling;
      claim_id_hash = some (crypto.digest claim_id);
      claim_expires_at = some (w.now + claim_ttl);
    }) in
    let stored : get_record id tenant t ≡ some next =
      ap (get_record id tenant) k.written
      ∙ get_record-put_record id tenant next (w.others k.left k.before) in
    let change = claim_change (crypto.digest claim_id') now in
    let held : leb (w.now + claim_ttl) now ≡ false = ground arith in
    rw (
      update-atomic id tenant change stamp t,
      atomic_found id tenant change (stamp 7) t next stored,
      held,
    )

-- What a settlement that succeeds has seen and verified, and what one of the attempts of its update,
-- which began on the store after the wait, has written over what.
pub record IsSettlement (crypto : Crypto) (w : World) (verify : PilotRecord → Result Verified)
    (claim_id id tenant : String) (s t : Repo) : Type 0 where
  pub seen : PilotRecord
  pub found : get_record id tenant s ≡ some seen
  pub leased : seen.status ≡ settling
  pub in_time : is_past seen.claim_expires_at w.now ≡ false
  pub claimed : safe_digest_equal seen.claim_id_hash (crypto.digest claim_id) ≡ true
  pub verified : Verified
  pub accepted : verify seen ≡ ok verified
  pub left : ℕ
  pub before : Repo
  pub reached : Stage w.others 8 (w.between s) (suc left) before
  pub live : PilotRecord
  pub read : get_record id tenant (w.others left before) ≡ some live
  pub still_leased : live.status ≡ settling
  pub still_claimed : safe_digest_equal live.claim_id_hash (crypto.digest claim_id) ≡ true
  pub written :
      t
      ≡ put_record id tenant
          (bump live (w.stamp left) (record live {
            status = settled;
            transaction_hash = some verified.transaction_hash;
            receipt = some verified.receipt;
            settled_at = some verified.settled_at;
            claim_id_hash = none;
          }))
          (w.others left before)

is_settling_inv : (s : Status) → not (is_settling s) ≡ false → s ≡ settling
is_settling_inv settling h = refl
is_settling_inv created h = cc
is_settling_inv s h = cc

not_inv : (b : Bool) → not b ≡ false → b ≡ true
not_inv true h = refl
not_inv false h = cc

module _ (crypto : Crypto) (settings : Settings) (w : World)
    (verify : PilotRecord → Result Verified) (claim_id id tenant : String) (s t : Repo)
    (p : PublicRequest) where
  -- The write of `complete`, after its checks.
  abbrev complete_write : Verified → Action Repo PublicRequest
  complete_write v = do
    updated ← update id tenant (complete_change (crypto.digest claim_id) v) w.stamp w.others
    pure (public_pilot_request updated)

  complete_passed :
      complete crypto settings w verify claim_id id tenant s ≡ (ok p, t)
      → (seen : PilotRecord) × (v : Verified) × (get_record id tenant s ≡ some seen)
        × (not (is_settling seen.status) ≡ false)
        × (is_past seen.claim_expires_at w.now ≡ false)
        × (not (safe_digest_equal seen.claim_id_hash (crypto.digest claim_id)) ≡ false)
        × (verify seen ≡ ok v)
        × (complete_write v (w.between s) ≡ (ok p, t))
  unfolding complete require_request
  complete_passed h = elim (Bool-cases (is_request_id id)) [
    | inr malformed ↦ absurd (err-ne-ok _ s t p (rw malformed at h))
    | inl formed ↦ elim (Option-cases (get_record id tenant s)) [
      | inl missing ↦ absurd (err-ne-ok _ s t p (rw (formed, missing) at h))
      | inr (seen, read) ↦ elim (Bool-cases (not (is_settling seen.status))) [
        | inl idle ↦ absurd (err-ne-ok _ s t p (rw (formed, read, idle) at h))
        | inr leased ↦ elim (Bool-cases (is_past seen.claim_expires_at w.now)) [
          | inl late ↦ absurd (err-ne-ok _ s t p (rw (formed, read, leased, late) at h))
          | inr in_time ↦
              elim (Bool-cases
                (not (safe_digest_equal seen.claim_id_hash (crypto.digest claim_id)))) [
                  | inl wrong ↦
                      absurd (err-ne-ok _ s t p (rw (formed, read, leased, in_time, wrong) at h))
                  | inr right ↦ elim (Result-cases (verify seen)) [
                    | inl (e, failed) ↦ absurd (
                        err-ne-ok e (w.between s) t p
                          (rw (formed, read, leased, in_time, right, failed) at h))
                    | inr (v, accepted) ↦ (
                      seen,
                      v,
                      read,
                      leased,
                      in_time,
                      right,
                      accepted,
                      rw (formed, read, leased, in_time, right, accepted) at h,
                    )
                  ]
                ]
        ]
      ]
    ]
  ]

  -- A settlement that succeeds among calls that count versions up was asked for under a running
  -- lease with the claim's digest, was accepted by the verifier, and in one of the attempts of its update
  -- turned the record that was still leased under that digest at the moment of the write into a settled one that holds what
  -- the verifier returned and no claim.
  pub complete-IsSettlement :
      IsFair w
      → complete crypto settings w verify claim_id id tenant s ≡ (ok p, t)
      → IsSettlement crypto w verify claim_id id tenant s t
  complete-IsSettlement fair h =
      let (seen, v, found, leased, in_time, right, accepted, wrote) = complete_passed h in
      let change = complete_change (crypto.digest claim_id) v in
      let (r, u, updated, done) =
        bind-eq-ok (update id tenant change w.stamp w.others) (λ x. pure (public_pilot_request x))
          (w.between s) t p wrote in
      let (_, kept) = pure-eq-ok (public_pilot_request r) p u t done in
      let c =
        update-Committed id tenant change w.stamp w.others (w.between s) r u
          (λ n x a b read live same.
            Grows-same x (w.others n x) id tenant a b (fair.during n x) read live same)
          updated in
      let (open_to, held, changed) =
        guard_guard-eq-ok (not (is_settling c.live.status))
          (not (safe_digest_equal c.live.claim_id_hash (crypto.digest claim_id))) _ _ _ c.changed
          c.mutated in
      record {
        seen = seen;
        found = found;
        leased = is_settling_inv seen.status leased;
        in_time = in_time;
        claimed = not_inv _ right;
        verified = v;
        accepted = accepted;
        left = c.left;
        before = c.before;
        reached = c.reached;
        live = c.live;
        read = c.read;
        still_leased = is_settling_inv c.live.status open_to;
        still_claimed = not_inv _ held;
        written =
            kept
            ∙ c.written
            ∙ ap (λ x. put_record id tenant x (w.others c.left c.before))
                (c.result ∙ ap (λ x. bump c.live (w.stamp c.left) x) changed);
      }
