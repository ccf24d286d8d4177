-- ===== src/Pilot/Service/Approval.antt =====
-- Approving a prepared request: what a success needs, and what it leaves, among other calls.
use stellar_agent_spend_hub.Common.{
  ℕ, suc, String, ◌≡◌, refl, ◌∙◌, ap, some, none, inl, inr, Bool, true, false, not, Bool-cases,
  Option-cases, subst,
}
use stellar_agent_spend_hub.Common.Result.{ok, throw, http_error}
use stellar_agent_spend_hub.Common.Action.{
  Action, ◌>>=◌, pure, raise, bind-eq-ok, pure-eq-ok, err-ne-ok,
}
use stellar_agent_spend_hub.Common.Stage.{Stage}
use stellar_agent_spend_hub.Pilot.Record.{
  PilotRecord, PublicRequest, Status, created, prepared, approved, expired, public_pilot_request,
}
use stellar_agent_spend_hub.Pilot.Repository.{Repo, get_record, put_record, update, bump}
use stellar_agent_spend_hub.Pilot.Repository.Atomic.{
  get_record-put_record, update-atomic, atomic_found,
}
use stellar_agent_spend_hub.Pilot.Repository.Linear.{update-Committed}
use stellar_agent_spend_hub.Pilot.Repository.Versions.{Grows, Grows-same}
use stellar_agent_spend_hub.Pilot.Validation.{safe_digest_equal, is_request_id}
use stellar_agent_spend_hub.Pilot.Service.{
  Crypto, Settings, World, pilot_tenant, require_request, approve, approve_change, expire_change,
  is_prepared, is_past,
}
use stellar_agent_spend_hub.Pilot.Service.Changes.{guard-eq-ok}

-- While a call waits, the others only make the store grow.
pub record IsFair (w : World) : Type 0 where
  pub before : (s : Repo) → Grows s (w.between s)
  pub during : (n : ℕ) (s : Repo) → Grows s (w.others n s)

-- A success of `approve`: what the caller had seen, and what one of the attempts of its update,
-- which began on the store after the wait, has written over what.
pub record IsApproval (crypto : Crypto) (w : World) (id token : String) (s t : Repo)
    (seen : PilotRecord) : Type 0 where
  pub formed : is_request_id id ≡ true
  pub found : get_record id pilot_tenant s ≡ some seen
  pub awaited : seen.status ≡ prepared
  pub in_time : is_past seen.approval_expires_at w.now ≡ false
  pub authorised : safe_digest_equal seen.approval_token_hash (crypto.digest token) ≡ true
  pub left : ℕ
  pub before : Repo
  pub reached : Stage w.others 8 (w.between s) (suc left) before
  pub live : PilotRecord
  pub read : get_record id seen.tenant_id (w.others left before) ≡ some live
  pub still_prepared : live.status ≡ prepared
  pub written :
      t
      ≡ put_record id seen.tenant_id
          (bump live (w.stamp left) (record live {
            status = approved;
            approved_at = some w.now;
            approval_token_hash = none;
          }))
          (w.others left before)

is_prepared_inv : (s : Status) → not (is_prepared s) ≡ false → s ≡ prepared
is_prepared_inv prepared h = refl
is_prepared_inv created h = cc
is_prepared_inv s h = cc

not_inv : (b : Bool) → not b ≡ false → b ≡ true
not_inv true h = refl
not_inv false h = cc

raise_after :
    {A : Type 0} (m : Action Repo PilotRecord) (k : Unit → Action Repo A) (status : ℕ)
    (message : String) (s t : Repo) (a : A)
    → ((m >>= λ gone. raise {A = Unit} status message) >>= k) s ≡ (ok a, t)
    → ⊥
raise_after m k status message s t a h =
    let (x, u, first, rest) =
      bind-eq-ok (m >>= λ gone. raise {A = Unit} status message) k s t a h in
    let (gone, v, updated, raised) =
      bind-eq-ok m (λ r. raise {A = Unit} status message) s u x first in
    err-ne-ok (http_error status message) v u x raised

module _ (crypto : Crypto) (settings : Settings) (w : World) (id token : String) (s t : Repo)
    (p : PublicRequest) where
  -- The write of `approve`, for the request that it has read and checked.
  abbrev approve_write : PilotRecord → Action Repo PublicRequest
  approve_write seen = do
    updated ← update id seen.tenant_id (approve_change w.now) w.stamp w.others
    pure (public_pilot_request updated)

  -- What a success of `approve` has passed.
  approve_passed :
      approve crypto settings w id token s ≡ (ok p, t)
      → (seen : PilotRecord) × (is_request_id id ≡ true)
        × (get_record id pilot_tenant s ≡ some seen)
        × (not (is_prepared seen.status) ≡ false)
        × (is_past seen.approval_expires_at w.now ≡ false)
        × (not (safe_digest_equal seen.approval_token_hash (crypto.digest token)) ≡ false)
        × (approve_write seen (w.between s) ≡ (ok p, t))
  unfolding approve require_request
  approve_passed h = elim (Bool-cases (is_request_id id)) [
    | inr malformed ↦ absurd (err-ne-ok _ s t p (rw malformed at h))
    | inl formed ↦ elim (Option-cases (get_record id pilot_tenant s)) [
      | inl missing ↦ absurd (err-ne-ok _ s t p (rw (formed, missing) at h))
      | inr (seen, read) ↦ elim (Bool-cases (not (is_prepared seen.status))) [
        | inl early ↦ absurd (err-ne-ok _ (w.between s) t p (rw (formed, read, early) at h))
        | inr awaited ↦ elim (Bool-cases (is_past seen.approval_expires_at w.now)) [
          | inl late ↦ absurd (
              raise_after (update id seen.tenant_id expire_change w.stamp w.others) _ 410
                "Pilot approval expired" (w.between s) t p (rw (formed, read, awaited, late) at h))
          | inr in_time ↦
              elim (Bool-cases
                (not (safe_digest_equal seen.approval_token_hash (crypto.digest token)))) [
                  | inl wrong ↦ absurd (
                      err-ne-ok _ (w.between s) t p
                        (rw (formed, read, awaited, in_time, wrong) at h))
                  | inr right ↦ (
                    seen,
                    formed,
                    read,
                    awaited,
                    in_time,
                    right,
                    rw (formed, read, awaited, in_time, right) at h,
                  )
                ]
        ]
      ]
    ]
  ]

  -- An approval that succeeds among calls that count versions up was given for a prepared request
  -- that had not expired, by a token with the stored digest, and in one of the attempts of its update it
  -- turned the record that was still prepared at the moment of the write into an approved one without
  -- a token.
  pub approve-IsApproval :
      IsFair w
      → approve crypto settings w id token s ≡ (ok p, t)
      → (seen : PilotRecord) × IsApproval crypto w id token s t seen
  approve-IsApproval fair h =
      let (seen, formed, found, awaited, in_time, right, wrote) = approve_passed h in
      let (r, u, updated, done) =
        bind-eq-ok (update id seen.tenant_id (approve_change w.now) w.stamp w.others)
          (λ x. pure (public_pilot_request x)) (w.between s) t p wrote in
      let (_, kept) = pure-eq-ok (public_pilot_request r) p u t done in
      let c =
        update-Committed id seen.tenant_id (approve_change w.now) w.stamp w.others (w.between s) r u
          (λ n v a b read live same.
            Grows-same v (w.others n v) id seen.tenant_id a b (fair.during n v) read live same)
          updated in
      let (open_to, changed) =
        guard-eq-ok (not (is_prepared c.live.status)) _ _ c.changed c.mutated in
      (
        seen,
        record {
          formed = formed;
          found = found;
          awaited = is_prepared_inv seen.status awaited;
          in_time = in_time;
          authorised = not_inv _ right;
          left = c.left;
          before = c.before;
          reached = c.reached;
          live = c.live;
          read = c.read;
          still_prepared = is_prepared_inv c.live.status open_to;
          written =
              kept
              ∙ c.written
              ∙ ap (λ x. put_record id seen.tenant_id x (w.others c.left c.before))
                  (c.result ∙ ap (λ x. bump c.live (w.stamp c.left) x) changed);
        },
      )

-- A request that is not prepared any more refuses every approval with status 409.
refused_when :
    (crypto : Crypto) (settings : Settings) (w : World) (id token : String) (s : Repo)
    (r : PilotRecord)
    → is_request_id id ≡ true
    → get_record id pilot_tenant s ≡ some r
    → not (is_prepared r.status) ≡ true
    → approve crypto settings w id token s
      ≡ (throw 409 "Pilot request is not awaiting approval", w.between s)
unfolding approve require_request
refused_when crypto settings w id token s r formed read done = rw (formed, read, done)

-- After an approval that succeeds among calls that count versions up, on a request stored under
-- its own tenant, every further approval of that request on the store that it left is refused with
-- status 409, whatever token it brings and at whatever time.
pub approve_once :
    (crypto : Crypto) (settings : Settings) (w w' : World) (id token token' : String) (s t : Repo)
    (p : PublicRequest)
    → IsFair w
    → ((r : PilotRecord) → get_record id pilot_tenant s ≡ some r → r.tenant_id ≡ pilot_tenant)
    → approve crypto settings w id token s ≡ (ok p, t)
    → approve crypto settings w' id token' t
      ≡ (throw 409 "Pilot request is not awaiting approval", w'.between t)
approve_once crypto settings w w' id token token' s t p fair own h =
    let (seen, a) = approve-IsApproval crypto settings w id token s t p fair h in
    let next =
      bump a.live (w.stamp a.left) (record a.live {
        status = approved;
        approved_at = some w.now;
        approval_token_hash = none;
      }) in
    let stored : get_record id pilot_tenant t ≡ some next =
      subst (λ k. get_record id k t ≡ some next) (own seen a.found)
        (ap (get_record id seen.tenant_id) a.written
          ∙ get_record-put_record id seen.tenant_id next (w.others a.left a.before)) in
    refused_when crypto settings w' id token' t next a.formed stored refl

-- An approval that comes too late marks as expired whatever record stands in the store by then,
-- without looking at its status: one that another call has meanwhile approved, claimed or settled
-- is overwritten.
pub late_approval_overwrites :
    (crypto : Crypto) (settings : Settings) (now : ℕ) (between : Repo → Repo) (stamp : ℕ → ℕ)
    (id token : String) (s : Repo) (seen live : PilotRecord)
    → is_request_id id ≡ true
    → get_record id pilot_tenant s ≡ some seen
    → seen.status ≡ prepared
    → is_past seen.approval_expires_at now ≡ true
    → get_record id seen.tenant_id (between s) ≡ some live
    → approve crypto settings
        (record { now = now; between = between; others = λ n u. u; stamp = stamp })
        id
        token
        s
      ≡ (
        throw 410 "Pilot approval expired",
        put_record id seen.tenant_id
            (bump live (stamp 7) (record live { status = expired }))
            (between s),
      )
unfolding approve require_request
late_approval_overwrites crypto settings now between stamp id token s seen live formed read awaited
      late found =
    let waiting : not (is_prepared seen.status) ≡ false = rw awaited in
    rw (
      formed,
      read,
      waiting,
      late,
      update-atomic id seen.tenant_id expire_change stamp (between s),
      atomic_found id seen.tenant_id expire_change (stamp 7) (between s) live found,
    )
