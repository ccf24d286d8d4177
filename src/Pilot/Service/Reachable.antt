-- ===== src/Pilot/Service/Reachable.antt =====
-- The invariant of the stored records through the calls of the service, and the public evidence.
use stellar_agent_spend_hub.Common.{
  ℕ, String, ◌≡◌, refl, some, ◌&&◌, inl, inr, true, Bool-cases, List, [], ◌∷◌, All, filter, map,
  not,
}
use stellar_agent_spend_hub.Common.Map.{get}
use stellar_agent_spend_hub.Pilot.Record.{
  PilotRecord, Evidence, Status, created, settled, expired, public_pilot_evidence,
}
use stellar_agent_spend_hub.Pilot.Repository.{Repo, bump, list}
use stellar_agent_spend_hub.Pilot.Repository.Kept.{AllRecords, list-All}
use stellar_agent_spend_hub.Pilot.Validation.{safe_digest_equal}
use stellar_agent_spend_hub.Pilot.Service.{
  Crypto, Settings, World, Verified, evidence, is_settled, is_past, can_prepare, complete_change,
  is_approved, is_prepared, is_settling, pilot_tenant,
}
use stellar_agent_spend_hub.Pilot.Service.Holding.{
  Call, drafting, preparing, approving, claiming, completing, after, Upholds, Laws, IsSure,
  after-Holding,
}
use stellar_agent_spend_hub.Pilot.Service.Changes.{
  guard-eq-ok, guard_guard-eq-ok, IsValid, bump-IsValid, prepare_change-Preserves,
  approve_change-Preserves, expire_change-Preserves, claim_change-Preserves,
  complete_change-Preserves,
}

-- Every stored record has the facts of its status.
abbrev pub AllValid : Repo → Type 0
AllValid s = AllRecords IsValid s

-- What the other calls do to the store keeps the invariant as well.
abbrev pub KeepsValid : World → Type 0
KeepsValid w =
    ((s : Repo) → AllValid s → AllValid (w.between s))
    × ((n : ℕ) (s : Repo) → AllValid s → AllValid (w.others n s))

abbrev pub CallKeepsValid : Call → Type 0
CallKeepsValid (drafting now id tenant d) = Unit
CallKeepsValid (preparing w id tenant) = KeepsValid w
CallKeepsValid (approving w id token) = KeepsValid w
CallKeepsValid (claiming w claim_id id tenant) = KeepsValid w
CallKeepsValid (completing w verify claim_id id tenant) = KeepsValid w

nothing_there : (k : String) (r : PilotRecord) → get k [] ≡ some r → ⊥
unfolding get
nothing_there k r e = cc

abbrev Anything : Verified → Type 0
Anything x = Unit

fresh-IsValid : (r : PilotRecord) → r.status ≡ created → IsValid r
fresh-IsValid r e = rw e tt

IsValid-Laws : Laws IsValid Anything
IsValid-Laws = record {
  fresh = fresh-IsValid;
  stamps = bump-IsValid;
  prepares = prepare_change-Preserves;
  approves = approve_change-Preserves;
  expires = expire_change-Preserves;
  claims = claim_change-Preserves;
  completes = λ hash x good. complete_change-Preserves hash x;
}

-- A settled record holds the hash, the receipt and the time that a good verification gave.
abbrev pub BackedAt : (Verified → Type 0) → Status → PilotRecord → Type 0
BackedAt Good settled r =
    (x : Verified) × Good x
    × (r.transaction_hash ≡ some x.transaction_hash)
    × (r.receipt ≡ some x.receipt)
    × (r.settled_at ≡ some x.settled_at)
BackedAt Good s r = Unit

abbrev pub Backed : (Verified → Type 0) → PilotRecord → Type 0
Backed Good r = BackedAt Good r.status r

-- Evidence that comes from a good verification: its transaction and its time.
pub record IsBacked (Good : Verified → Type 0) (e : Evidence) : Type 0 where
  pub verification : Verified
  pub good : Good verification
  pub named : e.transaction_hash ≡ some verification.transaction_hash
  pub at_time : e.verified_at ≡ some verification.settled_at

module _ (Good : Verified → Type 0) where
  facts-bump :
      (s : Status) (r current : PilotRecord) (now : ℕ)
      → BackedAt Good s r
      → BackedAt Good s (bump current now r)
  facts-bump settled r current now h = h
  facts-bump created r current now h = tt
  facts-bump s r current now h = tt

  complete_change-Backed :
      (hash : String) (x : Verified) → Good x → Upholds (Backed Good) (complete_change hash x)
  complete_change-Backed hash x good r r' h done =
      let (_, _, same) =
        guard_guard-eq-ok (not (is_settling r.status))
          (not (safe_digest_equal r.claim_id_hash hash)) _ _ _ r' done in
      rw same (x, good, refl, refl, refl)

  Backed-Laws : Laws (Backed Good) Good
  Backed-Laws = record {
    fresh = λ r e. fresh r e;
    stamps = λ r current now h. facts-bump r.status r current now h;
    prepares = λ hash time r r' h done.
        let (_, same) = guard-eq-ok (not (can_prepare r.status)) _ _ r' done in rw same tt;
    approves = λ now r r' h done.
        let (_, same) = guard-eq-ok (not (is_prepared r.status)) _ _ r' done in rw same tt;
    expires = λ r r' h done. let same : r' ≡ record r { status = expired } = cc in rw same tt;
    claims = λ hash now r r' h done.
        let (_, same) =
          guard-eq-ok
            (not (is_approved r.status)
              && not (is_settling r.status && is_past r.claim_expires_at now))
            _ _ r' done in
        rw same tt;
    completes = complete_change-Backed;
  }
    where
      fresh : (r : PilotRecord) → r.status ≡ created → Backed Good r
      fresh r e = rw e tt

  shown-IsBacked :
      (s : Status) (r : PilotRecord)
      → BackedAt Good s r
      → is_settled s ≡ true
      → IsBacked Good (public_pilot_evidence r)
  unfolding public_pilot_evidence
  shown-IsBacked settled r (x, good, hash, receipt, time) h = record {
    verification = x;
    good = good;
    named = hash;
    at_time = time;
  }
  shown-IsBacked created r v h = cc
  shown-IsBacked s r v h = cc

  All-IsBacked :
      (rs : List PilotRecord)
      → All (Backed Good) rs
      → All (IsBacked Good) (map public_pilot_evidence (filter (λ r. is_settled r.status) rs))
  All-IsBacked [] h = tt
  All-IsBacked (r ∷ rs) (v, h) = elim (Bool-cases (is_settled r.status)) [
    | inl done ↦ rw done (shown-IsBacked r.status r v done, All-IsBacked rs h)
    | inr waiting ↦ rw waiting (All-IsBacked rs h)
  ]

module _ (crypto : Crypto) (settings : Settings) where
  CallKeepsValid-IsSure : (c : Call) → CallKeepsValid c → IsSure IsValid Anything c
  CallKeepsValid-IsSure (drafting now id tenant d) k = tt
  CallKeepsValid-IsSure (preparing w id tenant) k = k
  CallKeepsValid-IsSure (approving w id token) k = k
  CallKeepsValid-IsSure (claiming w claim_id id tenant) k = k
  CallKeepsValid-IsSure (completing w verify claim_id id tenant) k = (λ r x e. tt, k)

  -- Every call of the service, whether it returns or throws, keeps every stored record valid, as
  -- long as what other calls do to the store meanwhile does: in particular no record is approved,
  -- leased or settled without an approval time, and a settled one has a transaction and a receipt.
  pub after-AllValid :
      (c : Call) (s : Repo) → CallKeepsValid c → AllValid s → AllValid (after crypto settings c s)
  after-AllValid c s k v =
      after-Holding IsValid Anything IsValid-Laws crypto settings c s (CallKeepsValid-IsSure c k) v

  -- The stores that calls lead to from an empty one, where each verifier accepts only what is good.
  pub data Reachable (Good : Verified → Type 0) : Repo → Type 0 where
    start : Reachable Good (record { memory = []; idempotency = []; order = [] })
    step :
        {s : Repo} (c : Call)
        → IsSure (Backed Good) Good c
        → Reachable Good s
        → Reachable Good (after crypto settings c s)

  Reachable-Backed :
      (Good : Verified → Type 0) {s : Repo} → Reachable Good s → AllRecords (Backed Good) s
  Reachable-Backed Good start = λ k r e. absurd (nothing_there k r e)
  Reachable-Backed Good (step c sure h) =
      after-Holding (Backed Good) Good (Backed-Laws Good) crypto settings c _ sure
        (Reachable-Backed Good h)

  -- Take any property of what the verifiers of the settlements accept. In every store that calls lead to
  -- from the empty one, each entry of the public evidence comes from a verification with that property:
  -- it names that verification's transaction and its time; as long as what other calls do to the store
  -- meanwhile leaves on each settled record the hash, the receipt and the time of such a verification.
  pub evidence-IsBacked :
      (Good : Verified → Type 0) {s : Repo}
      → Reachable Good s
      → All (IsBacked Good) (evidence crypto settings s)
  unfolding evidence
  evidence-IsBacked Good {s} h =
      All-IsBacked Good (list pilot_tenant 20 s)
        (list-All (Backed Good) pilot_tenant 20 s (Reachable-Backed Good h))
