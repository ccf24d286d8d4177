-- ===== src/SpendHub/Service/Once.antt =====
-- How many receipts an intent of the hub gets (src/spendHubService.mjs).
use stellar_agent_spend_hub.Common.{
  ℕ, ◌+◌, ◌≤◌, String, true, none, some, List, [], ◌∷◌, find, ◌≡◌, refl, sym, subst, ◌∙◌, inl, inr,
  arith, Bool-cases, and-eq-true, if◌then◌else◌,
}
use stellar_agent_spend_hub.Common.Text.{eq_iff}
use stellar_agent_spend_hub.Domain.{Receipt}
use stellar_agent_spend_hub.SpendHub.Hub.{Hub, Setup, World}
use stellar_agent_spend_hub.SpendHub.Service.{is_live}
use stellar_agent_spend_hub.SpendHub.Service.Charging.{IsHonest, IsCharged}
use stellar_agent_spend_hub.SpendHub.Service.Runs.{
  Call, approving_link, Grown, idle, paid, paid_link, after-Grown, Run, start, call,
}

-- the receipts of an intent that are not blocked
pub live_count : String → List Receipt → ℕ
live_count id [] = 0
live_count id (r ∷ rs) = (if is_live id r then 1 else 0) + live_count id rs

none-live : (id : String) (rs : List Receipt) → find (is_live id) rs ≡ none → live_count id rs ≡ 0
unfolding live_count
none-live id [] h = refl
none-live id (r ∷ rs) h = elim (Bool-cases (is_live id r)) [
  | inl e ↦ absurd (found (rw e at h))
  | inr e ↦ rw (e) (omega (arith, none-live id rs (rw e at h)))
]
  where
    found : some r ≡ none → ⊥
    found k = cc

pub live_count-cons :
    (id : String) (r : Receipt) (rs : List Receipt)
    → is_live id r ≡ true
    → live_count id (r ∷ rs) ≡ 1 + live_count id rs
unfolding live_count
live_count-cons id r rs h = rw h

pub IsCharged-intent_id :
    (setup : Setup) (w : World) (id : String) (s : Hub) (r : Receipt)
    → IsCharged setup w id s r
    → r.intent_id ≡ id
IsCharged-intent_id setup w id s r charge = charge.decided.made.of_intent ∙ charge.named

-- a receipt of the intent `id` put to receipts that hold no live one of it
add_first :
    (id other : String) (r : Receipt) (rs : List Receipt)
    → r.intent_id ≡ id
    → live_count id rs ≡ 0
    → live_count other rs ≤ 1
    → live_count other (r ∷ rs) ≤ 1
unfolding live_count
add_first id other r rs of_intent zero_live before = elim (Bool-cases (is_live other r)) [
  | inr e ↦ rw (e) (omega (arith, before))
  | inl e ↦
      let (same, _) = and-eq-true _ _ e in
      let named : id ≡ other = sym of_intent ∙ (eq_iff r.intent_id other).0 same in
      let clear = subst (λ k. live_count k rs ≡ 0) named zero_live in rw (e, clear) (omega arith)
]

-- The call does not go past the check of `approveIntent`, and nothing is paid while it waits.
pub record IsQuiet (w : World) (c : Call) (s : Hub) : Type 0 where
  pub alone : (t : Hub) → (w.during_evaluation t).receipts ≡ t.receipts
  pub checked : (id by : String) → c ≡ approving_link id by → ⊥

module _ (setup : Setup) (honest : IsHonest setup) where
  -- In every run of calls from a hub without receipts in which no receipt comes or goes while a call waits
  -- and no call approves a link request past `approveIntent`, no intent gets more than one receipt that
  -- is not blocked: where the adapters settle only what was allowed and keep the intent's number on their
  -- receipts, the payments of the intents stay as they are while a call waits for an adapter, and no
  -- intent goes away while it waits for its evaluation.
  pub Run-one_receipt : (s : Hub) (id : String) → Run setup IsQuiet s → live_count id s.receipts ≤ 1
  unfolding live_count
  Run-one_receipt _ id (start s e) = rw e (omega arith)
  Run-one_receipt _ id (call w c t calm keeper quiet before) =
      one_more (after-Grown setup w calm keeper honest c t) (Run-one_receipt t id before)
    where
      one_more :
          {u : Hub}
          → Grown setup w c t u
          → live_count id t.receipts ≤ 1
          → live_count id u.receipts ≤ 1
      one_more (idle (inl e)) h = rw e h
      one_more (idle (inr e)) h = rw (e, quiet.alone t) h
      one_more (paid other by r is free charge e) h =
          rw (e, quiet.alone t)
            (add_first other id r t.receipts (IsCharged-intent_id setup w other t r charge)
              (none-live other t.receipts free) h)
      one_more (paid_link other by r is charge e) h = absurd (quiet.checked other by is)

pub live-found :
    (id : String) (rs : List Receipt) (r : Receipt)
    → find (is_live id) rs ≡ some r
    → 1 ≤ live_count id rs
unfolding live_count
live-found id [] r h = cc
live-found id (x ∷ rs) r h = elim (Bool-cases (is_live id x)) [
  | inl e ↦ rw (e) (omega arith)
  | inr e ↦ rw (e) (omega (arith, live-found id rs r (rw e at h)))
]
