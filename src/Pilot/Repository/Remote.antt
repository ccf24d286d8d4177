-- ===== src/Pilot/Repository/Remote.antt =====
-- The remote store's compare-and-set script does what the store in memory does.
use stellar_agent_spend_hub.Common.{
  ℕ, zero, suc, String, ◌≡◌, refl, some, none, inl, inr, Bool-cases, Option-cases, ◌==◌, ◌≢◌,
  Option,
}
use stellar_agent_spend_hub.Common.Result.{Result-cases}
use stellar_agent_spend_hub.Pilot.Record.{PilotRecord}
use stellar_agent_spend_hub.Pilot.Repository.{
  Repo, Mutate, get_record, update, update_loop, cas_loop, remote_update, cas_script,
}

module _ (id tenant : String) (mutate : Mutate) (now : ℕ → ℕ) (others : ℕ → Repo → Repo) where
  -- No other call takes the record away.
  abbrev pub KeepsRecord : Type 0
  KeepsRecord =
      (n : ℕ) (s : Repo) → get_record id tenant s ≢ none → get_record id tenant (others n s) ≢ none

  some-ne-none : (o : Option PilotRecord) (r : PilotRecord) → o ≡ some r → o ≢ none
  some-ne-none o r h e = cc

  loops-agree :
      (n : ℕ) (s : Repo)
      → KeepsRecord
      → cas_loop id tenant mutate now others n s ≡ update_loop id tenant mutate now others n s
  unfolding cas_loop update_loop cas_script
  loops-agree zero s k = refl
  loops-agree (suc n) s k = elim (Option-cases (get_record id tenant s)) [
    | inl missing ↦ rw missing
    | inr (current, read) ↦ elim (Result-cases (mutate current)) [
      | inl (e, failed) ↦ rw (read, failed)
      | inr (changed, done) ↦ elim (Option-cases (get_record id tenant (others n s))) [
        | inl gone ↦ absurd (k n s (some-ne-none (get_record id tenant s) current read) gone)
        | inr (live, found) ↦ elim (Bool-cases (live.version == current.version)) [
          | inl same ↦ rw (read, done, found, same, cas_script)
          | inr differs ↦ rw (read, done, found, differs, cas_script) (loops-agree n (others n s) k)
        ]
      ]
    ]
  ]

  -- As long as no other call removes the record, updating through the remote store's script gives
  -- the result and the store of an update in memory, whatever the other calls write in between.
  pub remote_update-eq-update :
      (s : Repo)
      → KeepsRecord
      → remote_update id tenant mutate now others s ≡ update id tenant mutate now others s
  unfolding remote_update update
  remote_update-eq-update s k = loops-agree 8 s k
