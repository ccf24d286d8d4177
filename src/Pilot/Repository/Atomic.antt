-- ===== src/Pilot/Repository/Atomic.antt =====
-- `repository.update` where nothing interferes: one atomic change of the stored record.
use stellar_agent_spend_hub.Common.{
  ℕ, suc, String, ◌≡◌, Option, some, none, inl, inr, arith, Option-cases, true, ◌==◌,
}
use stellar_agent_spend_hub.Common.Result.{Result, ok, err, Result-cases}
use stellar_agent_spend_hub.Common.Map.{get-set_self}
use stellar_agent_spend_hub.Pilot.Record.{PilotRecord}
use stellar_agent_spend_hub.Pilot.Repository.{
  Repo, Mutate, bump, not_found, get_record, put_record, update, update_loop, request_key,
}

-- What was written under a key is read back.
pub get_record-put_record :
    (id tenant : String) (r : PilotRecord) (s : Repo)
    → get_record id tenant (put_record id tenant r s) ≡ some r
unfolding get_record put_record
get_record-put_record id tenant r s = get-set_self (request_key tenant id) r s.memory

abbrev pub settle :
    String → String → ℕ → PilotRecord → Repo → Result PilotRecord → Result PilotRecord × Repo
settle id tenant now current s (err e) = (err e, s)
settle id tenant now current s (ok changed) =
    (ok (bump current now changed), put_record id tenant (bump current now changed) s)

abbrev pub change_found :
    String → String → Mutate → ℕ → Repo → Option PilotRecord → Result PilotRecord × Repo
change_found id tenant mutate now s none = (err not_found, s)
change_found id tenant mutate now s (some current) = settle id tenant now current s (mutate current)

-- The change of one record, all at once.
pub atomic_update : String → String → Mutate → ℕ → Repo → Result PilotRecord × Repo
atomic_update id tenant mutate now s = change_found id tenant mutate now s (get_record id tenant s)

-- The change of a record that is there.
pub atomic_found :
    (id tenant : String) (mutate : Mutate) (now : ℕ) (s : Repo) (current : PilotRecord)
    → get_record id tenant s ≡ some current
    → atomic_update id tenant mutate now s ≡ settle id tenant now current s (mutate current)
unfolding atomic_update
atomic_found id tenant mutate now s current found = rw (found, atomic_update)

abbrev quiet : ℕ → Repo → Repo
quiet n s = s

first_attempt :
    (id tenant : String) (mutate : Mutate) (now : ℕ → ℕ) (n : ℕ) (s : Repo)
    → update_loop id tenant mutate now quiet (suc n) s ≡ atomic_update id tenant mutate (now n) s
unfolding update_loop atomic_update
first_attempt id tenant mutate now n s = elim (Option-cases (get_record id tenant s)) [
  | inl missing ↦ rw (missing, atomic_update)
  | inr (current, found) ↦ elim (Result-cases (mutate current)) [
    | inl (e, failed) ↦ rw (found, failed, atomic_update)
    | inr (changed, done) ↦
        let same : (current.version == current.version) ≡ true = ground arith in
        rw (found, done, found, same, atomic_update)
  ]
]

-- With no other call in between, the retry loop is one atomic change: its first attempt finds the
-- version that it read, and an error leaves the store as it was.
pub update-atomic :
    (id tenant : String) (mutate : Mutate) (now : ℕ → ℕ) (s : Repo)
    → update id tenant mutate now (λ n t. t) s ≡ atomic_update id tenant mutate (now 7) s
unfolding update
update-atomic id tenant mutate now s = first_attempt id tenant mutate now 7 s
