-- ===== src/Pilot/Repository/Linear.antt =====
-- `repository.update` among other calls: where it succeeds, it has changed the record that stood
-- in the store at that moment.
use stellar_agent_spend_hub.Common.{
  ℕ, zero, suc, String, ◌≡◌, sym, ap, ◌∙◌, some, inl, inr, arith, Bool-cases, Option-cases, ◌==◌,
}
use stellar_agent_spend_hub.Common.Result.{Result, ok, err, HttpError, Result-cases}
use stellar_agent_spend_hub.Common.Stage.{Stage, first, next}
use stellar_agent_spend_hub.Pilot.Record.{PilotRecord}
use stellar_agent_spend_hub.Pilot.Repository.{
  Repo, Mutate, bump, not_found, contended, get_record, put_record, update, update_loop,
}

err-ne-ok :
    (e : HttpError) (r : PilotRecord) (s t : Repo)
    → ◌≡◌ {A = Result PilotRecord × Repo} (err e, s) (ok r, t)
    → ⊥
err-ne-ok e r s t h = cc

pair_parts :
    (a b : PilotRecord) (s t : Repo)
    → ◌≡◌ {A = Result PilotRecord × Repo} (ok a, s) (ok b, t)
    → (a ≡ b) × (s ≡ t)
pair_parts a b s t h = (cc, cc)

module _ (id tenant : String) (mutate : Mutate) (now : ℕ → ℕ) (others : ℕ → Repo → Repo) where
  -- Other calls that leave a version alone leave its record alone: every write counts it up.
  abbrev pub KeepsVersions : Type 0
  KeepsVersions =
      (n : ℕ) (s : Repo) (a b : PilotRecord)
      → get_record id tenant s ≡ some a
      → get_record id tenant (others n s) ≡ some b
      → b.version ≡ a.version
      → b ≡ a

  -- What a success on a store means: one of the attempts on it had the live record before it, and it
  -- still stood there after the wait, in the store to which the change was written.
  pub record Committed (s : Repo) (r : PilotRecord) (t : Repo) : Type 0 where
    pub left : ℕ
    pub before : Repo
    pub reached : Stage others 8 s (suc left) before
    pub live : PilotRecord
    pub changed : PilotRecord
    pub read_before : get_record id tenant before ≡ some live
    pub read : get_record id tenant (others left before) ≡ some live
    pub mutated : mutate live ≡ ok changed
    pub result : r ≡ bump live (now left) changed
    pub written : t ≡ put_record id tenant r (others left before)

  Committed-of :
      (s u : Repo) (n : ℕ) (r current changed live : PilotRecord) (t : Repo)
      → KeepsVersions
      → Stage others 8 s (suc n) u
      → get_record id tenant u ≡ some current
      → mutate current ≡ ok changed
      → get_record id tenant (others n u) ≡ some live
      → live.version ≡ current.version
      → r ≡ bump current (now n) changed
      → t ≡ put_record id tenant r (others n u)
      → Committed s r t
  Committed-of s u n r current changed live t k reached read done found same result written =
      let unchanged : live ≡ current = k n u current live read found same in
      record {
        left = n;
        before = u;
        reached = reached;
        live = current;
        changed = changed;
        read_before = read;
        read = found ∙ ap some unchanged;
        mutated = done;
        result = result;
        written = written;
      }

  update_loop-Committed :
      (s : Repo) (n : ℕ) (u : Repo) (r : PilotRecord) (t : Repo)
      → KeepsVersions
      → Stage others 8 s n u
      → update_loop id tenant mutate now others n u ≡ (ok r, t)
      → Committed s r t
  unfolding update_loop
  update_loop-Committed s zero u r t k at h = absurd (err-ne-ok contended r u t h)
  update_loop-Committed s (suc n) u r t k at h =
      let again = update_loop-Committed s n (others n u) r t k (next at) in
      elim (Option-cases (get_record id tenant u)) [
        | inl missing ↦ absurd (err-ne-ok not_found r (others n u) t (rw missing at h))
        | inr (current, read) ↦ elim (Result-cases (mutate current)) [
          | inl (e, failed) ↦ absurd (err-ne-ok e r (others n u) t (rw (read, failed) at h))
          | inr (changed, done) ↦ elim (Option-cases (get_record id tenant (others n u))) [
            | inl gone ↦ again (rw (read, done, gone) at h)
            | inr (live, found) ↦ elim (Bool-cases (live.version == current.version)) [
              | inl same ↦
                  let (result, written) =
                    pair_parts (bump current (now n) changed) r _ t
                      (rw (read, done, found, same) at h) in
                  Committed-of s u n r current changed live t k at read done found (ground arith)
                    (sym result)
                    (sym written ∙ ap (λ x. put_record id tenant x (others n u)) result)
              | inr differs ↦ again (rw (read, done, found, differs) at h)
            ]
          ]
        ]
      ]

  -- Whatever the other calls do between its attempts, as long as they leave no changed record under
  -- the version that it had, an update that succeeds has, in one of its eight attempts, changed the
  -- record that it read at the start of the attempt and that still stood in the store at the moment of
  -- the write, and has written nothing else.
  pub update-Committed :
      (s : Repo) (r : PilotRecord) (t : Repo)
      → KeepsVersions
      → update id tenant mutate now others s ≡ (ok r, t)
      → Committed s r t
  unfolding update
  update-Committed s r t k h = update_loop-Committed s 8 s r t k first h
