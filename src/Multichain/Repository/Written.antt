-- ===== src/Multichain/Repository/Written.antt =====
-- What an update of a multichain record has written when it returns
-- (src/multichainRepository.mjs, `update`).
use stellar_agent_spend_hub.Common.{
  ℕ, zero, suc, ◌+◌, String, true, Option, none, some, ◌==◌, ◌≡◌, refl, inl, inr, Bool-cases,
  ==_iff, if◌then◌else◌,
}
use stellar_agent_spend_hub.Common.Text.{Codes}
use stellar_agent_spend_hub.Common.Result.{Result, ok, err}
use stellar_agent_spend_hub.Common.After.{After, returned}
use stellar_agent_spend_hub.Common.Stage.{Stage, first, next}
use stellar_agent_spend_hub.Multichain.Repository.{
  Stored, Shelf, lookup, put, unmoved, commit, attempt, update_loop, update,
}

module _ {R : Type 0} (stored : Stored R) (id : String) (mutate : R → Result R) (now : ℕ → Codes)
    (others : ℕ → Shelf R → Shelf R) where
  -- What a success on a store means: one of the attempts on it read a record and changed it, and the
  -- change, with the next version, was written over a live record of the same version in the store
  -- after the wait.
  pub record IsWritten (s : Shelf R) (r : R) (t : Shelf R) : Type 0 where
    pub left : ℕ
    pub before : Shelf R
    pub reached : Stage others 8 s (suc left) before
    pub current : R
    pub read : lookup id before ≡ some current
    pub live : R
    pub stood : lookup id (others left before) ≡ some live
    pub same_version : stored.version_of live ≡ stored.version_of current
    pub changed : R
    pub mutated : mutate current ≡ ok changed
    pub result : r ≡ stored.stamp_with (stored.version_of current + 1) (now left) changed
    pub written : t ≡ put id r (others left before)

  abbrev Outcome : Shelf R → Result R × Shelf R → Type 0
  Outcome s x = After (IsWritten s) (λ t. Unit) x

  module _ (s : Shelf R) (n : ℕ) (u : Shelf R) (at : Stage others 8 s (suc n) u) where
    write_if-Outcome :
        (current changed : R) (retry : Result R × Shelf R)
        → lookup id u ≡ some current
        → mutate current ≡ ok changed
        → Outcome s retry
        → (o : Option R) → lookup id (others n u) ≡ o
        → Outcome s (
            if unmoved stored o current
            then (
              ok (stored.stamp_with (stored.version_of current + 1) (now n) changed),
              put id
                  (stored.stamp_with (stored.version_of current + 1) (now n) changed)
                  (others n u),
            )
            else retry)
    write_if-Outcome current changed retry read done h none e = h
    write_if-Outcome current changed retry read done h (some live) e =
        elim (Bool-cases (stored.version_of live == stored.version_of current)) [
          | inr moved ↦ rw (moved) h
          | inl same ↦ rw (same) (
              returned _ _ (record {
                left = n;
                before = u;
                reached = at;
                current = current;
                read = read;
                live = live;
                stood = e;
                same_version = (==_iff _ _).0 same;
                changed = changed;
                mutated = done;
                result = refl;
                written = refl;
              }))
        ]

    commit-Outcome :
        (current : R) (retry : Result R × Shelf R) (x : Result R)
        → lookup id u ≡ some current
        → mutate current ≡ x
        → Outcome s retry
        → Outcome s (commit stored id mutate now others current n (others n u) retry x)
    commit-Outcome current retry (err e) read done h = record { holds = tt }
    commit-Outcome current retry (ok changed) read done h =
        write_if-Outcome current changed retry read done h (lookup id (others n u)) refl

    attempt-Outcome :
        (retry : Result R × Shelf R) (o : Option R)
        → lookup id u ≡ o
        → Outcome s retry
        → Outcome s (attempt stored id mutate now others n (others n u) retry o)
    attempt-Outcome retry none read h = record { holds = tt }
    attempt-Outcome retry (some current) read h =
        commit-Outcome current retry (mutate current) read refl h

  update_loop-Outcome :
      (s : Shelf R) (n : ℕ) (u : Shelf R)
      → Stage others 8 s n u
      → Outcome s (update_loop stored id mutate now others n u)
  unfolding update_loop
  update_loop-Outcome s zero u at = record { holds = tt }
  update_loop-Outcome s (suc n) u at =
      attempt-Outcome s n u at (update_loop stored id mutate now others n (others n u))
        (lookup id u) refl (update_loop-Outcome s n (others n u) (next at))

  -- An update that returns has put the changed record, with the next version, over a live record of
  -- the version that it had read in one of its attempts.
  pub update-IsWritten : (s : Shelf R) → Outcome s (update stored id mutate now others s)
  unfolding update
  update-IsWritten s = update_loop-Outcome s 8 s first

  -- An update that no other call disturbs changes the record that is there.
  pub update_alone :
      (s : Shelf R) (current changed : R)
      → ((n : ℕ) (u : Shelf R) → others n u ≡ u)
      → lookup id s ≡ some current
      → mutate current ≡ ok changed
      → let next = stored.stamp_with (stored.version_of current + 1) (now 7) changed in
        update stored id mutate now others s ≡ (ok next, put id next s)
  unfolding update update_loop
  update_alone s current changed quiet found done =
      let same : (stored.version_of current == stored.version_of current) ≡ true =
        (==_iff _ _).1 refl in
      rw (quiet 7 s, found, done, found, same)
