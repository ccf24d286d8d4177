-- ===== src/Multichain/Repository.antt =====
-- The records of one kind in src/multichainRepository.mjs: the store in memory, and its update that
-- retries while the version changes. Other calls may change the store between the read and the
-- write of an attempt: they are the argument `others`.
pub mod Written
use stellar_agent_spend_hub.Common.{
  ℕ, zero, suc, ◌+◌, String, Bool, true, false, Option, none, some, List, [], ◌∷◌, ◌==◌,
  if◌then◌else◌, take,
}
use stellar_agent_spend_hub.Common.Text.{Codes}
use stellar_agent_spend_hub.Common.Result.{Result, ok, err, throw}
use stellar_agent_spend_hub.Common.Action.{Action}
use stellar_agent_spend_hub.Common.Map.{Map, get, set}

-- What the store reads and writes of a record.
pub record Stored (R : Type 0) : Type 0 where
  pub version_of : R → ℕ
  pub stamp_with : ℕ → Codes → R → R

-- The keys of one kind are its ids; `order` has the newest first.
pub record Shelf (R : Type 0) : Type 0 where
  pub memory : Map R
  pub order : List String

-- `repository.get`
abbrev pub lookup : {R : Type 0} → String → Shelf R → Option R
lookup id s = get id s.memory

abbrev pub put : {R : Type 0} → String → R → Shelf R → Shelf R
put id r s = record s { memory = set id r s.memory }

abbrev pub create_new : {R : Type 0} → String → R → Shelf R → Option R → Result R × Shelf R
create_new id r s (some old) = (throw 409 "Multichain record already exists", s)
create_new id r s none = (ok r, record { memory = set id r s.memory; order = id ∷ s.order })

-- `repository.create` in memory
unfoldable pub create : {R : Type 0} → String → R → Action (Shelf R) R
create id r s = create_new id r s (lookup id s)

abbrev pub unmoved : {R : Type 0} → Stored R → Option R → R → Bool
unmoved stored none current = false
unmoved stored (some live) current = stored.version_of live == stored.version_of current

module _ {R : Type 0} (stored : Stored R) (id : String) (mutate : R → Result R) (now : ℕ → Codes)
    (others : ℕ → Shelf R → Shelf R) where
  abbrev pub write_if : R → R → Shelf R → Result R × Shelf R → Result R × Shelf R
  write_if current next s retry =
      if unmoved stored (lookup id s) current then (ok next, put id next s) else retry

  abbrev pub commit : R → ℕ → Shelf R → Result R × Shelf R → Result R → Result R × Shelf R
  commit current n s retry (err e) = (err e, s)
  commit current n s retry (ok changed) =
      write_if current (stored.stamp_with (stored.version_of current + 1) (now n) changed) s retry

  abbrev pub attempt : ℕ → Shelf R → Result R × Shelf R → Option R → Result R × Shelf R
  attempt n s retry none = (throw 404 "Multichain record not found", s)
  attempt n s retry (some current) = commit current n s retry (mutate current)

  -- the attempts of `repository.update` in memory; the first argument is how many are left
  unfoldable pub update_loop : ℕ → Shelf R → Result R × Shelf R
  update_loop zero s = (throw 409 "Multichain record changed concurrently", s)
  update_loop (suc n) s = attempt n (others n s) (update_loop n (others n s)) (lookup id s)

  -- `repository.update` in memory
  unfoldable pub update : Shelf R → Result R × Shelf R
  update s = update_loop 8 s

abbrev records : {R : Type 0} → List String → Map R → List (Option R)
records [] m = []
records (id ∷ ids) m = get id m ∷ records ids m

-- `repository.list` in memory
unfoldable pub list : {R : Type 0} → ℕ → Shelf R → List (Option R)
list limit s = records (take limit s.order) s.memory
