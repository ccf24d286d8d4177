-- ===== src/Common/Stage.antt =====
-- The moments of a retry loop: the store at the start of each of its attempts.
use stellar_agent_spend_hub.Common.{ℕ, suc}

-- `Stage others attempts s n u`: a loop that began on `s` with so many attempts has `n` of them left
-- and stands at `u`; in each attempt it waits once for other calls.
pub data Stage {S : Type 0} (others : ℕ → S → S) (attempts : ℕ) (s : S) : ℕ → S → Type 0 where
  first : Stage others attempts s attempts s
  next :
      {n : ℕ} {u : S} → Stage others attempts s (suc n) u → Stage others attempts s n (others n u)
