-- ===== src/Mpp.antt =====
-- The store of the machine payments (src/mppStore.mjs, `createAtomicRedisAdapter`): texts under keys,
-- changed by compare-and-set on the whole text. Between the read and the write of an attempt other
-- calls may change the store: they are the argument `others`.
pub mod Atomic
mod Tests
use stellar_agent_spend_hub.Common.{
  ℕ, zero, suc, String, Bool, true, false, Option, none, some, List, [], ◌∷◌, if◌then◌else◌,
}
use stellar_agent_spend_hub.Common.Text.{str_eq}
use stellar_agent_spend_hub.Common.Result.{Result, ok, err, HttpError, http_error}
use stellar_agent_spend_hub.Common.Map.{Map, get, set}

-- What `fn` answers: nothing to do, a new value, or a deletion, each with the result of the call.
pub data Change (V R : Type 0) : Type 0 where
  noop : R → Change V R
  put : V → R → Change V R
  delete : R → Change V R

-- `JSON.stringify` and `JSON.parse`
pub record Json (V : Type 0) : Type 0 where
  pub encode : V → String
  pub parse : String → V

abbrev pub Store : Type 0
Store = Map String

-- `DEL`
unfoldable pub del : String → Store → Store
del key [] = []
del key ((k, v) ∷ s) = if str_eq k key then del key s else (k, v) ∷ del key s

-- `decode(raw)`
abbrev pub decode : {V : Type 0} → Json V → Option String → Option V
decode json none = none
decode json (some raw) = some (json.parse raw)

-- two raw texts, either of which may be missing, as the script compares them
abbrev pub raw_eq : Option String → Option String → Bool
raw_eq none none = true
raw_eq none (some w) = false
raw_eq (some v) none = false
raw_eq (some v) (some w) = str_eq v w

-- `REDIS_CAS_SCRIPT`: the write, if the text is still the one that was read
abbrev pub cas : String → Option String → (Store → Store) → Store → Bool × Store
cas key expected change s = if raw_eq (get key s) expected then (true, change s) else (false, s)

abbrev pub contended : HttpError
contended = http_error 409 "MPP atomic store contention exceeded retry budget"

abbrev pub applied : {R : Type 0} → R → Bool × Store → Result R × Store → Result R × Store
applied result (true, s) retry = (ok result, s)
applied result (false, s) retry = retry

module _ {V R : Type 0} (json : Json V) (key : String) (fn : Option V → Change V R)
    (others : ℕ → Store → Store) where
  -- an attempt: what was read, the store at the moment of the write, and what happens when it changed
  abbrev pub attempt : Option String → Store → Result R × Store → Change V R → Result R × Store
  attempt raw s retry (noop result) = (ok result, s)
  attempt raw s retry (put value result) =
      applied result (cas key raw (set key (json.encode value)) s) retry
  attempt raw s retry (delete result) = applied result (cas key raw (del key) s) retry

  -- the attempts that are left
  unfoldable pub update_loop : ℕ → Store → Result R × Store
  update_loop zero s = (err contended, s)
  update_loop (suc n) s =
      let raw = get key s in
      let rest = update_loop n (others n s) in attempt raw (others n s) rest (fn (decode json raw))

  -- `update(key, fn)`
  unfoldable pub update : Store → Result R × Store
  unfolding update_loop
  update s = update_loop 12 s
