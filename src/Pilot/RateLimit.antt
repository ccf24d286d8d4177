-- ===== src/Pilot/RateLimit.antt =====
-- The pilot's rate limiter over the memory of the process (src/pilotRateLimit.mjs, `consume`,
-- `enforceMemory`, `rateError`). A time is a number of milliseconds.
pub mod Windows
pub mod Retry
mod Tests
use Prim.Native.String.{◌++◌}
use stellar_agent_spend_hub.Common.{
  ℕ, ◌+◌, ◌-◌, ◌/◌, max, String, Bool, true, false, ◌&&◌, Option, none, some, List, [], ◌∷◌, leb,
  if◌then◌else◌,
}
use stellar_agent_spend_hub.Common.Map.{Map, get, set}

pub record Entry : Type 0 where
  pub count : ℕ
  pub reset_at : ℕ

pub record Verdict : Type 0 where
  pub allowed : Bool
  pub remaining : ℕ
  pub reset_at : ℕ

-- the entry of a key, or a new one when there is none or its window is over
unfoldable pub current : ℕ → ℕ → Option Entry → Entry
current window_ms now none = record { count = 0; reset_at = now + window_ms }
current window_ms now (some e) =
    if leb e.reset_at now then record { count = 0; reset_at = now + window_ms } else e

unfoldable pub counted : Entry → Entry
counted e = record e { count = e.count + 1 }

unfoldable pub verdict : ℕ → Entry → Verdict
verdict limit e = record {
  allowed = leb e.count limit;
  remaining = limit - e.count;
  reset_at = e.reset_at;
}

-- `consume(store, key, limit, windowMs, now)`
unfoldable pub consume : Map Entry → String → ℕ → ℕ → ℕ → Verdict × Map Entry
consume store key limit window_ms now =
    let entry = counted (current window_ms now (get key store)) in
    (verdict limit entry, set key entry store)

-- What `enforceMemory` returns or throws.
pub data Enforced : Type 0 where
  admitted : (remaining_minute remaining_daily : ℕ) → Enforced
  refused : (status retry_after : ℕ) → Enforced

-- `rateError(resetAt)`, at the time `clock`
unfoldable pub retry_after : ℕ → ℕ → ℕ
retry_after reset_at clock = max 1 ((reset_at - clock + 999) / 1000)

unfoldable pub minute_key : String → String → String
minute_key tenant_id ip = "minute:" ++ (tenant_id ++ (":" ++ ip))

unfoldable pub daily_key : String → String
daily_key tenant_id = "daily:" ++ tenant_id

abbrev pub minute_limit : ℕ
minute_limit = 20

abbrev pub minute_ms : ℕ
minute_ms = 60000

abbrev pub daily_limit : ℕ
daily_limit = 100

abbrev pub daily_ms : ℕ
daily_ms = 86400000

-- the answer to the two verdicts
unfoldable pub enforced : ℕ → Verdict → Verdict → Enforced
enforced clock minute daily =
    if minute.allowed && daily.allowed
    then admitted minute.remaining daily.remaining
    else refused 429 (retry_after (max minute.reset_at daily.reset_at) clock)

-- `enforceMemory({ tenantId, ip })` at the time `now`; `clock` is the time that the error reads
unfoldable pub enforce_memory : String → String → ℕ → ℕ → Map Entry → Enforced × Map Entry
enforce_memory tenant_id ip now clock memory =
    let (minute, after_minute) =
      consume memory (minute_key tenant_id ip) minute_limit minute_ms now in
    let (daily, after_daily) =
      consume after_minute (daily_key tenant_id) daily_limit daily_ms now in
    (enforced clock minute daily, after_daily)
