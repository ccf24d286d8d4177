-- ===== src/Pilot/RateLimit/Tests.antt =====
-- The rate limiter at concrete calls.
use stellar_agent_spend_hub.Common.{ℕ, ◌+◌, min, String, none, List, [], ◌∷◌, ◌≡◌, refl, arith}
use stellar_agent_spend_hub.Common.Map.{Map, get, set}
use stellar_agent_spend_hub.Pilot.RateLimit.{
  Entry, admitted, refused, consume, counted, current, verdict, enforced, enforce_memory,
  retry_after, minute_key, daily_key, minute_ms,
}
use stellar_agent_spend_hub.Pilot.RateLimit.Windows.{allowed_calls, calls_of, consume-IsLimited}
use stellar_agent_spend_hub.Pilot.RateLimit.Retry.{enforce_memory-retry}

-- calls of two keys within one window
abbrev calls : List (String × ℕ)
calls = ("minute:lab:a", 2000) ∷ ("minute:lab:b", 3000) ∷ ("minute:lab:a", 4000) ∷ []

consume-IsLimited_example :
    allowed_calls (λ k. 2) (λ k. minute_ms) "minute:lab:a" (("minute:lab:a", 1000) ∷ calls) []
    ≡ min (1 + calls_of (λ k. 2) (λ k. minute_ms) "minute:lab:a" calls) 2
unfolding get
consume-IsLimited_example =
    consume-IsLimited (λ k. 2) (λ k. minute_ms) "minute:lab:a" 1000 calls [] none refl tt
      (λ e. omega arith, (λ e. omega arith, (λ e. omega arith, tt)))

-- the twenty calls of a minute are spent
abbrev spent : Map Entry
spent = ("minute:lab:a", record { count = 20; reset_at = 61000 }) ∷ []

abbrev after : Map Entry
after =
    ("minute:lab:a", record { count = 21; reset_at = 61000 })
    ∷ ("daily:lab", record { count = 1; reset_at = 86405000 })
    ∷ []

refused_run : enforce_memory "lab" "a" 5000 5500 spent ≡ (refused 429 86400, after)
unfolding enforce_memory consume counted current verdict enforced retry_after minute_key daily_key
    get set
refused_run = refl

enforce_memory-retry_example :
    (◌≡◌ {A = ℕ} 429 429) × ((enforce_memory "lab" "a" 86405500 86405500 after).0 ≡ admitted 19 99)
enforce_memory-retry_example =
    enforce_memory-retry "lab" "a" 5000 5500 86405500 86405500 429 86400 spent after refused_run
      (omega arith)
