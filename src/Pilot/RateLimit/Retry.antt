-- ===== src/Pilot/RateLimit/Retry.antt =====
-- A refused caller and the wait it is told (src/pilotRateLimit.mjs, `enforceMemory`, `rateError`).
use Prim.Native.String.{◌++◌}
use stellar_agent_spend_hub.Common.{
  ℕ, ◌+◌, ◌*◌, ◌≤◌, max, String, Bool, true, false, ◌&&◌, some, arith, ◌≡◌, ◌≢◌, refl, ap, sym, ◌∙◌,
  le→leb, Bool-cases, inl, inr,
}
use text.Mathlib.TextLemmas.{cons-append}
use stellar_agent_spend_hub.Common.Text.{str_eq}
use stellar_agent_spend_hub.Common.Map.{Map, get, set, get-set_self, get-set_ne}
use stellar_agent_spend_hub.Pilot.RateLimit.{
  Entry, Verdict, Enforced, admitted, refused, consume, counted, current, verdict, enforced,
  enforce_memory, retry_after, minute_key, daily_key, minute_limit, minute_ms, daily_limit,
  daily_ms,
}

starts_with_m : String → Bool
starts_with_m (String.[]) = false
starts_with_m (String.◌∷◌ c s) = str_eq (String.◌∷◌ c (String.[])) "m"

keys_differ : (tenant_id ip : String) → minute_key tenant_id ip ≢ daily_key tenant_id
unfolding minute_key daily_key starts_with_m
keys_differ tenant_id ip h =
    let minute : starts_with_m (minute_key tenant_id ip) ≡ true =
      ap starts_with_m (cons-append "m" "inute:" (tenant_id ++ (":" ++ ip))) in
    let daily : starts_with_m (daily_key tenant_id) ≡ false =
      ap starts_with_m (cons-append "d" "aily:" tenant_id) in
    let q : true ≡ false = sym minute ∙ (ap starts_with_m h ∙ daily) in cc

-- the wait covers the rest of the window
retry_covers : (reset_at clock : ℕ) → reset_at ≤ clock + 1000 * retry_after reset_at clock
unfolding retry_after
retry_covers reset_at clock = omega arith

by_wait :
    (reset_at clock wait later : ℕ)
    → wait ≡ retry_after reset_at clock
    → clock + 1000 * wait ≤ later
    → reset_at ≤ later
by_wait reset_at clock wait later e w = let c = retry_covers reset_at clock in ground arith

abbrev fresh : ℕ → ℕ → Entry
fresh window now = record { count = 1; reset_at = now + window }

consume_is :
    (key : String) (limit window now : ℕ) (store : Map Entry)
    → consume store key limit window now ≡ (
      verdict limit (counted (current window now (get key store))),
      set key (counted (current window now (get key store))) store,
    )
unfolding consume
consume_is key limit window now store = refl

consume_closed :
    (key : String) (limit window now : ℕ) (store : Map Entry) (e : Entry)
    → get key store ≡ some e
    → e.reset_at ≤ now
    → consume store key limit window now
      ≡ (verdict limit (fresh window now), set key (fresh window now) store)
unfolding consume current counted
consume_closed key limit window now store e h c = rw (h, le→leb e.reset_at now c)

-- why a call is refused
enforced-refused :
    (clock status wait : ℕ) (minute daily : Verdict)
    → enforced clock minute daily ≡ refused status wait
    → (status ≡ 429) × (wait ≡ retry_after (max minute.reset_at daily.reset_at) clock)
unfolding enforced
enforced-refused clock status wait minute daily h =
    elim (Bool-cases (minute.allowed && daily.allowed)) [
      | inl both ↦
          let bad : admitted minute.remaining daily.remaining ≡ refused status wait =
            rw (both) at h in
          absurd (impossible bad)
      | inr full ↦
          let said : refused 429 (retry_after (max minute.reset_at daily.reset_at) clock)
              ≡ refused status wait =
            rw (full) at h in
          (cc, cc)
    ]
  where
    impossible : admitted minute.remaining daily.remaining ≡ refused status wait → ⊥
    impossible e = cc

-- A caller that is refused and comes back once the time that it was told is over, at the clock of
-- the refusal and no call of its tenant in between, is let through, with 19 calls left in the minute and 99
-- in the day.
pub enforce_memory-retry :
    (tenant_id ip : String) (now clock later clock' status wait : ℕ) (memory after : Map Entry)
    → enforce_memory tenant_id ip now clock memory ≡ (refused status wait, after)
    → clock + 1000 * wait ≤ later
    → (status ≡ 429) × ((enforce_memory tenant_id ip later clock' after).0 ≡ admitted 19 99)
unfolding enforce_memory counted verdict enforced
enforce_memory-retry tenant_id ip now clock later clock' status wait memory after h w =
    let mk = minute_key tenant_id ip in
    let dk = daily_key tenant_id in
    let e1 : Entry = counted (current minute_ms now (get mk memory)) in
    let first = consume_is mk minute_limit minute_ms now memory in
    let e2 : Entry = counted (current daily_ms now (get dk (set mk e1 memory))) in
    let second = consume_is dk daily_limit daily_ms now (set mk e1 memory) in
    let run : ◌≡◌ {A = Enforced × Map Entry}
        (
          enforced clock (verdict minute_limit e1) (verdict daily_limit e2),
          set dk e2 (set mk e1 memory),
        )
        (refused status wait, after) =
      rw (first, second) at h in
    let out : after ≡ set dk e2 (set mk e1 memory) = cc in
    let said : enforced clock (verdict minute_limit e1) (verdict daily_limit e2)
        ≡ refused status wait =
      cc in
    let why =
      enforced-refused clock status wait (verdict minute_limit e1) (verdict daily_limit e2) said in
    let ends : max e1.reset_at e2.reset_at ≤ later =
      by_wait (max e1.reset_at e2.reset_at) clock wait later why.1 w in
    let at_minute : get mk after ≡ some e1 = rw (
      out,
      get-set_ne dk mk e2 (set mk e1 memory) (λ q. keys_differ tenant_id ip (sym q)),
      get-set_self,
    ) in
    let at_day : get dk after ≡ some e2 = rw (out, get-set_self) in
    let f1 = fresh minute_ms later in
    let after_minute =
      consume_closed mk minute_limit minute_ms later after e1 at_minute (omega arith) in
    let at_day' : get dk (set mk f1 after) ≡ some e2 =
      rw (get-set_ne mk dk f1 after (keys_differ tenant_id ip), at_day) in
    let after_day =
      consume_closed dk daily_limit daily_ms later (set mk f1 after) e2 at_day' (omega arith) in
    (why.0, rw (after_minute, after_day) (refl))
