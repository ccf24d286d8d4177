-- ===== src/Pilot/RateLimit/Windows.antt =====
-- How many calls one window lets through (src/pilotRateLimit.mjs, `consume`), whatever calls on
-- other keys come between.
use stellar_agent_spend_hub.Common.{
  ℕ, ◌+◌, ◌-◌, ◌≤◌, ◌<◌, min, String, Bool, true, false, Option, none, some, List, [], ◌∷◌,
  if◌then◌else◌, All, arith, ◌≡◌, refl, Bool-cases, inl, inr,
}
use stellar_agent_spend_hub.Common.Text.{str_eq, eq_iff}
use stellar_agent_spend_hub.Common.Map.{Map, get, set, get-set, get-set_self}
use stellar_agent_spend_hub.Pilot.RateLimit.{Entry, consume, counted, current, verdict}

abbrev one_if : Bool → ℕ
one_if true = 1
one_if false = 0

-- The limits of the keys, and the length of their windows.
module _ (limit window_ms : String → ℕ) where
  -- Calls of several keys in order, each with its time: how many of those of `key` are allowed.
  pub allowed_calls : String → List (String × ℕ) → Map Entry → ℕ
  allowed_calls key [] store = 0
  allowed_calls key ((k, now) ∷ calls) store =
      let (v, rest) = consume store k (limit k) (window_ms k) now in
      let more = allowed_calls key calls rest in
      (if str_eq k key then one_if v.allowed else 0) + more

  -- The calls of `key` among them.
  pub calls_of : String → List (String × ℕ) → ℕ
  calls_of key [] = 0
  calls_of key ((k, now) ∷ calls) = (if str_eq k key then 1 else 0) + calls_of key calls

  -- Every call of `key` comes before the time `end`.
  abbrev pub Before : String → ℕ → List (String × ℕ) → Type 0
  Before key end calls = All (λ c. str_eq c.0 key ≡ true → c.1 < end) calls

  current_open : (window now : ℕ) (e : Entry) → now < e.reset_at → current window now (some e) ≡ e
  unfolding current
  current_open window now e h = ground arith

  -- there is no entry, or its window is over
  abbrev pub IsClosed : ℕ → Option Entry → Type 0
  IsClosed now none = Unit
  IsClosed now (some e) = e.reset_at ≤ now

  current_closed :
      (window now : ℕ) (o : Option Entry)
      → IsClosed now o
      → current window now o ≡ record { count = 0; reset_at = now + window }
  unfolding current
  current_closed window now none c = refl
  current_closed window now (some e) c = ground arith

  consume_other :
      (k key : String) (lim window now : ℕ) (store : Map Entry)
      → str_eq k key ≡ false
      → get key ((consume store k lim window now).1) ≡ get key store
  unfolding consume
  consume_other k key lim window now store h = rw (get-set, h)

  consume_self :
      (key : String) (lim window now : ℕ) (store : Map Entry) (o : Option Entry)
      → get key store ≡ o
      → consume store key lim window now ≡ (
        verdict lim (counted (current window now o)),
        set key (counted (current window now o)) store,
      )
  unfolding consume
  consume_self key lim window now store o h = rw h

  open-Before :
      (key : String) (calls : List (String × ℕ)) (e : Entry)
      → Before key e.reset_at calls
      → Before key (counted e).reset_at calls
  unfolding counted
  open-Before key calls e w = w

  count_step :
      (lim n : ℕ) (e : Entry)
      → one_if (verdict lim (counted e)).allowed + min n (lim - (counted e).count)
        ≡ min (1 + n) (lim - e.count)
  unfolding verdict counted
  count_step lim n e = ground arith

  -- In an open window, of any number of calls as many are allowed as the limit still leaves.
  open_window :
      (key : String) (calls : List (String × ℕ)) (store : Map Entry) (e : Entry)
      → get key store ≡ some e
      → Before key e.reset_at calls
      → allowed_calls key calls store ≡ min (calls_of key calls) (limit key - e.count)
  unfolding allowed_calls calls_of
  open_window key [] store e h w = ground arith
  open_window key ((k, now) ∷ calls) store e h (w, ws) = elim (Bool-cases (str_eq k key)) [
    | inr d ↦
        let rest =
          open_window key calls (consume store k (limit k) (window_ms k) now).1 e
            (rw (consume_other k key (limit k) (window_ms k) now store d, h)) ws in
        rw (d) (ground arith)
    | inl d ↦
        let same : k ≡ key = (eq_iff k key).0 d in
        let seen = consume_self key (limit key) (window_ms key) now store (some e) h in
        let rest =
          open_window key calls (set key (counted e) store) (counted e)
            (get-set_self key (counted e) store) (open-Before key calls e ws) in
        rw (
          d,
          same,
          seen,
          current_open (window_ms key) now e (w d),
          rest,
          count_step (limit key) (calls_of key calls) e,
        )
  ]

  -- In the window that a call opens, on a key that has no open window, exactly as many of its calls
  -- are allowed as the limit says, the opening one included, and no more.
  pub consume-IsLimited :
      (key : String) (now : ℕ) (calls : List (String × ℕ)) (store : Map Entry)
      → (o : Option Entry) → get key store ≡ o
      → IsClosed now o
      → Before key (now + window_ms key) calls
      → allowed_calls key ((key, now) ∷ calls) store ≡ min (1 + calls_of key calls) (limit key)
  unfolding allowed_calls
  consume-IsLimited key now calls store o h c w =
      let fresh : Entry = record { count = 0; reset_at = now + window_ms key } in
      let seen = consume_self key (limit key) (window_ms key) now store o h in
      let rest =
        open_window key calls (set key (counted fresh) store) (counted fresh)
          (get-set_self key (counted fresh) store) (open-Before key calls fresh w) in
      rw
        (
          (eq_iff key key).1 refl,
          seen,
          current_closed (window_ms key) now o c,
          rest,
          count_step (limit key) (calls_of key calls) fresh,
        )
        (ground arith)
