-- ===== src/ContractAccount/Repository/Once.antt =====
-- A contract account request is consumed at most once, whatever else is done.
use stellar_agent_spend_hub.Common.{
  ℕ, ◌+◌, ◌≤◌, String, Bool, false, Option, none, some, List, [], ◌∷◌, if◌then◌else◌, ◌≡◌, refl,
  sym, arith, Bool-cases, Option-cases, ◌⊎◌, inl, inr, All,
}
use stellar_agent_spend_hub.Common.Text.{str_eq, eq_iff}
use stellar_agent_spend_hub.Common.Result.{Result, ok, err}
use stellar_agent_spend_hub.Common.Map.{get, get-set}
use stellar_agent_spend_hub.ContractAccount.Repository.{
  Accounts, Request, RawReceipt, is_prepared, save_request, consume_request, mark_failed,
  save_receipt, get_request,
}

-- An operation of the repository that writes.
pub data Op : Type 0 where
  saving : Request → Op
  consuming : String → ℕ → Op
  failing : String → String → Op
  recording : RawReceipt → Op

pub after : Op → Accounts → Accounts
after (saving value) s = save_request value s
after (consuming id now) s = (consume_request id now s).1
after (failing id code) s = mark_failed id code s
after (recording receipt) s = (save_receipt receipt s).1

abbrev one_if_ok : {A : Type 0} → Result A → ℕ
one_if_ok (ok a) = 1
one_if_ok (err e) = 0

-- whether an operation consumes the request `id`, as 1 or 0
pub consumed : String → Op → Accounts → ℕ
consumed id (saving value) s = 0
consumed id (consuming other now) s =
    if str_eq other id then one_if_ok (consume_request other now s).0 else 0
consumed id (failing other code) s = 0
consumed id (recording receipt) s = 0

-- how often a run of operations hands out the request `id`
pub times_consumed : String → List Op → Accounts → ℕ
times_consumed id [] s = 0
times_consumed id (op ∷ ops) s = consumed id op s + times_consumed id ops (after op s)

-- An operation that does not save a request under `id`.
abbrev pub Leaves : String → Op → Type 0
Leaves id (saving value) = str_eq value.request_id id ≡ false
Leaves id (consuming other now) = Unit
Leaves id (failing other code) = Unit
Leaves id (recording receipt) = Unit

-- The request cannot be consumed: there is none, or its status is past `prepared`.
abbrev is_open : Option Request → Bool
is_open none = false
is_open (some r) = is_prepared r.status

spent_after :
    (id : String) (op : Op) (s : Accounts)
    → Leaves id op
    → is_open (get id s.requests) ≡ false
    → (consumed id op s ≡ 0) × (is_open (get id (after op s).requests) ≡ false)
unfolding consumed after save_request consume_request mark_failed save_receipt get_request
spent_after id (saving value) s apart spent = (refl, rw (get-set, apart) spent)
spent_after id (recording receipt) s apart spent = (refl, spent)
spent_after id (failing other code) s apart spent = elim (Option-cases (get other s.requests)) [
  | inl missing ↦ (refl, rw (missing) spent)
  | inr (r, found) ↦ elim (Bool-cases (str_eq other id)) [
    | inl same ↦ (refl, rw (found, get-set, same))
    | inr differs ↦ (refl, rw (found, get-set, differs) spent)
  ]
]
spent_after id (consuming other now) s apart spent = elim (Bool-cases (str_eq other id)) [
  | inr differs ↦ elim (Option-cases (get other s.requests)) [
    | inl missing ↦ (rw (differs), rw (after, missing) spent)
    | inr (r, found) ↦ elim (Bool-cases (is_prepared r.status)) [
      | inl ready ↦ (rw (differs), rw (after, found, ready, get-set, differs) spent)
      | inr late ↦ (rw (differs), rw (after, found, late) spent)
    ]
  ]
  | inl same ↦ elim (Option-cases (get other s.requests)) [
    | inl missing ↦ (rw (same, missing), rw (after, missing) spent)
    | inr (r, found) ↦
        let key : other ≡ id = (eq_iff other id).0 same in
        let late : is_prepared r.status ≡ false = rw (sym key, found) at spent in
        (rw (same, found, late), rw (after, found, late) spent)
  ]
]

once_spent :
    (id : String) (ops : List Op) (s : Accounts)
    → All (Leaves id) ops
    → is_open (get id s.requests) ≡ false
    → times_consumed id ops s ≡ 0
unfolding times_consumed
once_spent id [] s leaves spent = refl
once_spent id (op ∷ ops) s (leaf, leaves) spent =
    let (none_now, still) = spent_after id op s leaf spent in
    let rest = once_spent id ops (after op s) leaves still in omega arith

-- what an operation does to a request that is still open: it is handed out, or it stays
one_step :
    (id : String) (op : Op) (s : Accounts)
    → (consumed id op s ≡ 0)
      ⊎ ((consumed id op s ≡ 1) × (is_open (get id (after op s).requests) ≡ false))
unfolding consumed after consume_request
one_step id (saving value) s = inl refl
one_step id (failing other code) s = inl refl
one_step id (recording receipt) s = inl refl
one_step id (consuming other now) s = elim (Bool-cases (str_eq other id)) [
  | inr differs ↦ inl (rw (differs))
  | inl same ↦ elim (Option-cases (get other s.requests)) [
    | inl missing ↦ inl (rw (same, missing))
    | inr (r, found) ↦ elim (Bool-cases (is_prepared r.status)) [
      | inr late ↦ inl (rw (same, found, late))
      | inl ready ↦ inr (rw (same, found, ready), rw (after, found, ready, get-set, same))
    ]
  ]
]

-- In any run of operations that saves no request under an id, that request is handed out at most
-- once, whatever the times, the failures and the receipts in between.
pub consume_at_most_once :
    (id : String) (ops : List Op) (s : Accounts) → All (Leaves id) ops → times_consumed id ops s ≤ 1
unfolding times_consumed
consume_at_most_once id [] s leaves = omega arith
consume_at_most_once id (op ∷ ops) s (leaf, leaves) = elim (one_step id op s) [
  | inl none_now ↦ let rest = consume_at_most_once id ops (after op s) leaves in omega arith
  | inr (now, spent) ↦ let rest = once_spent id ops (after op s) leaves spent in omega arith
]
