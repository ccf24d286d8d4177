-- ===== src/ContractAccount/Ceremony/Lifecycle.antt =====
-- A ceremony is claimed at most once, and its shown status says whether it can be claimed.
use stellar_agent_spend_hub.Common.{
  ℕ, ◌+◌, ◌≤◌, String, Bool, true, false, Option, none, some, List, [], ◌∷◌, leb, if◌then◌else◌,
  ◌≡◌, refl, sym, arith, Bool-cases, Option-cases, ◌⊎◌, inl, inr, All,
}
use stellar_agent_spend_hub.Common.Text.{Codes, str_eq, eq_iff}
use stellar_agent_spend_hub.Common.Result.{Result, ok, err}
use stellar_agent_spend_hub.Common.Map.{get, set, get-set}
use stellar_agent_spend_hub.Pilot.Validation.{is_request_id}
use stellar_agent_spend_hub.ContractAccount.Ceremony.{
  Ceremony, Ceremonies, PublicCeremony, claimed, is_pending, save, claim, claim_record, complete,
  fail, update, status, public_ceremony,
}

-- An operation of the ceremonies that writes.
pub data Op : Type 0 where
  saving : Ceremony → Op
  claiming : String → ℕ → Op
  completing : String → String → Option Codes → ℕ → Op
  failing : String → ℕ → Op

pub after : Op → Ceremonies → Ceremonies
after (saving r) s = (save r s).1
after (claiming id now) s = (claim id now s).1
after (completing id contract_id hash now) s = (complete id contract_id hash now s).1
after (failing id now) s = (fail id now s).1

abbrev one_if_ok : {A : Type 0} → Result A → ℕ
one_if_ok (ok a) = 1
one_if_ok (err e) = 0

-- whether an operation claims the ceremony `id`, as 1 or 0
pub won : String → Op → Ceremonies → ℕ
won id (claiming other now) s = if str_eq other id then one_if_ok (claim other now s).0 else 0
won id (saving r) s = 0
won id (completing other contract_id hash now) s = 0
won id (failing other now) s = 0

-- how often a run of operations hands the ceremony `id` to a claimant
pub times_claimed : String → List Op → Ceremonies → ℕ
times_claimed id [] s = 0
times_claimed id (op ∷ ops) s = won id op s + times_claimed id ops (after op s)

-- An operation that does not save a ceremony under `id`.
abbrev pub Leaves : String → Op → Type 0
Leaves id (saving r) = str_eq r.ceremony_id id ≡ false
Leaves id (claiming other now) = Unit
Leaves id (completing other contract_id hash now) = Unit
Leaves id (failing other now) = Unit

abbrev is_open : Option Ceremony → Bool
is_open none = false
is_open (some r) = is_pending r.status

-- a patch that leaves no ceremony pending keeps a closed one closed
update_closed :
    (id other : String) (patch : Ceremony → Ceremony) (s : Ceremonies)
    → ((r : Ceremony) → is_pending (patch r).status ≡ false)
    → is_open (get id s.records) ≡ false
    → is_open (get id (update other patch s).1.records) ≡ false
unfolding update
update_closed id other patch s closes closed = elim (Bool-cases s.production) [
  | inl p ↦ rw (update, p) closed
  | inr p ↦ elim (Option-cases (get other s.records)) [
    | inl missing ↦ rw (update, p, missing) closed
    | inr (r, found) ↦ elim (Bool-cases (str_eq other id)) [
      | inl same ↦ rw (update, p, found, get-set, same) (closes r)
      | inr differs ↦ rw (update, p, found, get-set, differs) closed
    ]
  ]
]

-- A claim either fails and changes nothing, or takes a pending ceremony.
claim_cases :
    (id : String) (now : ℕ) (s : Ceremonies)
    → ((one_if_ok (claim id now s).0 ≡ 0) × ((claim id now s).1 ≡ s))
      ⊎ ((r : Ceremony) × (get id s.records ≡ some r)
          × (is_pending r.status ≡ true)
          × (claim id now s ≡ (
            ok r,
            record s {
              records = set id (record r { status = claimed; claimed_at = some now }) s.records;
            },
          )))
unfolding claim claim_record
claim_cases id now s = elim (Bool-cases (is_request_id id)) [
  | inr malformed ↦ inl (rw (claim, malformed), rw (claim, malformed))
  | inl formed ↦ elim (Bool-cases s.production) [
    | inl p ↦ inl (rw (claim, formed, claim_record, p), rw (claim, formed, claim_record, p))
    | inr p ↦ elim (Option-cases (get id s.records)) [
      | inl missing ↦ inl (
        rw (claim, formed, claim_record, p, missing),
        rw (claim, formed, claim_record, p, missing),
      )
      | inr (r, found) ↦ elim (Bool-cases (is_pending r.status)) [
        | inr late ↦ inl (
          rw (claim, formed, claim_record, p, found, late),
          rw (claim, formed, claim_record, p, found, late),
        )
        | inl waiting ↦ elim (Bool-cases (leb r.expires_at now)) [
          | inl over ↦ inl (
            rw (claim, formed, claim_record, p, found, waiting, over),
            rw (claim, formed, claim_record, p, found, waiting, over),
          )
          | inr early ↦
              inr (r, found, waiting, rw (claim, formed, claim_record, p, found, waiting, early))
        ]
      ]
    ]
  ]
]

closed_after :
    (id : String) (op : Op) (s : Ceremonies)
    → Leaves id op
    → is_open (get id s.records) ≡ false
    → (won id op s ≡ 0) × (is_open (get id (after op s).records) ≡ false)
unfolding won after save complete fail
closed_after id (saving r) s apart closed = elim (Bool-cases s.production) [
  | inl p ↦ (refl, rw (after, p) closed)
  | inr p ↦ (refl, rw (after, p, get-set, apart) closed)
]
closed_after id (completing other contract_id hash now) s apart closed =
    (refl, update_closed id other _ s (λ r. refl) closed)
closed_after id (failing other now) s apart closed =
    (refl, update_closed id other _ s (λ r. refl) closed)
closed_after id (claiming other now) s apart closed = elim (claim_cases other now s) [
  | inl (lost, same) ↦ (rw (lost) (ground arith), rw (after, same) closed)
  | inr (r, found, waiting, out) ↦ elim (Bool-cases (str_eq other id)) [
    | inr differs ↦ (rw (differs), rw (after, out, get-set, differs) closed)
    | inl same ↦
        let key : other ≡ id = (eq_iff other id).0 same in
        let late : is_pending r.status ≡ false = rw (sym key, found) at closed in
        absurd (both (is_pending r.status) waiting late)
  ]
]
  where
    both : (b : Bool) → b ≡ true → b ≡ false → ⊥
    both b t f = cc

won_step :
    (id : String) (op : Op) (s : Ceremonies)
    → (won id op s ≡ 0) ⊎ ((won id op s ≡ 1) × (is_open (get id (after op s).records) ≡ false))
unfolding won after
won_step id (saving r) s = inl refl
won_step id (completing other contract_id hash now) s = inl refl
won_step id (failing other now) s = inl refl
won_step id (claiming other now) s = elim (Bool-cases (str_eq other id)) [
  | inr differs ↦ inl (rw (differs))
  | inl same ↦ elim (claim_cases other now s) [
    | inl (lost, kept) ↦ inl (rw (same) lost)
    | inr (r, found, waiting, out) ↦ inr (rw (same, out), rw (after, out, get-set, same))
  ]
]

never_again :
    (id : String) (ops : List Op) (s : Ceremonies)
    → All (Leaves id) ops
    → is_open (get id s.records) ≡ false
    → times_claimed id ops s ≡ 0
unfolding times_claimed
never_again id [] s leaves closed = refl
never_again id (op ∷ ops) s (leaf, leaves) closed =
    let (lost, still) = closed_after id op s leaf closed in
    let rest = never_again id ops (after op s) leaves still in omega arith

-- In any run of operations that saves no ceremony under an id, that ceremony is handed to at most
-- one claimant, whatever completions, failures and claims of other ceremonies come between.
pub claim_at_most_once :
    (id : String) (ops : List Op) (s : Ceremonies)
    → All (Leaves id) ops
    → times_claimed id ops s ≤ 1
unfolding times_claimed
claim_at_most_once id [] s leaves = omega arith
claim_at_most_once id (op ∷ ops) s (leaf, leaves) = elim (won_step id op s) [
  | inl lost ↦ let rest = claim_at_most_once id ops (after op s) leaves in omega arith
  | inr (now, closed) ↦ let rest = never_again id ops (after op s) leaves closed in omega arith
]

-- `pending` as the answer to a status request
abbrev pub answers_pending : Result PublicCeremony → Bool
answers_pending (ok p) = is_pending p.status
answers_pending (err e) = false

abbrev pub succeeds : {A : Type 0} → Result A → Bool
succeeds (ok a) = true
succeeds (err e) = false

-- At every time a claim succeeds exactly when the status of the ceremony is shown as pending.
pub claim-status :
    (id : String) (now : ℕ) (s : Ceremonies)
    → succeeds (claim id now s).0 ≡ answers_pending (status id now s)
unfolding claim claim_record status public_ceremony
claim-status id now s = elim (Bool-cases (is_request_id id)) [
  | inr malformed ↦ rw (claim, malformed)
  | inl formed ↦ elim (Bool-cases s.production) [
    | inl p ↦ rw (claim, formed, claim_record, p)
    | inr p ↦ elim (Option-cases (get id s.records)) [
      | inl missing ↦ rw (claim, formed, claim_record, p, missing)
      | inr (r, found) ↦ elim (Bool-cases (is_pending r.status)) [
        | inr late ↦ rw (claim, formed, claim_record, p, found, late, late)
        | inl waiting ↦ elim (Bool-cases (leb r.expires_at now)) [
          | inl over ↦ rw (claim, formed, claim_record, p, found, waiting, over)
          | inr early ↦ rw (claim, formed, claim_record, p, found, waiting, early, waiting)
        ]
      ]
    ]
  ]
]
