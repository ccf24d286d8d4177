-- ===== src/ContractAccount/Repository/Ledger.antt =====
-- The list of receipts in memory: newest first, at most a hundred, and one for each transaction.
use stellar_agent_spend_hub.Common.{
  ℕ, zero, suc, ◌≤◌, Bool, false, not, List, [], ◌∷◌, filter, take, length, length-take, ◌≡◌, refl,
  arith, inl, inr, Bool-cases, All, All-take,
}
use stellar_agent_spend_hub.ContractAccount.Repository.{
  Accounts, SafeReceipt, RawReceipt, save_receipt, list_receipts, hash_eq,
  sanitize_contract_account_receipt, Request,
}
use stellar_agent_spend_hub.Common.Map.{Map}

-- No two receipts of the list have the same transaction.
abbrev pub Distinct : List SafeReceipt → Type 0
Distinct [] = Unit
Distinct (r ∷ rs) =
    All (λ x. hash_eq x.transaction_hash r.transaction_hash ≡ false) rs × Distinct rs

All-filter :
    (P : SafeReceipt → Type 0) (p : SafeReceipt → Bool) (rs : List SafeReceipt)
    → All P rs
    → All P (filter p rs)
All-filter P p [] h = tt
All-filter P p (r ∷ rs) (h, k) = elim (Bool-cases (p r)) [
  | inl e ↦ rw (e) (h, All-filter P p rs k)
  | inr e ↦ rw (e) (All-filter P p rs k)
]

filter-All :
    (h : SafeReceipt) (rs : List SafeReceipt)
    → All
        (λ x. hash_eq x.transaction_hash h.transaction_hash ≡ false)
        (filter (λ item. not (hash_eq item.transaction_hash h.transaction_hash)) rs)
filter-All h [] = tt
filter-All h (r ∷ rs) = elim (Bool-cases (hash_eq r.transaction_hash h.transaction_hash)) [
  | inl e ↦ rw (e) (filter-All h rs)
  | inr e ↦ rw (e) (e, filter-All h rs)
]

filter-Distinct :
    (p : SafeReceipt → Bool) (rs : List SafeReceipt) → Distinct rs → Distinct (filter p rs)
filter-Distinct p [] d = tt
filter-Distinct p (r ∷ rs) (a, d) = elim (Bool-cases (p r)) [
  | inl e ↦ rw (e) (All-filter _ p rs a, filter-Distinct p rs d)
  | inr e ↦ rw (e) (filter-Distinct p rs d)
]

take-Distinct : (n : ℕ) (rs : List SafeReceipt) → Distinct rs → Distinct (take n rs)
take-Distinct zero rs d = tt
take-Distinct (suc n) [] d = tt
take-Distinct (suc n) (r ∷ rs) (a, d) = (All-take _ n rs a, take-Distinct n rs d)

take_first :
    (m : ℕ) (r : SafeReceipt) (rs : List SafeReceipt) → 1 ≤ m → take 1 (take m (r ∷ rs)) ≡ r ∷ []
take_first zero r rs h = absurd (omega arith)
take_first (suc m) r rs h = refl

-- The receipts of a store: at most a hundred, no transaction twice.
pub record IsLedger (s : Accounts) : Type 0 where
  pub bounded : length s.receipts ≤ 100
  pub distinct : Distinct s.receipts

take_short : (m : ℕ) (rs : List SafeReceipt) → m ≤ 20 → length (take m rs) ≤ 20
take_short m rs h = let size = length-take m rs in omega arith

list-short : (limit : ℕ) (s : Accounts) → length (list_receipts limit s) ≤ 20
unfolding list_receipts
list-short limit s = take_short _ s.receipts (ground arith)

list-first :
    (limit : ℕ) (r : SafeReceipt) (rs : List SafeReceipt) (m : Map Request)
    → take 1 (list_receipts limit (record { requests = m; receipts = r ∷ rs })) ≡ r ∷ []
unfolding list_receipts
list-first limit r rs m = take_first _ r rs (ground arith)

-- In the repository that keeps its receipts in memory, saving one keeps the list within a hundred and without a repeated transaction, and a list
-- request of any size answers at most twenty, the saved receipt first.
pub save_receipt-IsLedger :
    (receipt : RawReceipt) (limit : ℕ) (s : Accounts)
    → IsLedger s
    → IsLedger (save_receipt receipt s).1
      × (length (list_receipts limit (save_receipt receipt s).1) ≤ 20)
      × (take 1 (list_receipts limit (save_receipt receipt s).1)
          ≡ sanitize_contract_account_receipt receipt ∷ [])
unfolding save_receipt
save_receipt-IsLedger receipt limit s l =
    let safe = sanitize_contract_account_receipt receipt in
    let others =
      filter (λ item. not (hash_eq item.transaction_hash safe.transaction_hash)) s.receipts in
    let size = length-take 99 others in
    (
      record {
        bounded = ground arith;
        distinct = (
          All-take _ 99 others (filter-All safe s.receipts),
          take-Distinct 99 others (filter-Distinct _ s.receipts l.distinct),
        );
      },
      list-short limit _,
      list-first limit safe (take 99 others) _,
    )
