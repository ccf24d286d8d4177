-- ===== src/Pilot/Repository/Kept.antt =====
-- A property of every stored record, kept by the operations of the store.
use stellar_agent_spend_hub.Common.{
  ℕ, zero, suc, String, ◌≡◌, sym, ◌∙◌, some, inl, inr, Bool-cases, Option-cases, subst, List, [],
  ◌∷◌, All, take, ◌==◌,
}
use stellar_agent_spend_hub.Common.Text.{str_eq}
use stellar_agent_spend_hub.Common.Map.{get, set, get-set}
use stellar_agent_spend_hub.Common.Result.{ok, Result-cases}
use stellar_agent_spend_hub.Pilot.Record.{PilotRecord}
use stellar_agent_spend_hub.Pilot.Repository.{
  Repo, Mutate, get_record, put_record, update, update_loop, bump, request_key, idem_key, list,
  create, find_all, present,
}

module _ (P : PilotRecord → Type 0) where
  abbrev pub AllRecords : Repo → Type 0
  AllRecords s = (k : String) (r : PilotRecord) → get k s.memory ≡ some r → P r

  some_inj : (a b : PilotRecord) → some a ≡ some b → a ≡ b
  some_inj a b h = cc

  set-kept :
      (k : String) (r : PilotRecord) (s : Repo)
      → P r
      → AllRecords s
      → (j : String) (x : PilotRecord) → get j (set k r s.memory) ≡ some x
      → P x
  set-kept k r s p h j x e = elim (Bool-cases (str_eq k j)) [
    | inl same ↦
        let written : some r ≡ some x = rw same at (sym (get-set k j r s.memory) ∙ e) in
        subst P (some_inj r x written) p
    | inr other ↦ h j x (rw other at (sym (get-set k j r s.memory) ∙ e))
  ]

  put_record-AllRecords :
      (id tenant : String) (r : PilotRecord) (s : Repo)
      → P r
      → AllRecords s
      → AllRecords (put_record id tenant r s)
  unfolding put_record
  put_record-AllRecords id tenant r s p h = set-kept (request_key tenant id) r s p h

  pub create-AllRecords :
      (r : PilotRecord) (s : Repo) → P r → AllRecords s → AllRecords (create r s).1
  unfolding create
  create-AllRecords r s p h =
      elim (Option-cases (get (idem_key r.tenant_id r.idempotency_digest) s.idempotency)) [
        | inl fresh ↦ rw (fresh, create) (set-kept (request_key r.tenant_id r.request_id) r s p h)
        | inr (old, known) ↦ rw (known, create) h
      ]

  module _ (id tenant : String) (mutate : Mutate) (now : ℕ → ℕ) (others : ℕ → Repo → Repo)
      (kept : (n : ℕ) (s : Repo) → AllRecords s → AllRecords (others n s))
      (changes : (r r' : PilotRecord) → P r → mutate r ≡ ok r' → P r')
      (stamps : (r current : PilotRecord) (t : ℕ) → P r → P (bump current t r)) where
    update_loop-AllRecords :
        (n : ℕ) (s : Repo)
        → AllRecords s
        → AllRecords (update_loop id tenant mutate now others n s).1
    unfolding update_loop get_record
    update_loop-AllRecords zero s h = h
    update_loop-AllRecords (suc n) s h =
        let u = others n s in
        let hu = kept n s h in
        elim (Option-cases (get_record id tenant s)) [
          | inl missing ↦ rw missing hu
          | inr (current, read) ↦ elim (Result-cases (mutate current)) [
            | inl (e, failed) ↦ rw (read, failed) hu
            | inr (changed, done) ↦ elim (Option-cases (get_record id tenant u)) [
              | inl gone ↦ rw (read, done, gone) (update_loop-AllRecords n u hu)
              | inr (live, found) ↦ elim (Bool-cases (live.version == current.version)) [
                | inl same ↦
                    rw (read, done, found, same)
                      (put_record-AllRecords id tenant (bump current (now n) changed) u
                        (stamps changed current (now n)
                          (changes current changed (h (request_key tenant id) current read) done))
                        hu)
                | inr differs ↦ rw (read, done, found, differs) (update_loop-AllRecords n u hu)
              ]
            ]
          ]
        ]

    -- An update keeps a property of all records that its change, its stamp and the other calls keep.
    pub update-AllRecords :
        (s : Repo) → AllRecords s → AllRecords (update id tenant mutate now others s).1
    unfolding update
    update-AllRecords s h = update_loop-AllRecords 8 s h

  pub get_record-kept :
      (id tenant : String) (s : Repo) (r : PilotRecord)
      → AllRecords s
      → get_record id tenant s ≡ some r
      → P r
  unfolding get_record
  get_record-kept id tenant s r h e = h (request_key tenant id) r e

  present-All :
      (tenant : String) (s : Repo) (ids : List String)
      → AllRecords s
      → All P (present (find_all tenant s ids))
  present-All tenant s [] h = tt
  present-All tenant s (id ∷ ids) h = elim (Option-cases (get_record id tenant s)) [
    | inl missing ↦ rw missing (present-All tenant s ids h)
    | inr (r, found) ↦ rw found (get_record-kept id tenant s r h found, present-All tenant s ids h)
  ]

  pub list-All :
      (tenant : String) (limit : ℕ) (s : Repo) → AllRecords s → All P (list tenant limit s)
  unfolding list
  list-All tenant limit s h = present-All tenant s (take limit s.order) h
