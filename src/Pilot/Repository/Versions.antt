-- ===== src/Pilot/Repository/Versions.antt =====
-- Every update counts the version of its record up, so that calls among calls keep the version
-- discipline that the compare-and-set rests on.
use stellar_agent_spend_hub.Common.{
  ℕ, zero, suc, ◌<◌, String, ◌≡◌, refl, some, none, inl, inr, ◌⊎◌, Bool-cases, Option-cases, ◌==◌,
  Option, arith, subst,
}
use stellar_agent_spend_hub.Common.Text.{str_eq, eq_iff}
use stellar_agent_spend_hub.Common.Map.{get, get-set}
use stellar_agent_spend_hub.Common.Result.{Result-cases}
use stellar_agent_spend_hub.Pilot.Record.{PilotRecord}
use stellar_agent_spend_hub.Pilot.Repository.{
  Repo, Mutate, get_record, put_record, update, update_loop, request_key, bump,
}

-- A record stays as it is, or comes back under a higher version.
abbrev pub Grown : Option PilotRecord → Option PilotRecord → Type 0
Grown none after = Unit
Grown (some a) none = ⊥
Grown (some a) (some b) = (b ≡ a) ⊎ (a.version < b.version)

abbrev pub Grows : Repo → Repo → Type 0
Grows s t = (id tenant : String) → Grown (get_record id tenant s) (get_record id tenant t)

Grown-refl : (o : Option PilotRecord) → Grown o o
Grown-refl none = tt
Grown-refl (some a) = inl refl

Grown-trans : (a b c : Option PilotRecord) → Grown a b → Grown b c → Grown a c
Grown-trans none b c h k = tt
Grown-trans (some a) none c h k = absurd h
Grown-trans (some a) (some b) none h k = k
Grown-trans (some a) (some b) (some c) h k = ground arith

-- A write above the stored version makes the store grow, at its own key and at all others.
put_record-Grows :
    (id tenant : String) (live next : PilotRecord) (s : Repo)
    → get_record id tenant s ≡ some live
    → live.version < next.version
    → Grows s (put_record id tenant next s)
unfolding get_record put_record
put_record-Grows id tenant live next s found h i t =
    rw (get-set (request_key tenant id) (request_key t i) next s.memory)
      (elim (Bool-cases (str_eq (request_key tenant id) (request_key t i))) [
        | inl e ↦
            let key = (eq_iff (request_key tenant id) (request_key t i)).0 e in
            rw (e, subst (λ k. get k s.memory ≡ some live) key found) (inr h)
        | inr e ↦ rw e (Grown-refl (get (request_key t i) s.memory))
      ])

pub Grows-refl : (s : Repo) → Grows s s
Grows-refl s id tenant = Grown-refl (get_record id tenant s)

pub Grows-trans : (s t u : Repo) → Grows s t → Grows t u → Grows s u
Grows-trans s t u h k id tenant =
    Grown-trans (get_record id tenant s) (get_record id tenant t) (get_record id tenant u)
      (h id tenant) (k id tenant)

Grown-same : (a b : PilotRecord) → Grown (some a) (some b) → b.version ≡ a.version → b ≡ a
Grown-same a b (inl same) e = same
Grown-same a b (inr more) e = absurd (omega arith)

-- A store that only grows keeps a record under the version at which it was read.
pub Grows-same :
    (s t : Repo) (id tenant : String) (a b : PilotRecord)
    → Grows s t
    → get_record id tenant s ≡ some a
    → get_record id tenant t ≡ some b
    → b.version ≡ a.version
    → b ≡ a
Grows-same s t id tenant a b g read found e =
    Grown-same a b
      (subst (λ o. Grown (some a) o) found
        (subst (λ o. Grown o (get_record id tenant t)) read (g id tenant)))
      e

module _ (id tenant : String) (mutate : Mutate) (now : ℕ → ℕ) (others : ℕ → Repo → Repo)
    (fair : (n : ℕ) (s : Repo) → Grows s (others n s)) where
  update_loop-Grows : (n : ℕ) (s : Repo) → Grows s (update_loop id tenant mutate now others n s).1
  unfolding update_loop
  update_loop-Grows zero s = Grows-refl s
  update_loop-Grows (suc n) s =
      let u = others n s in
      let rest =
        Grows-trans s u (update_loop id tenant mutate now others n u).1 (fair n s)
          (update_loop-Grows n u) in
      elim (Option-cases (get_record id tenant s)) [
        | inl missing ↦ rw missing (fair n s)
        | inr (current, read) ↦ elim (Result-cases (mutate current)) [
          | inl (e, failed) ↦ rw (read, failed) (fair n s)
          | inr (changed, done) ↦ elim (Option-cases (get_record id tenant u)) [
            | inl gone ↦ rw (read, done, gone) rest
            | inr (live, found) ↦ elim (Bool-cases (live.version == current.version)) [
              | inl same ↦
                  rw (read, done, found, same)
                    (Grows-trans s u (put_record id tenant (bump current (now n) changed) u)
                      (fair n s)
                      (put_record-Grows id tenant live (bump current (now n) changed) u found
                        (ground arith)))
              | inr differs ↦ rw (read, done, found, differs) rest
            ]
          ]
        ]
      ]

  -- An update among calls that make the store grow makes it grow too: every record stays as it
  -- is or comes back under a higher version, so a version once read names one content.
  pub update-Grows : (s : Repo) → Grows s (update id tenant mutate now others s).1
  unfolding update
  update-Grows s = update_loop-Grows 8 s
