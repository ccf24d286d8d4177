-- ===== src/Mpp/Atomic.antt =====
-- What a successful update of the machine payment store has done, among other calls.
use stellar_agent_spend_hub.Common.{
  ℕ, zero, suc, String, Bool, true, false, Option, none, some, ◌≡◌, refl, sym, ap, ◌∙◌, Bool-cases,
  inl, inr,
}
use stellar_agent_spend_hub.Common.Text.{eq_iff}
use stellar_agent_spend_hub.Common.Result.{Result, ok, err, HttpError}
use stellar_agent_spend_hub.Common.Map.{get, set}
use stellar_agent_spend_hub.Common.Stage.{Stage, first, next}
use stellar_agent_spend_hub.Mpp.{
  Change, noop, put, delete, Json, Store, del, decode, raw_eq, contended, update_loop, update,
  attempt,
}

raw_eq-eq : (v w : Option String) → raw_eq v w ≡ true → v ≡ w
raw_eq-eq none none h = refl
raw_eq-eq none (some w) h = cc
raw_eq-eq (some v) none h = cc
raw_eq-eq (some v) (some w) h = ap some ((eq_iff v w).0 h)

err-ne-ok :
    {R : Type 0} (e : HttpError) (s t : Store) (r : R)
    → ◌≡◌ {A = Result R × Store} (err e, s) (ok r, t)
    → ⊥
err-ne-ok e s t r h = cc

ok_parts :
    {R : Type 0} (a b : R) (s t : Store)
    → ◌≡◌ {A = Result R × Store} (ok a, s) (ok b, t)
    → (a ≡ b) × (t ≡ s)
ok_parts a b s t h = (cc, cc)

-- the change of a store that `fn` asks for
abbrev pub perform : {V R : Type 0} → Json V → String → Change V R → Store → Store
perform json key (noop result) s = s
perform json key (put value result) s = set key (json.encode value) s
perform json key (delete result) s = del key s

abbrev pub result_of : {V R : Type 0} → Change V R → R
result_of (noop result) = result
result_of (put value result) = result
result_of (delete result) = result

abbrev pub writes : {V R : Type 0} → Change V R → Bool
writes (noop result) = false
writes (put value result) = true
writes (delete result) = true

module _ {V R : Type 0} (json : Json V) (key : String) (fn : Option V → Change V R)
    (others : ℕ → Store → Store) where
  -- What a success on a store means: one of the attempts on it gave `fn` the text that stood under the
  -- key before it, and carried its answer out in the store after the wait; where it writes, the text
  -- still stood there.
  pub record IsUpdate (s : Store) (r : R) (t : Store) : Type 0 where
    pub left : ℕ
    pub before : Store
    pub reached : Stage others 12 s (suc left) before
    pub current :
        writes (fn (decode json (get key before))) ≡ true
        → get key (others left before) ≡ get key before
    pub written : t ≡ perform json key (fn (decode json (get key before))) (others left before)
    pub result : r ≡ result_of (fn (decode json (get key before)))

  module _ (s : Store) (n : ℕ) (u : Store) (at : Stage others 12 s (suc n) u) where
    made :
        (t : Store) (r : R) (c : Change V R)
        → c ≡ fn (decode json (get key u))
        → (writes c ≡ true → get key (others n u) ≡ get key u)
        → t ≡ perform json key c (others n u)
        → r ≡ result_of c
        → IsUpdate s r t
    made t r c e current written result = record {
      left = n;
      before = u;
      reached = at;
      current = λ w. current (ap writes e ∙ w);
      written = written ∙ ap (λ x. perform json key x (others n u)) e;
      result = result ∙ ap result_of e;
    }

    attempt-IsUpdate :
        (t : Store) (r : R) (rest : Result R × Store) (c : Change V R)
        → c ≡ fn (decode json (get key u))
        → attempt json key fn others (get key u) (others n u) rest c ≡ (ok r, t)
        → (rest ≡ (ok r, t) → IsUpdate s r t)
        → IsUpdate s r t
    attempt-IsUpdate t r rest (noop result) e h retry =
        let (got, kept) = ok_parts result r (others n u) t h in
        made t r (noop result) e (λ w. absurd (never w)) kept (sym got)
      where
        never : false ≡ true → ⊥
        never w = cc
    attempt-IsUpdate t r rest (put value result) e h retry =
        elim (Bool-cases (raw_eq (get key (others n u)) (get key u))) [
          | inr changed ↦ retry (rw (changed) at h)
          | inl same ↦
              let (got, kept) =
                ok_parts result r (set key (json.encode value) (others n u)) t (rw (same) at h) in
              made t r (put value result) e (λ w. raw_eq-eq (get key (others n u)) (get key u) same)
                kept (sym got)
        ]
    attempt-IsUpdate t r rest (delete result) e h retry =
        elim (Bool-cases (raw_eq (get key (others n u)) (get key u))) [
          | inr changed ↦ retry (rw (changed) at h)
          | inl same ↦
              let (got, kept) = ok_parts result r (del key (others n u)) t (rw (same) at h) in
              made t r (delete result) e (λ w. raw_eq-eq (get key (others n u)) (get key u) same)
                kept (sym got)
        ]

  update_loop-IsUpdate :
      (s : Store) (n : ℕ) (u t : Store) (r : R)
      → Stage others 12 s n u
      → update_loop json key fn others n u ≡ (ok r, t)
      → IsUpdate s r t
  unfolding update_loop
  update_loop-IsUpdate s zero u t r at h = absurd (err-ne-ok contended u t r h)
  update_loop-IsUpdate s (suc n) u t r at h =
      attempt-IsUpdate s n u at t r (update_loop json key fn others n (others n u))
        (fn (decode json (get key u))) refl h
        (λ k. update_loop-IsUpdate s n (others n u) t r (next at) k)

  -- Whatever other calls do to the store in between, an update that succeeds returns, from one of its
  -- twelve attempts, the result of the answer of `fn` to what stood under the key at the start of the
  -- attempt; where that answer writes, the same text still stood under the key at the moment of the
  -- write; and nothing but that answer was carried out.
  pub update-IsUpdate :
      (s t : Store) (r : R) → update json key fn others s ≡ (ok r, t) → IsUpdate s r t
  unfolding update
  update-IsUpdate s t r h = update_loop-IsUpdate s 12 s t r first h

raw_eq_refl : (v : Option String) → raw_eq v v ≡ true
raw_eq_refl none = refl
raw_eq_refl (some v) = (eq_iff v v).1 refl

-- With no other call in between, an update succeeds at once: it returns the result of the answer of
-- `fn` to the stored value and leaves the store with that answer carried out.
pub update-quiet :
    {V R : Type 0} (json : Json V) (key : String) (fn : Option V → Change V R) (s : Store)
    → update json key fn (λ n t. t) s ≡ (
      ok (result_of (fn (decode json (get key s)))),
      perform json key (fn (decode json (get key s))) s,
    )
unfolding update update_loop
update-quiet json key fn s = at_once json key fn s (fn (decode json (get key s)))
  where
    at_once :
        {V R : Type 0} (json : Json V) (key : String) (fn : Option V → Change V R) (s : Store)
        (c : Change V R)
        → attempt json key fn (λ n t. t) (get key s) s (update_loop json key fn (λ n t. t) 11 s) c
          ≡ (ok (result_of c), perform json key c s)
    at_once json key fn s (noop result) = refl
    at_once json key fn s (put value result) = rw (raw_eq_refl (get key s))
    at_once json key fn s (delete result) = rw (raw_eq_refl (get key s))
