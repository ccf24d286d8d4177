-- ===== src/Pilot/Repository.antt =====
-- The store of the pilot requests (src/pilotRepository.mjs): the maps in memory, and the scripts
-- that the remote store runs. Between the read and the write of an attempt other calls may change
-- the store: they are the argument `others`.
pub mod Atomic
pub mod Creation
pub mod Kept
pub mod Linear
pub mod Remote
pub mod Versions
use Prim.Native.String.{◌++◌}
use stellar_agent_spend_hub.Common.{
  ℕ, zero, suc, ◌+◌, String, Bool, true, false, Option, none, some, List, [], ◌∷◌, ◌==◌,
  if◌then◌else◌, take,
}
use stellar_agent_spend_hub.Common.Result.{Result, ok, err, http_error, HttpError}
use stellar_agent_spend_hub.Common.Map.{Map, get, set}
use stellar_agent_spend_hub.Pilot.Record.{PilotRecord}

pub record Repo : Type 0 where
  pub memory : Map PilotRecord
  pub idempotency : Map String
  pub order : List String

abbrev prefix : String
prefix = "spendhub:pilot:"

unfoldable pub request_key : String → String → String
request_key tenant_id request_id = prefix ++ (tenant_id ++ (":request:" ++ request_id))

unfoldable pub idem_key : String → String → String
idem_key tenant_id digest = prefix ++ (tenant_id ++ (":idempotency:" ++ digest))

-- `repository.get`
unfoldable pub get_record : String → String → Repo → Option PilotRecord
get_record request_id tenant_id s = get (request_key tenant_id request_id) s.memory

-- `memory.set(requestKey(…), …)`
unfoldable pub put_record : String → String → PilotRecord → Repo → Repo
put_record request_id tenant_id r s = record s {
  memory = set (request_key tenant_id request_id) r s.memory;
}

abbrev pub insert_new : PilotRecord → Repo → Option PilotRecord × Repo
insert_new r s = (
  some r,
  record {
    memory = set (request_key r.tenant_id r.request_id) r s.memory;
    idempotency = set (idem_key r.tenant_id r.idempotency_digest) r.request_id s.idempotency;
    order = r.request_id ∷ s.order;
  },
)

abbrev pub create_known : PilotRecord → Repo → Option String → Option PilotRecord × Repo
create_known r s none = insert_new r s
create_known r s (some existing_id) = (get_record existing_id r.tenant_id s, s)

-- `repository.create` in memory: the record that stands for the key, new or old
unfoldable pub create : PilotRecord → Repo → Option PilotRecord × Repo
create r s = create_known r s (get (idem_key r.tenant_id r.idempotency_digest) s.idempotency)

abbrev pub Mutate : Type 0
Mutate = PilotRecord → Result PilotRecord

-- `next.version = current.version + 1; next.updatedAt = …`
abbrev pub bump : PilotRecord → ℕ → PilotRecord → PilotRecord
bump current now next = record next { version = current.version + 1; updated_at = now }

abbrev pub not_found : HttpError
not_found = http_error 404 "Pilot request not found"

abbrev pub contended : HttpError
contended = http_error 409 "Pilot request changed concurrently"

-- `!live || live.version !== current.version`, negated
abbrev pub unchanged : Option PilotRecord → PilotRecord → Bool
unchanged none current = false
unchanged (some live) current = live.version == current.version

module _ (request_id tenant_id : String) (mutate : Mutate) (now : ℕ → ℕ)
    (others : ℕ → Repo → Repo) where
  abbrev pub write :
      PilotRecord → PilotRecord → Repo → Result PilotRecord × Repo → Result PilotRecord × Repo
  write current next s retry =
      if unchanged (get_record request_id tenant_id s) current
      then (ok next, put_record request_id tenant_id next s)
      else retry

  abbrev pub commit :
      PilotRecord
      → ℕ
      → Repo
      → Result PilotRecord × Repo
      → Result PilotRecord
      → Result PilotRecord × Repo
  commit current n s retry (err e) = (err e, s)
  commit current n s retry (ok changed) = write current (bump current (now n) changed) s retry

  abbrev pub attempt :
      ℕ → Repo → Result PilotRecord × Repo → Option PilotRecord → Result PilotRecord × Repo
  attempt n s retry none = (err not_found, s)
  attempt n s retry (some current) = commit current n s retry (mutate current)

  -- the attempts of `repository.update` in memory; the first argument is how many are left
  unfoldable pub update_loop : ℕ → Repo → Result PilotRecord × Repo
  update_loop zero s = (err contended, s)
  update_loop (suc n) s =
      attempt n (others n s) (update_loop n (others n s)) (get_record request_id tenant_id s)

  unfoldable pub update : Repo → Result PilotRecord × Repo
  update s = update_loop 8 s

  -- what `CAS_SCRIPT` answers, and the store that it leaves
  pub cas_script : ℕ → PilotRecord → Repo → Option Bool × Repo
  cas_script version next s = elim (get_record request_id tenant_id s) [
    | none ↦ (none, s)
    | some live ↦
        if live.version == version
        then (some true, put_record request_id tenant_id next s)
        else (some false, s)
  ]

  abbrev pub applied :
      PilotRecord → Option Bool × Repo → Result PilotRecord × Repo → Result PilotRecord × Repo
  applied next (none, s) retry = (err not_found, s)
  applied next (some true, s) retry = (ok next, s)
  applied next (some false, s) retry = retry

  abbrev pub cas_commit :
      PilotRecord
      → ℕ
      → Repo
      → Result PilotRecord × Repo
      → Result PilotRecord
      → Result PilotRecord × Repo
  cas_commit current n s retry (err e) = (err e, s)
  cas_commit current n s retry (ok changed) =
      let next = bump current (now n) changed in
      applied next (cas_script current.version next s) retry

  abbrev pub cas_attempt :
      ℕ → Repo → Result PilotRecord × Repo → Option PilotRecord → Result PilotRecord × Repo
  cas_attempt n s retry none = (err not_found, s)
  cas_attempt n s retry (some current) = cas_commit current n s retry (mutate current)

  -- the same attempts against the remote store
  pub cas_loop : ℕ → Repo → Result PilotRecord × Repo
  cas_loop zero s = (err contended, s)
  cas_loop (suc n) s =
      cas_attempt n (others n s) (cas_loop n (others n s)) (get_record request_id tenant_id s)

  pub remote_update : Repo → Result PilotRecord × Repo
  remote_update s = cas_loop 8 s

abbrev present : List (Option PilotRecord) → List PilotRecord
present [] = []
present (none ∷ rs) = present rs
present (some r ∷ rs) = r ∷ present rs

abbrev find_all : String → Repo → List String → List (Option PilotRecord)
find_all tenant_id s [] = []
find_all tenant_id s (id ∷ ids) = get_record id tenant_id s ∷ find_all tenant_id s ids

-- `repository.list` in memory
unfoldable pub list : String → ℕ → Repo → List PilotRecord
list tenant_id limit s = present (find_all tenant_id s (take limit s.order))
