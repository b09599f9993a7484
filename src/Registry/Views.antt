-- ===== src/Registry/Views.antt =====
-- What the registry shows: `_observed_state`, `state`, `assignments` and `routes` of
-- console/registry.py.
use nexus_infra.Base.{
  ◌==◌, ℕ, ◌+◌, ◌-◌, ◌*◌, String, Bool, true, false, not, ◌&&◌, ◌||◌, List, [], ◌∷◌, Option, none,
  some, leb, ltb, str_eq, if◌then◌else◌,
}
use Prim.Native.Nat.{min}
use nexus_infra.Base.Result.{◌>>◌, failure_with, Result, ok, failure, ◌>>=◌, require, or_raise}
use nexus_infra.Base.Strings.{str_lt, is_hex32}
use nexus_infra.Base.Table.{row}
use nexus_infra.Json.Value.{Value}
use nexus_infra.Registry.State.{
  Fence, Principal, Route, Placement, Instance, Observation, ObservationRow, Registry, placement,
  instance_row, observation_row, definition_of,
}
use nexus_infra.Registry.Requests.{second, observation_max_age, is_true, is_false}
use nexus_infra.Registry.Clock.{principal, Clock, Call, after, with_now, with_mono, with_principal}
use nexus_infra.Registry.Evidence.{fresh, ready_for}

-- `_LOST_AFTER` and `_ROUTE_TTL`
abbrev pub lost_after : ℕ
lost_after = 300 * second

abbrev pub route_ttl : ℕ
route_ttl = 10 * second

pub data ObservedState : Type 0 where
  unknown lost stale running stopped preparing prepared starting stopping retired : ObservedState

-- The unit is drained and is not active in any way.
abbrev pub quiet : Observation → Bool
quiet o =
    is_true o.unit_drained
    && (str_eq o.unit_active_state "inactive" || str_eq o.unit_active_state "failed")

abbrev pub when : Bool → ObservedState → ObservedState
when true s = s
when false s = unknown

-- The state of an instance that is not retired and whose phase is not "running".
unfoldable pub idle_state : Observation → ObservedState
idle_state o =
    let unit = o.unit_active_state in
    if str_eq o.phase "stopped"
    then when (quiet o) stopped
    else if str_eq o.phase "preparing"
    then when (quiet o) preparing
    else if str_eq o.phase "prepared"
    then when (quiet o) prepared
    else if str_eq o.phase "starting"
    then when (quiet o || str_eq unit "activating" || str_eq unit "active") starting
    else if str_eq o.phase "stopping"
    then when
        (quiet o || str_eq unit "active" || str_eq unit "activating" || str_eq unit "deactivating")
        stopping
    else unknown

-- The state that a fresh observation shows.
unfoldable pub shown_state : Observation → ObservedState
shown_state o =
    if str_eq o.unit_active_state "unknown"
    then unknown
    else if o.retired
    then when (quiet o) retired
    else if str_eq o.phase "running"
    then when (str_eq o.unit_active_state "active" && is_false o.unit_drained) running
    else idle_state o

unfoldable pub row_state : Registry → ObservationRow → String → ℕ → ℕ → ObservedState
row_state r o host_id now mono =
    if ltb now o.payload.observed_at
    then unknown
    else if not (fresh r (some o) host_id now mono)
    then (if leb lost_after (now - o.payload.observed_at) then lost else stale)
    else shown_state o.payload

-- `_observed_state`, without the view of the payload
unfoldable pub observed_state : Registry → Option ObservationRow → String → ℕ → ℕ → ObservedState
unfolding row_state
observed_state r none host_id now mono = unknown
observed_state r (some o) host_id now mono = row_state r o host_id now mono

pub record Backend : Type 0 where
  pub instance_id : String
  pub generation : ℕ
  pub host_id : String
  pub revision_digest : String
  pub address : Value
  pub port : ℕ

-- A backend, and when the evidence behind it runs out.
pub record Served : Type 0 where
  pub backend : Backend
  pub expiry : ℕ

-- `min(observedAt + 30, now + max(0, 30 - (mono - received_mono)))`
unfoldable pub expiry_of : ObservationRow → ℕ → ℕ → ℕ
expiry_of o now mono =
    min (o.payload.observed_at + observation_max_age)
      (now + (observation_max_age - (mono - o.received_mono)))

-- The backend of a published placement that is ready for the service; the lookups that Python makes
-- by subscript raise where the row is missing.
unfoldable pub serve :
    Registry → Route → Placement → Instance → Option ObservationRow → ℕ → ℕ → Result (Option Served)
serve r t p i none now mono = ok none
serve r t p i (some o) now mono =
    if ready_for r (some o) i.host_id now mono (t.service_id ∷ [])
    then (do
      d ← or_raise (definition_of r.config t.workload_id i.revision_digest) (failure "KeyError")
      s ← or_raise (row (λ s. s.id) t.service_id d.services) (failure "StopIteration")
      ok (
          some (record {
            backend = record {
              instance_id = p.instance_id;
              generation = p.generation;
              host_id = i.host_id;
              revision_digest = i.revision_digest;
              address = o.payload.endpoint_address;
              port = s.port;
            };
            expiry = expiry_of o now mono;
          })))
    else ok none

unfoldable pub backend_of : Registry → Route → Option Placement → ℕ → ℕ → Result (Option Served)
backend_of r t none now mono = ok none
backend_of r t (some p) now mono =
    if p.published
    then (do
      i ← or_raise (instance_row r.db p.instance_id) (failure "TypeError")
      serve r t p i (observation_row r.db p.instance_id) now mono)
    else ok none

pub record Table : Type 0 where
  pub valid_until : ℕ
  pub routes : List (Route × Option Served)

abbrev pub sooner : Option Served → ℕ → ℕ
sooner none t = t
sooner (some s) t = min s.expiry t

-- The loop of `routes`; `self._routes` is in the order of the ids, and `min(expiries)` is taken as
-- the loop goes.
unfoldable pub route_loop : Registry → List Route → ℕ → ℕ → Result Table
route_loop r [] now mono = ok (record { valid_until = now + route_ttl; routes = [] })
route_loop r (t ∷ ts) now mono = do
  b ← backend_of r t (placement r.db t.workload_id) now mono
  rest ← route_loop r ts now mono
  ok (record { valid_until = sooner b rest.valid_until; routes = (t, b) ∷ rest.routes })

abbrev read : {A : Type 0} → (Registry → Result A) → Call A
read f r = (f r, r)

-- `routes`
unfoldable pub routes : Clock → Principal → String → Call Table
routes clock p nonce = with_principal p ("ingress" ∷ "controller" ∷ []) (
    after (require (is_hex32 nonce) (failure "invalid-nonce")) λ _.
      with_now clock
        λ now. with_mono clock λ mono. read (λ q. route_loop q q.config.routes now mono))

-- The row of a workload in `state`.
pub record WorkloadView : Type 0 where
  pub workload_id : String
  pub placed : Option (Placement × Instance)
  pub observed : ObservedState

unfoldable pub workload_view : Registry → String → Option Placement → ℕ → ℕ → Result WorkloadView
workload_view r workload_id none now mono =
    ok (record { workload_id = workload_id; placed = none; observed = unknown })
workload_view r workload_id (some p) now mono = do
  i ← or_raise (instance_row r.db p.instance_id) (failure "TypeError")
  ok (record {
    workload_id = workload_id;
    placed = some (p, i);
    observed = observed_state r (observation_row r.db p.instance_id) i.host_id now mono;
  })

insert_instance_row : Instance → List Instance → List Instance
insert_instance_row i [] = i ∷ []
insert_instance_row i (j ∷ js) =
    let rest = insert_instance_row i js in if stands_before then i ∷ j ∷ js else j ∷ rest
  where
    stands_before : Bool
    stands_before =
        ltb i.generation j.generation
        || (i.generation == j.generation
            && (str_lt i.workload_id j.workload_id
                || (str_eq i.workload_id j.workload_id
                    && not (str_lt j.instance_id i.instance_id))))

unfoldable pub instances_of : String → List Instance → List Instance
unfolding insert_instance_row
instances_of host_id [] = []
instances_of host_id (i ∷ is) =
    let rest = instances_of host_id is in
    if str_eq i.host_id host_id then insert_instance_row i rest else rest

-- `assignments`, which returns the rows
unfoldable pub assignments : Principal → Registry → Result (List Instance)
assignments p r = do
  principal r.config p ("host" ∷ [])
  host_id ← or_raise p.host_id (failure_with "host-mismatch" 403)
  ok (instances_of host_id r.db.instances)

unfoldable pub state_rows : Registry → List String → ℕ → ℕ → Result (List WorkloadView)
state_rows r [] now mono = ok []
state_rows r (w ∷ ws) now mono = do
  v ← workload_view r w (placement r.db w) now mono
  rest ← state_rows r ws now mono
  ok (v ∷ rest)

insert_fence_row : Fence → List Fence → List Fence
insert_fence_row f [] = f ∷ []
insert_fence_row f (g ∷ gs) =
    let rest = insert_fence_row f gs in
    if str_lt f.workload_id g.workload_id
      || (str_eq f.workload_id g.workload_id && ltb f.generation g.generation)
    then f ∷ g ∷ gs
    else g ∷ rest

-- `_fence_rows`
unfoldable pub fence_list : List Fence → List Fence
unfolding insert_fence_row
fence_list [] = []
fence_list (f ∷ fs) = insert_fence_row f (fence_list fs)

pub record StateView : Type 0 where
  pub epoch : String
  pub version : ℕ
  pub workloads : List WorkloadView
  pub fences : List Fence

-- `state`; `workload_ids` is `sorted(self._revisions)`
unfoldable pub state : Clock → Principal → List String → Call StateView
state clock p workload_ids = with_principal p ("reader" ∷ "controller" ∷ []) (
    with_now clock λ now. with_mono clock λ mono. read (λ q.
      state_rows q workload_ids now mono >>= λ rows. ok (record {
        epoch = q.epoch;
        version = q.db.version;
        workloads = rows;
        fences = fence_list q.db.fences;
      })))
