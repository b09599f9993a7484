-- ===== src/Registry/Evidence.antt =====
-- What the registry takes as evidence in console/registry.py: `_fresh`, `_retired_drained`,
-- `_ready`, `_fenced`, `_executable` and `_dependencies_ready`.
use nexus_infra.Base.{
  ℕ, ◌-◌, String, Bool, false, not, ◌&&◌, ◌||◌, List, [], ◌∷◌, Option, none, some, leb, ◌==◌,
  str_eq, if◌then◌else◌,
}
use nexus_infra.Base.Result.{Result, ok, failure_with, ◌>>=◌, ◌>>◌, require, or_raise}
use nexus_infra.Base.Strings.{mem, subset}
use nexus_infra.Base.Table.{any}
use nexus_infra.Catalog.Definition.{Definition}
use nexus_infra.Registry.State.{
  Route, Instance, Session, ObservationRow, Db, Registry, placement, instance_row, observation_row,
  session_row, definition_of,
}
use nexus_infra.Registry.Requests.{observation_max_age, is_true, serving}

-- `0 <= a - b <= _OBSERVATION_MAX_AGE`
abbrev pub within_age : ℕ → ℕ → Bool
within_age a b = leb b a && leb (a - b) observation_max_age

abbrev in_session : Option Session → String → Bool
in_session none session_id = false
in_session (some s) session_id = str_eq s.session_id session_id

fresh_row : Registry → ObservationRow → String → ℕ → ℕ → Bool
fresh_row r o host_id now mono =
    str_eq o.epoch r.epoch
    && in_session (session_row r.db host_id) o.session_id
    && within_age now o.payload.observed_at
    && within_age mono o.received_mono

-- `_fresh`
unfoldable pub fresh : Registry → Option ObservationRow → String → ℕ → ℕ → Bool
unfolding fresh_row
fresh r none host_id now mono = false
fresh r (some o) host_id now mono = fresh_row r o host_id now mono

abbrev quiet_unit : String → Bool
quiet_unit unit = str_eq unit "inactive" || str_eq unit "failed"

abbrev pub drained_stop : Option ObservationRow → Bool
drained_stop none = false
drained_stop (some o) =
    o.payload.retired
    && is_true o.payload.unit_drained
    && str_eq o.payload.phase "stopped"
    && quiet_unit o.payload.unit_active_state

-- `_retired_drained`
unfoldable pub retired_drained : Registry → Option ObservationRow → String → ℕ → ℕ → Bool
retired_drained r o host_id now mono = fresh r o host_id now mono && drained_stop o

abbrev pub serves : Option ObservationRow → List String → Bool
serves none needed = false
serves (some o) needed =
    serving o.payload.phase o.payload.unit_active_state o.payload.unit_drained o.payload.retired
    && subset needed o.payload.ready_services

-- `_ready` with the services named
unfoldable pub ready_for : Registry → Option ObservationRow → String → ℕ → ℕ → List String → Bool
ready_for r o host_id now mono needed = fresh r o host_id now mono && serves o needed

-- `self._route_services.get(workload_id, set())`
unfoldable pub route_services : List Route → String → List String
route_services [] workload_id = []
route_services (t ∷ ts) workload_id =
    let rest = route_services ts workload_id in
    if str_eq t.workload_id workload_id then t.service_id ∷ rest else rest

-- `_ready` with the services that the routes of the workload name
unfoldable pub ready : Registry → Option ObservationRow → String → String → ℕ → ℕ → Bool
unfolding ready_for
ready r o host_id workload_id now mono =
    ready_for r o host_id now mono (route_services r.config.routes workload_id)

-- `_fenced`
unfoldable pub fenced : Db → String → ℕ → Option String → Bool
fenced db workload_id generation none = false
fenced db workload_id generation (some host_id) =
    any
      (λ f.
        str_eq f.workload_id workload_id && f.generation == generation && str_eq f.host_id host_id)
      db.fences

-- `_executable`
unfoldable pub executable : Definition → Result (Unit {0})
executable d = do
  require (not (str_eq d.category "archive" || str_eq d.category "infrastructure"))
      (failure_with "workload-not-mutable" 409)
  require (mem "start" d.allowed_operations) (failure_with "operation-not-allowed" 409)

abbrev dependency_serves : Registry → Option Instance → String → String → ℕ → ℕ → Bool
dependency_serves r none instance_id dep now mono = false
dependency_serves r (some i) instance_id dep now mono =
    ready r (observation_row r.db instance_id) i.host_id dep now mono

-- One round of the loop in `_dependencies_ready`.
unfoldable pub dependency_ready : Registry → String → ℕ → ℕ → Result (Unit {0})
dependency_ready r dep now mono = do
  p ← or_raise (placement r.db dep) (failure_with "dependency-not-placed" 409)
  require (dependency_serves r (instance_row r.db p.instance_id) p.instance_id dep now mono)
      (failure_with "dependency-not-ready" 409)

unfoldable pub all_ready : Registry → List String → ℕ → ℕ → Result (Unit {0})
all_ready r [] now mono = ok tt
all_ready r (dep ∷ deps) now mono = do dependency_ready r dep now mono; all_ready r deps now mono

-- `_dependencies_ready`
unfoldable pub dependencies_ready : Registry → String → String → ℕ → ℕ → Result (Unit {0})
dependencies_ready r workload_id revision_digest now mono =
    elim (definition_of r.config workload_id revision_digest) [
      | none ↦ ok tt
      | some d ↦ all_ready r d.dependencies now mono
    ]
