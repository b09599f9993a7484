-- ===== src/Registry/Succession/Placing.antt =====
-- What one call of console/registry.py may do to the placement of a workload.
use nexus_infra.Base.{ℕ, ◌+◌, String, true, false, none, some, ◌≡◌}
use nexus_infra.Base.Result.{ok}
use nexus_infra.Json.Value.{Value}
use nexus_infra.Registry.State.{
  Principal, Placement, Db, Registry, placement, instance_row, definition_of, generation_of,
}
use nexus_infra.Registry.Requests.{AssignRequest, PlacementRequest}
use nexus_infra.Registry.Evidence.{ready, all_ready, dependencies_ready}
use nexus_infra.Registry.Assign.{incumbent_released}
use nexus_infra.Registry.Publish.{publishing, withdrawing}
use nexus_infra.Registry.Events.{Event, step, Allows, step-Changes}
use nexus_infra.Registry.Events as Events
use nexus_infra.Registry.Events.{opens, observes, assigns, fences, posts, reports}
use nexus_infra.Registry.Clock.{Clock, read_clock}
use nexus_infra.Registry.Requests.{validate_assign, validate_placement_request}
use nexus_infra.Catalog.Definition.{Definition}
use nexus_infra.Registry.State.{Instance, observation_row}

-- An `assign` of the workload, at the times that it has read.
pub record Succeeds (clock : Clock) (v : Value) (r : Registry) (db : Db) (w : String) : Type 0 where
  pub request : AssignRequest
  pub valid : validate_assign v ≡ ok request
  pub names : request.workload_id ≡ w
  pub now : ℕ
  pub wall_read : read_clock clock.wall r.last_wall ≡ ok now
  pub mono : ℕ
  pub mono_read : read_clock clock.mono r.last_mono ≡ ok mono
  pub placed_next :
      placement db w
      ≡ some (record {
        workload_id = w;
        generation = generation_of (placement r.db w) + 1;
        instance_id = request.instance_id;
        published = false;
      })
  pub unseen : instance_row r.db request.instance_id ≡ none
  pub inserted :
      instance_row db request.instance_id
      ≡ some (record {
        instance_id = request.instance_id;
        workload_id = w;
        revision_digest = request.revision_digest;
        host_id = request.host_id;
        generation = generation_of (placement r.db w) + 1;
      })
  pub free : incumbent_released r (placement r.db w) now mono ≡ true
  pub definition : Definition
  pub defined : definition_of r.config w request.revision_digest ≡ some definition
  pub ready_dependencies : all_ready r definition.dependencies now mono ≡ ok tt

-- A `publish` of the workload, at the times that it has read.
pub record Publishes (clock : Clock) (v : Value) (r : Registry) (db : Db) (w : String)
    : Type 0 where
  pub request : PlacementRequest
  pub valid : validate_placement_request v ≡ ok request
  pub names : request.workload_id ≡ w
  pub now : ℕ
  pub wall_read : read_clock clock.wall r.last_wall ≡ ok now
  pub mono : ℕ
  pub mono_read : read_clock clock.mono r.last_mono ≡ ok mono
  pub target : Placement
  pub was : placement r.db w ≡ some target
  pub expected : request.expected_generation ≡ target.generation
  pub placed_shown : placement db w ≡ some (record target { published = true })
  pub instance_ : Instance
  pub found : instance_row r.db target.instance_id ≡ some instance_
  pub is_ready :
      ready r (observation_row r.db target.instance_id) instance_.host_id w now mono ≡ true
  pub ready_dependencies : dependencies_ready r w instance_.revision_digest now mono ≡ ok tt

-- A `withdraw` of the workload.
pub record Withdraws (v : Value) (r : Registry) (db : Db) (w : String) : Type 0 where
  pub request : PlacementRequest
  pub valid : validate_placement_request v ≡ ok request
  pub names : request.workload_id ≡ w
  pub target : Placement
  pub was : placement r.db w ≡ some target
  pub expected : request.expected_generation ≡ target.generation
  pub placed_hidden : placement db w ≡ some (record target { published = false })

-- What a call may do to the placement of one workload.
pub data Moves (r : Registry) (db : Db) (w : String) : Event → Type 0 where
  stays : {e : Event} → placement db w ≡ placement r.db w → Moves r db w e
  succeeds :
      {clock : Clock} {p : Principal} {v : Value}
      → Succeeds clock v r db w
      → Moves r db w (assigns clock p v)
  published :
      {clock : Clock} {p : Principal} {v : Value}
      → Publishes clock v r db w
      → Moves r db w (Events.shows publishing clock p v)
  withdrawn :
      {clock : Clock} {p : Principal} {v : Value}
      → Withdraws v r db w
      → Moves r db w (Events.shows withdrawing clock p v)
