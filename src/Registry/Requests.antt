-- ===== src/Registry/Requests.antt =====
-- The request checks of console/registry.py: `_validate_assign`, `_validate_placement_request`,
-- `_validate_observation`, `_validate_operation`, `_validate_receipt` and `_validate_fence`. Each
-- returns the request's fields at their types; the canonical text of the request is taken from the
-- JSON value itself.
use nexus_infra.Base.{
  ℕ, ◌-◌, ◌*◌, ◌^◌, String, Bool, true, false, not, ◌&&◌, ◌||◌, List, [], ◌∷◌, Option, none, some,
  leb, str_eq, if◌then◌else◌,
}
use nexus_infra.Base.Result.{Result, ok, err, failure, ◌>>=◌, ◌>>◌, require}
use nexus_infra.Base.Strings.{length}
use nexus_infra.Json.Value.{Value, null, boolean, int, float, pos}
use nexus_infra.Json.Checks.{
  fields, item, identifier, hex32, digest, integer, flag, id_list, max_i64,
}
use nexus_infra.Catalog.Shape.{enum}
use nexus_infra.Registry.State.{Observation}

-- The ticks of one second, in which times are counted.
abbrev pub second : ℕ
second = 1000000

abbrev pub max_time : ℕ
max_time = 2 ^ 53 * second

abbrev pub observation_max_age : ℕ
observation_max_age = 30 * second

pub record AssignRequest : Type 0 where
  pub request_id : String
  pub workload_id : String
  pub revision_digest : String
  pub host_id : String
  pub instance_id : String
  pub expected_generation : ℕ

-- `_validate_assign`
unfoldable pub validate_assign : Value → Result AssignRequest
validate_assign v = do
  fs ←
      fields v
        ("schemaVersion" ∷ "requestId" ∷ "workloadId" ∷ "revisionDigest" ∷ "hostId" ∷ "instanceId"
          ∷ "expectedGeneration" ∷ [])
        "invalid-request-fields"
  schema ← integer (← item "schemaVersion" fs) 2 2 "invalid-schemaVersion"
  request_id ← hex32 (← item "requestId" fs) "invalid-requestId"
  workload_id ← identifier (← item "workloadId" fs) "invalid-workloadId"
  revision_digest ← digest (← item "revisionDigest" fs) "invalid-revisionDigest"
  host_id ← identifier (← item "hostId" fs) "invalid-hostId"
  instance_id ← hex32 (← item "instanceId" fs) "invalid-instanceId"
  expected ← integer (← item "expectedGeneration" fs) 0 (max_i64 - 1) "invalid-expectedGeneration"
  ok (record {
    request_id = request_id;
    workload_id = workload_id;
    revision_digest = revision_digest;
    host_id = host_id;
    instance_id = instance_id;
    expected_generation = expected;
  })

pub record PlacementRequest : Type 0 where
  pub request_id : String
  pub workload_id : String
  pub expected_generation : ℕ

-- `_validate_placement_request`
unfoldable pub validate_placement_request : Value → Result PlacementRequest
validate_placement_request v = do
  fs ←
      fields v ("schemaVersion" ∷ "requestId" ∷ "workloadId" ∷ "expectedGeneration" ∷ [])
        "invalid-request-fields"
  schema ← integer (← item "schemaVersion" fs) 2 2 "invalid-schemaVersion"
  request_id ← hex32 (← item "requestId" fs) "invalid-requestId"
  workload_id ← identifier (← item "workloadId" fs) "invalid-workloadId"
  expected ← integer (← item "expectedGeneration" fs) 0 (max_i64 - 1) "invalid-expectedGeneration"
  ok (record { request_id = request_id; workload_id = workload_id; expected_generation = expected })

-- `_bounded_time`: whole seconds, or a float; a boolean is neither.
unfoldable pub bounded_time : Value → String → ℕ → Result ℕ
bounded_time (int (pos n)) code status =
    if leb n (2 ^ 53) then ok (n * second) else err (record { code = code; status = status })
bounded_time (float (some t)) code status =
    if leb t max_time then ok t else err (record { code = code; status = status })
bounded_time _ code status = err (record { code = code; status = status })

abbrev observation_fields : List String
observation_fields =
    "schemaVersion" ∷ "hostId" ∷ "sessionId" ∷ "sequence" ∷ "instanceId" ∷ "workloadId"
    ∷ "revisionDigest" ∷ "generation" ∷ "observedAt" ∷ "phase" ∷ "unitActiveState" ∷ "unitDrained"
    ∷ "retired" ∷ "endpointAddress" ∷ "readyServices" ∷ []

abbrev pub phases : List String
phases = "preparing" ∷ "prepared" ∷ "starting" ∷ "running" ∷ "stopping" ∷ "stopped" ∷ "unknown" ∷ []

abbrev pub unit_states : List String
unit_states = "active" ∷ "inactive" ∷ "failed" ∷ "activating" ∷ "deactivating" ∷ "unknown" ∷ []

optional_flag : Value → String → Result (Option Bool)
optional_flag null code = ok none
optional_flag (boolean b) code = ok (some b)
optional_flag _ code = err (failure code)

-- `value is True`, `value is False` for an optional flag
abbrev pub is_true : Option Bool → Bool
is_true (some true) = true
is_true _ = false

abbrev pub is_false : Option Bool → Bool
is_false (some false) = true
is_false _ = false

-- Services may be reported ready only by a running, active unit that is neither drained nor retired.
abbrev pub serving : String → String → Option Bool → Bool → Bool
serving phase unit drained retired =
    str_eq phase "running" && str_eq unit "active" && is_false drained && not retired

-- `_validate_observation`
unfoldable pub validate_observation : Value → ℕ → Result Observation
unfolding bounded_time optional_flag
validate_observation v now = do
  fs ← fields v observation_fields "invalid-request-fields"
  schema ← integer (← item "schemaVersion" fs) 2 2 "invalid-schemaVersion"
  host_id ← identifier (← item "hostId" fs) "invalid-hostId"
  session_id ← hex32 (← item "sessionId" fs) "invalid-sessionId"
  sequence ← integer (← item "sequence" fs) 1 max_i64 "invalid-sequence"
  instance_id ← hex32 (← item "instanceId" fs) "invalid-instanceId"
  workload_id ← identifier (← item "workloadId" fs) "invalid-workloadId"
  revision_digest ← digest (← item "revisionDigest" fs) "invalid-revisionDigest"
  generation ← integer (← item "generation" fs) 1 max_i64 "invalid-generation"
  observed_at ← bounded_time (← item "observedAt" fs) "invalid-observedAt" 400
  require (leb observed_at now) (failure "observation-future")
  require (leb (now - observed_at) observation_max_age) (failure "observation-stale")
  phase ← enum (← item "phase" fs) phases "invalid-phase"
  unit ← enum (← item "unitActiveState" fs) unit_states "invalid-unitActiveState"
  drained ← optional_flag (← item "unitDrained" fs) "invalid-unitDrained"
  retired ← flag (← item "retired" fs) "invalid-retired"
  endpoint ← item "endpointAddress" fs
  ready ← id_list (← item "readyServices" fs) "invalid-readyServices"
  require (leb (length ready) 0 || serving phase unit drained retired)
      (failure "invalid-observation")
  ok (record {
    host_id = host_id;
    session_id = session_id;
    sequence = sequence;
    instance_id = instance_id;
    workload_id = workload_id;
    revision_digest = revision_digest;
    generation = generation;
    observed_at = observed_at;
    phase = phase;
    unit_active_state = unit;
    unit_drained = drained;
    retired = retired;
    endpoint_address = endpoint;
    ready_services = ready;
  })
