-- ===== src/Worker/Request.antt =====
-- `validate_request` of console/worker.py.
use nexus_infra.Base.{
  String, Bool, true, false, not, ◌&&◌, ◌||◌, List, [], ◌∷◌, Option, none, some, str_eq,
  if◌then◌else◌, is_some,
}
use nexus_infra.Base.Result.{Result, ok, err}
use nexus_infra.Base.Strings.{mem, subset}
use nexus_infra.Json.Value.{Value, boolean, str, obj, Fields, get, keys}
use nexus_infra.Json.Checks.{item, integer, hex32, identifier, digest, max_i64}
use nexus_infra.Worker.State.{Request, Action, prepare, adopt, start, stop, retire, freeze, thaw}
use nexus_infra.Worker.Host.{Outcome, done, fault, refused, demand, ◌>>=◌, ◌>>◌}

abbrev lift : {A : Type 0} → Result A → Outcome A
lift (err e) = fault (refused e.code)
lift (ok a) = done a

-- What a valid request asks for.
pub data Call : Type 0 where
  observes : String → Call
  performs : Request → Call

abbrev optional_names : List String
optional_names = "dependenciesResolved" ∷ "slotId" ∷ []

-- `set(request) - _REQUEST_OPTIONAL`
unfoldable pub core_names : List String → List String
core_names [] = []
core_names (k ∷ ks) = let rest = core_names ks in if mem k optional_names then rest else k ∷ rest

abbrev pub observe_fields : List String
observe_fields = "schemaVersion" ∷ "action" ∷ "instanceId" ∷ []

abbrev pub request_fields : List String
request_fields =
    "schemaVersion" ∷ "operationId" ∷ "action" ∷ "workloadId" ∷ "revisionDigest" ∷ "instanceId"
    ∷ "generation" ∷ []

abbrev pub capture_fields : List String
capture_fields = "captureId" ∷ request_fields

abbrev same_set : List String → List String → Bool
same_set xs ys = subset xs ys && subset ys xs

abbrev known_names : List String → Bool
known_names ks =
    same_set ks request_fields || same_set ks observe_fields || same_set ks capture_fields

-- The marker, where it is absent or a boolean.
marker : Option Value → Outcome (Option Bool)
marker none = done none
marker (some (boolean b)) = done (some b)
marker (some _) = fault (refused "invalid-request-fields")

action_of : Value → Option Action
action_of (str s) =
    if str_eq s "prepare"
    then some prepare
    else if str_eq s "adopt"
    then some adopt
    else if str_eq s "start"
    then some start
    else if str_eq s "stop"
    then some stop
    else if str_eq s "retire"
    then some retire
    else if str_eq s "freeze"
    then some freeze
    else if str_eq s "thaw"
    then some thaw
    else none
action_of _ = none

abbrev pub is_capture : Action → Bool
is_capture freeze = true
is_capture thaw = true
is_capture _ = false

abbrev pub is_prepare : Action → Bool
is_prepare prepare = true
is_prepare adopt = true
is_prepare _ = false

abbrev names_for : Option Action → List String
names_for none = request_fields
names_for (some a) = if is_capture a then capture_fields else request_fields

is_observe : Value → Bool
is_observe (str s) = str_eq s "observe"
is_observe _ = false

observe_call : Fields → Outcome Call
unfolding is_observe
observe_call fs = do
  demand (not (is_some (get "dependenciesResolved" fs) || is_some (get "slotId" fs)))
      (refused "invalid-request-fields")
  action ← lift (item "action" fs)
  demand (is_observe action) (refused "invalid-action")
  instance_id ← lift (item "instanceId" fs)
  id ← lift (hex32 instance_id "invalid-instanceId")
  done (observes id)

capture_id_of : Option Value → Outcome String
capture_id_of none = done ""
capture_id_of (some v) = lift (hex32 v "invalid-captureId")

slot_id_of : Action → Option Value → Outcome (Option String)
slot_id_of a none = done none
slot_id_of a (some v) = do
  demand (is_prepare a) (refused "invalid-request-fields")
  id ← lift (identifier v "invalid-slotId")
  done (some id)

abbrev is_set : Option Bool → Bool
is_set none = false
is_set (some b) = b

perform_call : Fields → Option Bool → Outcome Call
unfolding action_of capture_id_of slot_id_of
perform_call fs resolved = do
  wanted ← lift (item "action" fs)
  demand (same_set (core_names (keys fs)) (names_for (action_of wanted)))
      (refused "invalid-request-fields")
  action ← elim (action_of wanted) [ none ↦ fault (refused "invalid-action") | some a ↦ done a ]
  v1 ← lift (item "operationId" fs)
  operation_id ← lift (hex32 v1 "invalid-operationId")
  v2 ← lift (item "workloadId" fs)
  workload_id ← lift (identifier v2 "invalid-workloadId")
  v3 ← lift (item "revisionDigest" fs)
  revision_digest ← lift (digest v3 "invalid-revisionDigest")
  v4 ← lift (item "instanceId" fs)
  instance_id ← lift (hex32 v4 "invalid-instanceId")
  v5 ← lift (item "generation" fs)
  generation ← lift (integer v5 1 max_i64 "invalid-generation")
  capture_id ← capture_id_of (get "captureId" fs)
  slot_id ← slot_id_of action (get "slotId" fs)
  done (
      performs (record {
        operation_id = operation_id;
        action = action;
        workload_id = workload_id;
        revision_digest = revision_digest;
        instance_id = instance_id;
        generation = generation;
        capture_id = capture_id;
        slot_id = slot_id;
        dependencies_resolved = is_set resolved;
      }))

call_of : Bool → Fields → Option Bool → Outcome Call
unfolding observe_call perform_call
call_of true fs resolved = observe_call fs
call_of false fs resolved = perform_call fs resolved

-- `validate_request`
unfoldable pub validate_request : Value → Outcome Call
unfolding marker call_of
validate_request (obj fs) = do
  resolved ← marker (get "dependenciesResolved" fs)
  demand (known_names (core_names (keys fs))) (refused "invalid-request-fields")
  v ← lift (item "schemaVersion" fs)
  schema ← lift (integer v 1 1 "invalid-schemaVersion")
  call_of (same_set (core_names (keys fs)) observe_fields) fs resolved
validate_request _ = fault (refused "invalid-request-fields")
