-- ===== src/Catalog/Admission.antt =====
-- `admit` of console/catalog.py. Times are ticks, a million to the second.
use nexus_infra.Base.{
  ℕ, ◌-◌, ◌*◌, String, Bool, true, false, not, ◌&&◌, List, [], ◌∷◌, ◌++◌, Option, none, some, leb,
  ltb, str_eq, if◌then◌else◌,
}
use nexus_infra.Base.Result.{Result, ok, err, failure, ◌>>=◌, ◌>>◌, require}
use nexus_infra.Base.Strings.{mem}
use nexus_infra.Json.Value.{Value, pos, int, float}
use nexus_infra.Json.Checks.{fields, item, identifier, integer, id_list, max_i64}
use nexus_infra.Catalog.Definition.{Definition, Resources}
use nexus_infra.Catalog.Shape.{enum, architectures}
use nexus_infra.Catalog.Seal.{validate_definition}

abbrev ticks : ℕ
ticks = 1000000

-- `_timestamp`
unfoldable pub timestamp : Value → String → Result ℕ
timestamp (int (pos n)) code = if leb n max_i64 then ok (n * ticks) else err (failure code)
timestamp (float (some t)) code = if leb t (max_i64 * ticks) then ok t else err (failure code)
timestamp _ code = err (failure code)

-- `_resource_map`
unfoldable pub resource_map : Value → Result Resources
resource_map v = do
  fs ← fields v ("memoryMiB" ∷ "cpuMillis" ∷ "stateBytes" ∷ []) "Invalid resource fields"
  memory ← integer (← item "memoryMiB" fs) 0 max_i64 "Invalid memoryMiB"
  cpu ← integer (← item "cpuMillis" fs) 0 max_i64 "Invalid cpuMillis"
  state ← integer (← item "stateBytes" fs) 0 max_i64 "Invalid stateBytes"
  ok (record { memory_mib = memory; cpu_millis = cpu; state_bytes = state })

pub data Reason : Type 0 where
  workload_archived architecture_mismatch observation_missing : Reason
  host_mismatch from_future stale : Reason
  insufficient_memory insufficient_cpu insufficient_state : Reason
  capability_missing : String → Reason

pub record HostOffer : Type 0 where
  pub host_id : String
  pub architecture : String
  pub capabilities : List String

pub record Report : Type 0 where
  pub host_id : String
  pub observed_at : ℕ
  pub available : Resources

unfoldable pub read_host : Value → Result HostOffer
read_host v = do
  fs ←
      fields v ("schemaVersion" ∷ "hostId" ∷ "architecture" ∷ "capabilities" ∷ [])
        "Invalid host fields"
  schema ← integer (← item "schemaVersion" fs) 2 2 "Invalid schemaVersion"
  host_id ← identifier (← item "hostId" fs) "Invalid hostId"
  architecture ← enum (← item "architecture" fs) architectures "Invalid architecture"
  capabilities ← id_list (← item "capabilities" fs) "Invalid capabilities"
  ok (record { host_id = host_id; architecture = architecture; capabilities = capabilities })

unfoldable pub read_report : Value → Result Report
unfolding timestamp resource_map
read_report v = do
  fs ←
      fields v ("schemaVersion" ∷ "hostId" ∷ "observedAt" ∷ "available" ∷ [])
        "Invalid observation fields"
  schema ← integer (← item "schemaVersion" fs) 2 2 "Invalid schemaVersion"
  host_id ← identifier (← item "hostId" fs) "Invalid hostId"
  observed_at ← timestamp (← item "observedAt" fs) "Invalid observedAt"
  available ← resource_map (← item "available" fs)
  ok (record { host_id = host_id; observed_at = observed_at; available = available })

unfoldable pub missing : List String → List String → List Reason
missing offered [] = []
missing offered (c ∷ cs) =
    let rest = missing offered cs in if mem c offered then rest else capability_missing c ∷ rest

abbrev short : Bool → Reason → List Reason
short true r = r ∷ []
short false r = []

-- `max(available - reserved, 0) < required` for each resource
unfoldable pub shortages : Resources → Resources → Resources → List Reason
shortages available reserved required =
    short (ltb (available.memory_mib - reserved.memory_mib) required.memory_mib) insufficient_memory
    ++ short (ltb (available.cpu_millis - reserved.cpu_millis) required.cpu_millis) insufficient_cpu
    ++ short (ltb (available.state_bytes - reserved.state_bytes) required.state_bytes)
        insufficient_state

unfoldable pub report_reasons :
    Definition → HostOffer → Option Report → Resources → ℕ → ℕ → List Reason
report_reasons d h none reserved now max_age = observation_missing ∷ []
report_reasons d h (some o) reserved now max_age =
    if not (str_eq o.host_id h.host_id)
    then host_mismatch ∷ []
    else if ltb now o.observed_at
    then from_future ∷ []
    else if ltb max_age (now - o.observed_at)
    then stale ∷ []
    else shortages o.available reserved d.requirements

unfoldable pub reasons_against :
    Definition → HostOffer → Option Report → Resources → ℕ → ℕ → List Reason
reasons_against d h o reserved now max_age =
    short (str_eq d.category "archive") workload_archived
    ++ short (not (str_eq d.architecture h.architecture)) architecture_mismatch
    ++ missing h.capabilities d.capabilities
    ++ report_reasons d h o reserved now max_age

-- `max_age_seconds`
max_age_of : Value → Result ℕ
max_age_of (int (pos n)) =
    require (ltb 0 n && leb n 3600) (failure "Invalid max_age_seconds") >> ok (n * ticks)
max_age_of (float (some t)) =
    require (ltb 0 t && leb t (3600 * ticks)) (failure "Invalid max_age_seconds") >> ok t
max_age_of _ = err (failure "Invalid max_age_seconds")

optional : {A : Type 0} → (Value → Result A) → Option Value → Result (Option A)
optional read none = ok none
optional read (some v) = read v >>= λ a. ok (some a)

reserved_of : Option Resources → Resources
reserved_of none = record { memory_mib = 0; cpu_millis = 0; state_bytes = 0 }
reserved_of (some r) = r

-- The workload is eligible if there is no reason against it.
pub record Admission : Type 0 where
  pub workload_id : String
  pub revision_digest : String
  pub host_id : String
  pub checked_at : ℕ
  pub reasons : List Reason

-- `admit`
unfoldable pub admit :
    (Value → String)
    → Value
    → Value
    → Option Value
    → Value
    → Option Value
    → Value
    → Result Admission
unfolding max_age_of optional reserved_of
admit hash definition host observation now reservations max_age = do
  d ← validate_definition hash definition
  h ← read_host host
  t ← timestamp now "Invalid now"
  age ← max_age_of max_age
  reserved ← optional resource_map reservations
  o ← optional read_report observation
  ok (record {
    workload_id = d.workload_id;
    revision_digest = d.revision_digest;
    host_id = h.host_id;
    checked_at = t;
    reasons = reasons_against d h o (reserved_of reserved) t age;
  })
