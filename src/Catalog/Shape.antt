-- ===== src/Catalog/Shape.antt =====
-- `_shape` of console/catalog.py. The checks return
-- what they have read at its type, and raise with the message of the source.
use nexus_infra.Base.{
  ℕ, ◌-◌, ◌^◌, String, Bool, true, false, not, ◌&&◌, ◌||◌, List, [], ◌∷◌, map, Option, none, some,
  leb, ltb, str_eq, if◌then◌else◌,
}
use nexus_infra.Base.Result.{Result, ok, err, failure, ◌>>=◌, ◌>>◌, require}
use nexus_infra.Base.Strings.{codes, length, mem, distinct}
use nexus_infra.Base.Table.{all}
use nexus_infra.Json.Value.{Value, null, str, arr, Items, nil, cons}
use nexus_infra.Json.Checks.{
  fields, item, text, identifier, digest, integer, id_list, items_length, max_i64,
}
use nexus_infra.Catalog.Definition.{Artifact, Mount, Service, Resources, Definition}
use nexus_infra.Catalog.MountPoint.{mount_point, overlapping}

abbrev max_i32 : ℕ
max_i32 = 2 ^ 31 - 1

abbrev pub categories : List String
categories = "project" ∷ "third-party" ∷ "infrastructure" ∷ "archive" ∷ []

abbrev pub architectures : List String
architectures = "x86_64-linux" ∷ "aarch64-linux" ∷ []

abbrev artifact_kinds : List String
artifact_kinds = "nixos-closure" ∷ "oci-image" ∷ "archive" ∷ []

abbrev protocols : List String
protocols = "http" ∷ "https" ∷ "tcp" ∷ "udp" ∷ []

abbrev exposures : List String
exposures = "private" ∷ "public" ∷ "lan" ∷ []

abbrev pub operations : List String
operations = "start" ∷ "stop" ∷ "restart" ∷ "backup" ∷ "restore" ∷ "move" ∷ []

abbrev definition_fields : List String
definition_fields =
    "schemaVersion" ∷ "workloadId" ∷ "displayName" ∷ "category" ∷ "revisionDigest"
    ∷ "runtimeVersion" ∷ "architecture" ∷ "runtimeArtifactId" ∷ "artifacts" ∷ "stateSchemaVersion"
    ∷ "stateMounts" ∷ "secretSetRef" ∷ "dependencies" ∷ "services" ∷ "requirements"
    ∷ "allowedOperations" ∷ "policyProfiles" ∷ []

-- `_enum`
unfoldable pub enum : Value → List String → String → Result String
enum (str s) choices code = if mem s choices then ok s else err (failure code)
enum _ choices code = err (failure code)

abbrev printable : ℕ → Bool
printable c = not (ltb c 0x20 || leb 0x7f c && leb c 0x9f || leb 0xd800 c && leb c 0xdfff)

-- `_string`
unfoldable pub bounded_string : Value → String → ℕ → Result String
bounded_string (str s) code maximum = do
  let cs = codes s
  require (ltb 0 (length cs) && leb (length cs) maximum) (failure code)
  require (all printable cs) (failure code)
  ok s
bounded_string _ code maximum = err (failure code)

abbrev is_null : Value → Bool
is_null null = true
is_null _ = false

-- `None`, or an identifier
optional_identifier : Value → String → Result (Option String)
optional_identifier null code = ok none
optional_identifier v code = do s ← identifier v code; ok (some s)

runtime_version : Bool → Value → Result (Option String)
runtime_version true v = do require (is_null v) (failure "Invalid runtimeVersion"); ok none
runtime_version false v = do
  s ← text v "Invalid runtimeVersion"
  require (str_eq s "nspawn-v1") (failure "Invalid runtimeVersion")
  ok (some s)

runtime_artifact_id : Bool → Value → Result (Option String)
runtime_artifact_id true v = do require (is_null v) (failure "Invalid runtimeArtifactId"); ok none
runtime_artifact_id false v = do s ← identifier v "Invalid runtimeArtifactId"; ok (some s)

abbrev names : String → Option String → Bool
names s none = false
names s (some t) = str_eq s t

-- The loop over `artifacts`, with the ids seen and the kind of the runtime artifact.
artifact_loop :
    Option String → List String → Option String → Items → Result (List Artifact × Option String)
unfolding enum
artifact_loop runtime seen kind nil = ok ([], kind)
artifact_loop runtime seen kind (cons v vs) = do
  fs ← fields v ("id" ∷ "kind" ∷ "digest" ∷ []) "Invalid artifact fields"
  id ← identifier (← item "id" fs) "Invalid artifact id"
  require (not (mem id seen)) (failure "Duplicate artifact id")
  k ← enum (← item "kind" fs) artifact_kinds "Invalid artifact kind"
  d ← digest (← item "digest" fs) "Invalid artifact digest"
  rest ← artifact_loop runtime (id ∷ seen) (if names id runtime then some k else kind) vs
  ok (record { id = id; kind = k; digest = d } ∷ rest.0, rest.1)

artifact_list : Option String → Value → Result (List Artifact × Option String)
unfolding artifact_loop
artifact_list runtime (arr vs) = do
  let n = items_length vs
  require (leb 1 n && leb n 64) (failure "Invalid artifacts")
  artifact_loop runtime [] none vs
artifact_list runtime _ = err (failure "Invalid artifacts")

-- The loop over `stateMounts`.
mount_loop : List String → Items → Result (List Mount)
unfolding enum
mount_loop seen nil = ok []
mount_loop seen (cons v vs) = do
  fs ←
      fields v ("id" ∷ "mountPoint" ∷ "ownerUid" ∷ "ownerGid" ∷ "consistencyAdapter" ∷ [])
        "Invalid stateMount fields"
  id ← identifier (← item "id" fs) "Invalid stateMount id"
  require (not (mem id seen)) (failure "Duplicate stateMount id")
  point ← mount_point (← item "mountPoint" fs)
  uid ← integer (← item "ownerUid" fs) 0 65535 "Invalid ownerUid"
  gid ← integer (← item "ownerGid" fs) 0 65535 "Invalid ownerGid"
  adapter ← enum (← item "consistencyAdapter" fs) ("quiesce-v1" ∷ []) "Invalid consistencyAdapter"
  rest ← mount_loop (id ∷ seen) vs
  ok (
      record {
        id = id;
        segments = point;
        owner_uid = uid;
        owner_gid = gid;
        consistency_adapter = adapter;
      }
      ∷ rest)

mount_list : Value → Result (List Mount)
unfolding mount_loop
mount_list (arr vs) = do
  require (leb (items_length vs) 64) (failure "Invalid stateMounts")
  mounts ← mount_loop [] vs
  require (not (overlapping (map (λ m. m.segments) mounts))) (failure "Overlapping stateMounts")
  ok mounts
mount_list _ = err (failure "Invalid stateMounts")

-- The loop over `services`.
service_loop : List String → Items → Result (List Service)
unfolding enum
service_loop seen nil = ok []
service_loop seen (cons v vs) = do
  fs ← fields v ("id" ∷ "protocol" ∷ "port" ∷ "exposure" ∷ []) "Invalid service fields"
  id ← identifier (← item "id" fs) "Invalid service id"
  require (not (mem id seen)) (failure "Duplicate service id")
  protocol ← enum (← item "protocol" fs) protocols "Invalid protocol"
  port ← integer (← item "port" fs) 1 65535 "Invalid port"
  exposure ← enum (← item "exposure" fs) exposures "Invalid exposure"
  rest ← service_loop (id ∷ seen) vs
  ok (record { id = id; protocol = protocol; port = port; exposure = exposure } ∷ rest)

service_list : Value → Result (List Service)
unfolding service_loop
service_list (arr vs) = do
  require (leb (items_length vs) 64) (failure "Invalid services")
  service_loop [] vs
service_list _ = err (failure "Invalid services")

abbrev is_infrastructure : String → Bool
is_infrastructure category = str_eq category "infrastructure"

resource_fields : List String
resource_fields = "memoryMiB" ∷ "cpuMillis" ∷ "stateBytes" ∷ "capabilities" ∷ []

requirements : Bool → Value → Result (Resources × List String)
unfolding resource_fields
requirements archived v = do
  fs ← fields v resource_fields "Invalid requirements fields"
  let minimum = if archived then 0 else 1
  memory ← integer (← item "memoryMiB" fs) minimum max_i64 "Invalid requirements memoryMiB"
  cpu ← integer (← item "cpuMillis" fs) minimum max_i64 "Invalid requirements cpuMillis"
  state ← integer (← item "stateBytes" fs) 0 max_i64 "Invalid requirements stateBytes"
  capabilities ← id_list (← item "capabilities" fs) "Invalid capabilities"
  ok (record { memory_mib = memory; cpu_millis = cpu; state_bytes = state }, capabilities)

operation_loop : Items → Result (List String)
unfolding enum
operation_loop nil = ok []
operation_loop (cons v vs) = do
  operation ← enum v operations "Invalid allowedOperations"
  rest ← operation_loop vs
  ok (operation ∷ rest)

operation_list : Value → Result (List String)
unfolding operation_loop
operation_list (arr vs) = do
  require (leb (items_length vs) 6) (failure "Invalid allowedOperations")
  found ← operation_loop vs
  require (distinct found) (failure "Invalid allowedOperations")
  ok found
operation_list _ = err (failure "Invalid allowedOperations")

-- The last two tests of `_shape`: what an infrastructure or archived workload may declare.
abbrev operations_fit : String → List String → Bool
operations_fit category found =
    (not (is_infrastructure category) || all (λ operation. str_eq operation "backup") found)
    && (not (str_eq category "archive") || leb (length found) 0)

-- `_shape`
unfoldable pub shape : Value → Result Definition
unfolding bounded_string enum optional_identifier runtime_version runtime_artifact_id artifact_list
    mount_list service_list requirements operation_list
shape v = do
  fs ← fields v definition_fields "Invalid definition fields"
  schema ← integer (← item "schemaVersion" fs) 2 2 "Invalid schemaVersion"
  workload_id ← identifier (← item "workloadId" fs) "Invalid workloadId"
  display_name ← bounded_string (← item "displayName" fs) "Invalid displayName" 160
  category ← enum (← item "category" fs) categories "Invalid category"
  let archived = str_eq category "archive"
  revision ← digest (← item "revisionDigest" fs) "Invalid revisionDigest"
  version ← runtime_version archived (← item "runtimeVersion" fs)
  runtime ← runtime_artifact_id archived (← item "runtimeArtifactId" fs)
  architecture ← enum (← item "architecture" fs) architectures "Invalid architecture"
  artifacts ← artifact_list runtime (← item "artifacts" fs)
  require (archived || names "nixos-closure" artifacts.1) (failure "Invalid runtimeArtifactId")
  state_version ← integer (← item "stateSchemaVersion" fs) 1 max_i32 "Invalid stateSchemaVersion"
  mounts ← mount_list (← item "stateMounts" fs)
  secret_set ← optional_identifier (← item "secretSetRef" fs) "Invalid secretSetRef"
  dependencies ← id_list (← item "dependencies" fs) "Invalid dependencies"
  require (not (mem workload_id dependencies)) (failure "Self dependency")
  services ← service_list (← item "services" fs)
  needs ← requirements archived (← item "requirements" fs)
  allowed ← operation_list (← item "allowedOperations" fs)
  profiles ← id_list (← item "policyProfiles" fs) "Invalid policyProfiles"
  require (operations_fit category allowed) (failure "Invalid allowedOperations")
  ok (record {
    workload_id = workload_id;
    display_name = display_name;
    category = category;
    revision_digest = revision;
    runtime_version = version;
    architecture = architecture;
    runtime_artifact_id = runtime;
    artifacts = artifacts.0;
    state_schema_version = state_version;
    state_mounts = mounts;
    secret_set_ref = secret_set;
    dependencies = dependencies;
    services = services;
    requirements = needs.0;
    capabilities = needs.1;
    allowed_operations = allowed;
    policy_profiles = profiles;
  })
