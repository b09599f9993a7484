-- ===== src/Registry/World.antt =====
-- A registry with one workload and two hosts, before and after it has served.
use nexus_infra.Base.{ℕ, String, true, false, [], ◌∷◌, none, some, ◌*◌}
use nexus_infra.Json.Value.{Value, int, pos, str, null, obj, end, field, canonical}
use nexus_infra.Catalog.Definition.{Definition}
use nexus_infra.Registry.State.{
  Principal, Config, Instance, Observation, ObservationRow, placed, Operation, completed,
  RequestRow, queued, Registry,
}
use nexus_infra.Registry.Requests.{second, AssignRequest}
use nexus_infra.Registry.Payload.{OperationRequest}
use nexus_infra.Registry.Clock.{Clock}

abbrev pub hex : String
hex = "0123456789abcdef0123456789abcdef"

abbrev pub hex_b : String
hex_b = "0123456789abcdef0123456789abcde0"

abbrev pub hex_c : String
hex_c = "0123456789abcdef0123456789abcde1"

abbrev pub hex_d : String
hex_d = "0123456789abcdef0123456789abcde2"

abbrev pub digest_text : String
digest_text = "sha256:0123456789abcdef0123456789abcdef0123456789abcdef0123456789abcdef"

abbrev pub web : Definition
web = record {
  workload_id = "web";
  display_name = "Web";
  category = "project";
  revision_digest = digest_text;
  runtime_version = some "nspawn-v1";
  architecture = "x86_64-linux";
  runtime_artifact_id = some "rootfs";
  artifacts = record { id = "rootfs"; kind = "nixos-closure"; digest = digest_text } ∷ [];
  state_schema_version = 1;
  state_mounts = [];
  secret_set_ref = none;
  dependencies = [];
  services = record { id = "http"; protocol = "http"; port = 80; exposure = "lan" } ∷ [];
  requirements = record { memory_mib = 64; cpu_millis = 100; state_bytes = 0 };
  capabilities = [];
  allowed_operations = "start" ∷ [];
  policy_profiles = [];
}

abbrev pub config : Config
config = record {
  definitions = web ∷ [];
  hosts =
      record { host_id = "alpha"; architecture = "x86_64-linux"; addresses = "10.0.0.1" ∷ [] }
      ∷ record { host_id = "beta"; architecture = "x86_64-linux"; addresses = "10.0.0.2" ∷ [] }
      ∷ [];
  routes =
      record { id = "web"; workload_id = "web"; service_id = "http"; hostname = "web.lan" } ∷ [];
}

abbrev pub start : Registry
start = record {
  config = config;
  epoch = "first";
  last_wall = none;
  last_mono = none;
  db = record {
    version = 0;
    operation_sequence = 0;
    placements = [];
    instances = [];
    sessions = [];
    observations = [];
    requests = [];
    operations = [];
    fences = [];
  };
}

abbrev pub controller : Principal
controller = record { identity = "controller"; role = "controller"; host_id = none }

abbrev pub alpha : Principal
alpha = record { identity = "alpha"; role = "host"; host_id = some "alpha" }

abbrev pub clock_at : ℕ → Clock
clock_at n = record { wall = int (pos n); mono = int (pos n) }

abbrev pub assign_web : Value
assign_web = obj (
    field "schemaVersion" (int (pos 2)) (
      field "requestId" (str hex) (
        field "workloadId" (str "web") (
          field "revisionDigest" (str digest_text) (
            field "hostId" (str "alpha")
              (field "instanceId" (str hex) (field "expectedGeneration" (int (pos 0)) end)))))))

abbrev pub assign_beta : Value
assign_beta = obj (
    field "schemaVersion" (int (pos 2)) (
      field "requestId" (str hex_b) (
        field "workloadId" (str "web") (
          field "revisionDigest" (str digest_text) (
            field "hostId" (str "beta")
              (field "instanceId" (str hex_b) (field "expectedGeneration" (int (pos 1)) end)))))))

abbrev pub assign_request : AssignRequest
assign_request = record {
  request_id = hex;
  workload_id = "web";
  revision_digest = digest_text;
  host_id = "alpha";
  instance_id = hex;
  expected_generation = 0;
}

abbrev pub post_request : OperationRequest
post_request = record {
  request_id = hex_d;
  operation_id = hex_d;
  host_id = "alpha";
  workload_id = "web";
  generation = 1;
  step = "prepare";
  payload = obj end;
}

abbrev pub open_alpha : Value
open_alpha = obj (field "schemaVersion" (int (pos 2)) (field "hostId" (str "alpha") end))

abbrev pub web_instance : Instance
web_instance = record {
  instance_id = hex;
  workload_id = "web";
  revision_digest = digest_text;
  host_id = "alpha";
  generation = 1;
}

abbrev pub serving_now : Observation
serving_now = record {
  host_id = "alpha";
  session_id = hex;
  sequence = 1;
  instance_id = hex;
  workload_id = "web";
  revision_digest = digest_text;
  generation = 1;
  observed_at = 100 * second;
  phase = "running";
  unit_active_state = "active";
  unit_drained = some false;
  retired = false;
  endpoint_address = str "10.0.0.1";
  ready_services = "http" ∷ [];
}

abbrev pub gone_now : Observation
gone_now = record serving_now {
  phase = "stopped";
  unit_active_state = "inactive";
  unit_drained = some true;
  retired = true;
  ready_services = [];
}

abbrev pub row_of : Observation → ObservationRow
row_of o = record {
  instance_id = hex;
  payload = o;
  session_id = hex;
  epoch = "first";
  received_at = 100 * second;
  received_mono = 100 * second;
}

abbrev pub done : Operation
done = record {
  operation_id = hex_c;
  seq = 1;
  host_id = "alpha";
  workload_id = "web";
  generation = 1;
  step = "prepare";
  payload = obj end;
  request_id = hex_c;
  principal = controller;
  status = completed;
  claim = some (hex, str "claim");
  final = some (hex_b, str "complete");
}

abbrev pub assigned_row : RequestRow
assigned_row = record {
  request_id = hex;
  principal = controller;
  action = "assign";
  payload = canonical assign_web;
  receipt = placed "assign" hex "web" 1;
}

abbrev pub posted_row : RequestRow
posted_row = record {
  request_id = hex_c;
  principal = controller;
  action = "operation";
  payload = null;
  receipt = queued hex_c hex_c 1;
}

-- The workload is placed, published and served, and one operation on it is complete.
abbrev pub busy : Registry
busy = record start {
  db = record {
    version = 9;
    operation_sequence = 1;
    placements =
        record { workload_id = "web"; generation = 1; instance_id = hex; published = true } ∷ [];
    instances = web_instance ∷ [];
    sessions = record { host_id = "alpha"; session_id = hex; epoch = "first"; sequence = 1 } ∷ [];
    observations = row_of serving_now ∷ [];
    requests = assigned_row ∷ posted_row ∷ [];
    operations = done ∷ [];
    fences = [];
  };
}
