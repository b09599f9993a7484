-- ===== src/Worker/World.antt =====
-- A host with one slot and one workload, and what happens there.
use nexus_infra.Base.{String, false, List, [], ◌∷◌, none, some}
use nexus_infra.Json.Value.{Value, int, pos, str, obj, end, field, canonical}
use nexus_infra.Registry.World.{hex, hex_b, digest_text, web}
use nexus_infra.Worker.State.{
  Config, Slot, Request, Instance, Operation, Receipt, Db, prepare, prepared, completed, stop,
  stopping, pending,
}
use nexus_infra.Worker.Host.{done, View, no_file}
use nexus_infra.Worker.Prepare.{machine_name}
use nexus_infra.Worker.Execute.{Answers}
use nexus_infra.Worker.History.{Event, executes, guards}

abbrev pub slot : Slot
slot = record {
  id = "one";
  uid_base = 65536;
  host_address = "10.0.0.1";
  local_address = "10.0.0.2";
}

abbrev pub config : Config
config = record {
  host_id = "alpha";
  architecture = "x86_64-linux";
  storage = record { root = "/srv"; mount_point = "/"; uuid = "u" };
  capacity = record { memory_mib = 1024; cpu_millis = 1000; state_bytes = 1000 };
  capabilities = [];
  slots = slot ∷ [];
  secrets_ready = false;
  bundles = record { architecture = "x86_64-linux"; definition = web } ∷ [];
  boot_id = "boot";
}

-- A host whose unit is up, and one whose unit is down.
abbrev pub view_of : String → View
view_of state = record {
  show = λ unit. some (
      record { name = "LoadState"; value = "loaded" }
      ∷ record { name = "ActiveState"; value = state }
      ∷ record { name = "SubState"; value = "dead" }
      ∷ record { name = "MainPID"; value = "0" }
      ∷ record { name = "ControlGroup"; value = "" }
      ∷ []);
  events = λ group. no_file;
  units = some [];
  monotonic = 7;
  memory_kib = some 4194304;
  cpus = 4;
  free_bytes = 100000;
  attempt = λ task. done tt;
  exists_dir = λ id. done false;
  restore_pending = λ id. done false;
}

abbrev pub answers : String → Answers
answers state k n = view_of state

abbrev pub call : String → String → String → Value
call action operation id = obj (
    field "schemaVersion" (int (pos 1)) (
      field "operationId" (str operation) (
        field "action" (str action) (
          field "workloadId" (str "web") (
            field "revisionDigest" (str digest_text)
              (field "instanceId" (str id) (field "generation" (int (pos 1)) end)))))))

abbrev pub prepares : Event
prepares = executes config (answers "inactive") (call "prepare" hex hex)

abbrev pub launches : Event
launches = executes config (answers "active") (call "start" hex_b hex)

-- The workload is prepared and started, its guard asks, and it is started again.
abbrev pub history : List Event
history =
    prepares ∷ launches ∷ guards config (answers "inactive" 0) (machine_name hex) ∷ launches ∷ []

abbrev pub prepare_request : Request
prepare_request = record {
  operation_id = hex;
  action = prepare;
  workload_id = "web";
  revision_digest = digest_text;
  instance_id = hex;
  generation = 1;
  capture_id = "";
  slot_id = none;
  dependencies_resolved = false;
}

abbrev pub prepare_receipt : Receipt
prepare_receipt = record {
  operation_id = hex;
  action = prepare;
  workload_id = "web";
  instance_id = hex;
  generation = 1;
  host_id = "alpha";
  status = completed;
  applied_phase = some prepared;
  capture_id = "";
  error = none;
}

-- The row of the workload in a phase.
abbrev pub web_instance : Instance
web_instance = record {
  instance_id = hex;
  workload_id = "web";
  revision_digest = digest_text;
  generation = 1;
  slot_id = "one";
  machine_name = machine_name hex;
  phase = prepared;
  requirements = web.requirements;
  binding = some (record {
    host_id = "alpha";
    architecture = "x86_64-linux";
    storage = config.storage;
    slot = slot;
  });
  boot_id = "";
  permit_deadline = 0;
  permit = false;
  retired = false;
  adopted = false;
}

abbrev pub prepare_row : Operation
prepare_row = record {
  operation_id = hex;
  text = canonical (call "prepare" hex hex);
  request = prepare_request;
  status = completed;
  result = some prepare_receipt;
}

abbrev pub prepared_db : Db
prepared_db = record {
  instances = web_instance ∷ [];
  generations = record { workload_id = "web"; generation = 1 } ∷ [];
  operations = prepare_row ∷ [];
  captures = [];
}

-- A stop that was interrupted while the unit went down.
abbrev pub stop_request : Request
stop_request = record prepare_request { operation_id = hex_b; action = stop }

abbrev pub stopping_instance : Instance
stopping_instance = record web_instance { phase = stopping }

abbrev pub stop_row : Operation
stop_row = record {
  operation_id = hex_b;
  text = canonical (call "stop" hex_b hex);
  request = stop_request;
  status = pending;
  result = none;
}

abbrev pub stopping_db : Db
stopping_db = record prepared_db {
  instances = stopping_instance ∷ [];
  operations = prepare_row ∷ stop_row ∷ [];
}
