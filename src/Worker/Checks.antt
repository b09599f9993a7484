-- ===== src/Worker/Checks.antt =====
-- The checks that the actions of console/worker.py share: `_resolve`, `_check_bundle_host`,
-- `_check_action_allowed`, `_admission`, `_binding_status`, `_check_identity` and their like.
use nexus_infra.Base.{
  ℕ, ◌+◌, ◌-◌, ◌*◌, ◌/◌, String, Bool, true, false, not, ◌&&◌, ◌||◌, List, [], ◌∷◌, Option, none,
  some, str_eq, ◌==◌, if◌then◌else◌, is_some,
}
use Prim.Native.Nat.{min}
use nexus_infra.Base.Strings.{mem}
use nexus_infra.Base.Table.{find, any, row}
use nexus_infra.Catalog.Definition.{Definition, Resources}
use nexus_infra.Catalog.Admission.{
  HostOffer, Report, Reason, reasons_against, workload_archived, architecture_mismatch,
  observation_missing, host_mismatch, from_future, stale, insufficient_memory, insufficient_cpu,
  insufficient_state, capability_missing,
}
use nexus_infra.Worker.State.{
  Request, Slot, Storage, Bundle, Config, Binding, Instance, Db, is_reserve, get_instance, known_of,
  capture_of,
}
use nexus_infra.Worker.Host.{
  refused, Outcome, fault, done, ◌>>=◌, ◌>>◌, demand, or_fault, View, Views, later, unit_drained,
  show_unit, says,
}

abbrev has_key : String → String → Bundle → Bool
has_key workload_id revision_digest b =
    str_eq b.definition.workload_id workload_id
    && str_eq b.definition.revision_digest revision_digest

-- `_resolve`
unfoldable pub resolve : Config → String → String → Outcome Bundle
resolve c workload_id revision_digest =
    or_fault (find (has_key workload_id revision_digest) c.bundles) (refused "unknown-workload")

-- `_check_bundle_host`
unfoldable pub check_bundle_host : Config → Bundle → Outcome (Unit {0})
check_bundle_host c b =
    demand (str_eq b.architecture c.architecture && str_eq b.definition.architecture c.architecture)
      (refused "invalid-bundle")

-- `_check_action_allowed`; `resolved` is the marker of the request, and true where there is none.
unfoldable pub check_action_allowed : Definition → String → Bool → Outcome (Unit {0})
check_action_allowed d needed resolved = do
  demand (not (str_eq d.category "archive" || str_eq d.category "infrastructure"))
      (refused "workload-not-mutable")
  demand (mem needed d.allowed_operations) (refused "operation-not-allowed")
  demand (resolved || no_dependencies d.dependencies) (refused "dependency-not-resolved")
  where
    no_dependencies : List String → Bool
    no_dependencies [] = true
    no_dependencies _ = false

abbrev plus : Resources → Resources → Resources
plus a b = record {
  memory_mib = a.memory_mib + b.memory_mib;
  cpu_millis = a.cpu_millis + b.cpu_millis;
  state_bytes = a.state_bytes + b.state_bytes;
}

abbrev state_only : Resources → Resources
state_only a = record { memory_mib = 0; cpu_millis = 0; state_bytes = a.state_bytes }

-- Whether an instance reserves memory and processors as well.
abbrev pub reserves : Db → Instance → Bool
reserves db i = is_reserve i.phase || is_some (capture_of db i.instance_id)

abbrev share : Db → Instance → Resources
share db i = if reserves db i then i.requirements else state_only i.requirements

unfoldable pub reserved_by : Db → List Instance → Resources
reserved_by db [] = record { memory_mib = 0; cpu_millis = 0; state_bytes = 0 }
reserved_by db (i ∷ is) = plus (share db i) (reserved_by db is)

abbrev minus : Resources → Resources → Resources
minus a b = record {
  memory_mib = a.memory_mib - b.memory_mib;
  cpu_millis = a.cpu_millis - b.cpu_millis;
  state_bytes = a.state_bytes - b.state_bytes;
}

-- `_reservation_map`
unfoldable pub reservation_map : Db → Option Instance → Resources
reservation_map db none = reserved_by db db.instances
reservation_map db (some i) = minus (reserved_by db db.instances) (share db i)

unfoldable pub reason_code : Reason → String
reason_code workload_archived = "admission-workload-archived"
reason_code architecture_mismatch = "admission-architecture-mismatch"
reason_code observation_missing = "admission-observation-missing"
reason_code host_mismatch = "admission-observation-host-mismatch"
reason_code from_future = "admission-observation-from-future"
reason_code stale = "admission-observation-stale"
reason_code insufficient_memory = "admission-insufficient-memory"
reason_code insufficient_cpu = "admission-insufficient-cpu"
reason_code insufficient_state = "admission-insufficient-state"
reason_code (capability_missing c) = "admission-capability-missing"

abbrev offer : Config → HostOffer
offer c = record {
  host_id = c.host_id;
  architecture = c.architecture;
  capabilities = c.capabilities;
}

-- What the host has for workloads at this moment.
abbrev pub available : Config → View → ℕ → Report
available c v kib = record {
  host_id = c.host_id;
  observed_at = 0;
  available = record {
    memory_mib = min c.capacity.memory_mib (kib / 1024);
    cpu_millis = min c.capacity.cpu_millis (v.cpus * 1000);
    state_bytes = min c.capacity.state_bytes v.free_bytes;
  };
}

verdict : List Reason → Outcome (Unit {0})
verdict [] = done tt
verdict (r ∷ rs) = fault (refused (reason_code r))

-- `_admission`. The observation is made now, so its age is 0 and the clock's value does not matter.
unfoldable pub admission : Config → Db → View → Definition → Option Instance → Outcome (Unit {0})
unfolding verdict reason_code
admission c db v d exclude = do
  kib ← or_fault v.memory_kib (refused "capacity-unavailable")
  verdict (
      reasons_against d (offer c) (some (available c v kib)) (reservation_map db exclude) 0
        20000000)

abbrev same_storage : Storage → Storage → Bool
same_storage a b =
    str_eq a.root b.root && str_eq a.mount_point b.mount_point && str_eq a.uuid b.uuid

abbrev same_slot : Slot → Slot → Bool
same_slot a b =
    str_eq a.id b.id
    && a.uid_base == b.uid_base
    && str_eq a.host_address b.host_address
    && str_eq a.local_address b.local_address

-- The last configured slot with the id.
abbrev slot_now : String → List Slot → Option Slot
slot_now id [] = none
slot_now id (s ∷ ss) = elim (slot_now id ss) [
  | some t ↦ some t
  | none ↦ if str_eq s.id id then some s else none
]

abbrev is_slot : Slot → Option Slot → Bool
is_slot a none = false
is_slot a (some b) = same_slot a b

abbrev status_of : Config → String → Option Binding → Bool
status_of c slot_id none = false
status_of c slot_id (some b) =
    str_eq b.host_id c.host_id
    && str_eq b.architecture c.architecture
    && same_storage b.storage c.storage
    && is_slot b.slot (slot_now slot_id c.slots)

-- `_binding_status`
abbrev pub binding_status : Config → Instance → Bool
binding_status c i = status_of c i.slot_id i.binding

-- `_require_binding_current`, which returns the binding
unfoldable pub require_binding_current : Config → Instance → Outcome Binding
require_binding_current c i = do
  b ← or_fault i.binding (refused "binding-missing")
  demand (binding_status c i) (refused "binding-changed")
  done b

-- `_get_instance` and `_check_identity`
unfoldable pub identified : Db → Request → Outcome Instance
identified db q = do
  i ← or_fault (get_instance db q.instance_id) (refused "unknown-instance")
  demand
      (str_eq i.workload_id q.workload_id
        && str_eq i.revision_digest q.revision_digest
        && i.generation == q.generation)
      (refused "instance-conflict")
  done i

abbrev pub is_known : Option ℕ → ℕ → Bool
is_known none g = false
is_known (some k) g = k == g

abbrev pub known_generation : Db → String → Option ℕ
known_generation db workload_id = elim (known_of db workload_id) [
  | none ↦ none
  | some k ↦ some k.generation
]

-- `_check_generation_current`
unfoldable pub check_generation_current : Db → Instance → Outcome (Unit {0})
check_generation_current db i =
    demand (is_known (known_generation db i.workload_id) i.generation) (refused "generation-stale")

abbrev of_workload : String → Instance → Bool
of_workload workload_id i = str_eq i.workload_id workload_id

drained_rows : Views → String → List Instance → Outcome (Unit {0})
drained_rows vs w [] = done tt
drained_rows vs w (i ∷ is) =
    let rest = drained_rows (later 1 vs) w is in
    let drained = unit_drained (vs 0) (show_unit (vs 0) i.machine_name) in
    if not (str_eq i.workload_id w)
    then rest
    else if says false drained
    then fault (refused "workload-not-stopped")
    else if says true drained
    then rest
    else fault (refused "unknown-runtime")

-- `_check_workload_drained`
unfoldable pub check_workload_drained : Db → Views → String → Outcome (Unit {0})
unfolding drained_rows
check_workload_drained db vs w = drained_rows vs w db.instances

abbrev used : Db → String → Bool
used db id = any (λ i. str_eq i.slot_id id) db.instances

first_free : Db → List Slot → Option Slot
first_free db [] = none
first_free db (s ∷ ss) = if used db s.id then first_free db ss else some s

-- `_free_slot`
unfoldable pub free_slot : Config → Db → Option String → Outcome Slot
unfolding first_free
free_slot c db none = or_fault (first_free db c.slots) (refused "slot-unavailable")
free_slot c db (some id) = do
  s ← or_fault (row (λ t. t.id) id c.slots) (refused "unknown-slot")
  demand (not (used db id)) (refused "slot-unavailable")
  done s
