-- ===== src/Registry/Assign.antt =====
-- `assign` of console/registry.py.
pub mod Effect
use nexus_infra.Base.{
  ℕ, ◌+◌, String, Bool, true, false, not, ◌&&◌, ◌||◌, List, [], ◌∷◌, Option, none, some, ◌==◌,
  str_eq, if◌then◌else◌, is_some,
}
use nexus_infra.Base.Result.{Result, ok, err, failure_with, ◌>>=◌, ◌>>◌, require, or_raise}
use nexus_infra.Base.Table.{upsert}
use nexus_infra.Json.Value.{Value}
use nexus_infra.Catalog.Definition.{Definition}
use nexus_infra.Registry.State.{
  Principal, Placement, Instance, Receipt, placed, Db, Registry, placement, instance_row,
  observation_row, definition_of, host_row, generation_of,
}
use nexus_infra.Registry.Requests.{AssignRequest, validate_assign}
use nexus_infra.Registry.Clock.{
  Clock, Call, after, with_now, with_mono, transaction, with_principal,
}
use nexus_infra.Registry.Evidence.{retired_drained, fenced, executable, dependencies_ready}
use nexus_infra.Registry.Journal.{once, record_request, insert_instance}

abbrev pub host_of : Option Instance → Option String
host_of none = none
host_of (some i) = some i.host_id

abbrev drained_on : Registry → String → Option String → ℕ → ℕ → Bool
drained_on r instance_id none now mono = false
drained_on r instance_id (some host_id) now mono =
    retired_drained r (observation_row r.db instance_id) host_id now mono

-- Whether the incumbent is proved retired and drained, or fenced.
unfoldable pub released : Registry → Placement → ℕ → ℕ → Bool
released r p now mono =
    let host = host_of (instance_row r.db p.instance_id) in
    drained_on r p.instance_id host now mono || fenced r.db p.workload_id p.generation host

unfoldable pub incumbent_released : Registry → Option Placement → ℕ → ℕ → Bool
unfolding released
incumbent_released r none now mono = true
incumbent_released r (some p) now mono = released r p now mono

abbrev pub assigned_instance : AssignRequest → ℕ → Instance
assigned_instance q generation = record {
  instance_id = q.instance_id;
  workload_id = q.workload_id;
  revision_digest = q.revision_digest;
  host_id = q.host_id;
  generation = generation;
}

abbrev pub assigned_placement : AssignRequest → ℕ → Placement
assigned_placement q generation = record {
  workload_id = q.workload_id;
  generation = generation;
  instance_id = q.instance_id;
  published = false;
}

abbrev pub assign_receipt : AssignRequest → ℕ → Receipt
assign_receipt q generation = placed "assign" q.request_id q.workload_id generation

-- The checks of `assign` after the replay.
unfoldable pub assign_checks : Registry → AssignRequest → ℕ → ℕ → Result (Unit {0})
assign_checks r q now mono = do
  definition ←
      or_raise (definition_of r.config q.workload_id q.revision_digest)
        (failure_with "unknown-workload" 404)
  executable definition
  host ← or_raise (host_row r.config q.host_id) (failure_with "unknown-host" 404)
  require (str_eq definition.architecture host.architecture)
      (failure_with "architecture-mismatch" 409)
  require (generation_of (placement r.db q.workload_id) == q.expected_generation)
      (failure_with "generation-conflict" 409)
  require (incumbent_released r (placement r.db q.workload_id) now mono)
      (failure_with "retirement-required" 409)
  dependencies_ready r q.workload_id q.revision_digest now mono
  require (not (is_some (instance_row r.db q.instance_id))) (failure_with "instance-conflict" 409)

-- The writes of `assign`.
unfoldable pub assign_writes : Db → Principal → Value → AssignRequest → ℕ → Result (Receipt × Db)
assign_writes db p request q generation = do
  instances ← insert_instance db (assigned_instance q generation)
  requests ← record_request db p "assign" q.request_id request (assign_receipt q generation)
  ok (
    assign_receipt q generation,
    record db {
      version = db.version + 1;
      instances = instances;
      placements = upsert (λ t. t.workload_id) (assigned_placement q generation) db.placements;
      requests = requests;
    },
  )

unfoldable pub assign_fresh :
    Registry → Principal → Value → AssignRequest → ℕ → ℕ → Result (Receipt × Db)
assign_fresh r p request q now mono = do
  assign_checks r q now mono
  assign_writes r.db p request q (generation_of (placement r.db q.workload_id) + 1)

unfoldable pub assign_body :
    Principal → Value → AssignRequest → ℕ → ℕ → Registry → Result (Receipt × Db)
assign_body p request q now mono r =
    once r.db p "assign" q.request_id request (assign_fresh r p request q now mono)

-- `assign`
unfoldable pub assign : Clock → Principal → Value → Call Receipt
assign clock p request = with_principal p ("controller" ∷ []) (
    after (validate_assign request) λ q.
      with_now clock λ now. with_mono clock λ mono. transaction (assign_body p request q now mono))
