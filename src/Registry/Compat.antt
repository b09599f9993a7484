-- ===== src/Registry/Compat.antt =====
-- `_check_compat` of console/registry.py, which runs when a database is opened.
use nexus_infra.Base.{ℕ, String, Bool, false, ◌&&◌, Option, some, str_eq, is_some}
use nexus_infra.Base.Result.{Result, failure_with, ◌>>◌, require}
use nexus_infra.Base.Strings.{mem}
use nexus_infra.Base.Table.{any, all}
use nexus_infra.Catalog.Definition.{Definition}
use nexus_infra.Registry.State.{
  Host, Config, Placement, Instance, Operation, Fence, Db, instance_row, definition_of, host_row,
}
use nexus_infra.Registry.Payload.{fence_evidence}
use nexus_infra.Registry.Journal.{holds_generation}

abbrev same_architecture : Option Definition → Option Host → Bool
same_architecture (some d) (some h) = str_eq d.architecture h.architecture
same_architecture _ _ = false

abbrev pub instance_fits : Config → Instance → Bool
instance_fits c i =
    same_architecture (definition_of c i.workload_id i.revision_digest) (host_row c i.host_id)

abbrev pub placement_fits : Db → Placement → Bool
placement_fits db p = is_some (instance_row db p.instance_id)

abbrev pub has_generation : Db → String → ℕ → Bool
has_generation db workload_id generation =
    any (holds_generation workload_id generation) db.instances

abbrev pub operation_fits : Config → Db → Operation → Bool
operation_fits c db o =
    is_some (host_row c o.host_id) && has_generation db o.workload_id o.generation

abbrev pub fence_fits : Config → Db → Fence → Bool
fence_fits c db f =
    is_some (host_row c f.host_id)
    && has_generation db f.workload_id f.generation
    && mem f.evidence fence_evidence

-- `_check_compat`
unfoldable pub check_compat : Config → Db → Result (Unit {0})
check_compat c db = do
  let incompatible = failure_with "registry-config-incompatible" 409
  require (all (instance_fits c) db.instances) incompatible
  require (all (placement_fits db) db.placements) incompatible
  require (all (operation_fits c db) db.operations) incompatible
  require (all (fence_fits c db) db.fences) incompatible
