-- ===== src/Registry/Valid.antt =====
-- The invariant of the registry's database.
pub mod Kept
pub mod Assign
pub mod Others
pub mod Reach
use nexus_infra.Base.{
  ℕ, String, Bool, true, false, ◌&&◌, List, [], ◌∷◌, Option, none, some, leb, ◌==◌, str_eq, is_some,
  ◌≡◌,
}
use nexus_infra.Base.Table.{all, any}
use nexus_infra.Registry.State.{
  Config, Placement, Instance, Operation, Db, placement, instance_row, generation_of,
}
use nexus_infra.Registry.Journal.{request_row}
use nexus_infra.Registry.Queue.{queue_length, pending_max}
use nexus_infra.Registry.Compat.{instance_fits, operation_fits, fence_fits}

-- The instance of a placement is there, with its workload and its generation.
abbrev pub placement_ok : Db → Placement → Bool
placement_ok db p = elim (instance_row db p.instance_id) [
  | none ↦ false
  | some i ↦ str_eq i.workload_id p.workload_id && i.generation == p.generation
]

-- No instance is newer than the placement of its workload.
abbrev pub instance_ok : Db → Instance → Bool
instance_ok db i = leb i.generation (generation_of (placement db i.workload_id))

abbrev pub operation_ok : Db → Operation → Bool
operation_ok db o = leb o.seq db.operation_sequence && is_some (request_row db o.request_id)

pub record IsValid (c : Config) (db : Db) : Type 0 where
  pub placements_ok : all (placement_ok db) db.placements ≡ true
  pub instances_ok : all (instance_ok db) db.instances ≡ true
  pub operations_ok : all (operation_ok db) db.operations ≡ true
  pub instances_fit : all (instance_fits c) db.instances ≡ true
  pub operations_fit : all (operation_fits c db) db.operations ≡ true
  pub fences_fit : all (fence_fits c db) db.fences ≡ true
