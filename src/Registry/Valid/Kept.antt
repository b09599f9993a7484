-- ===== src/Registry/Valid/Kept.antt =====
-- Valid rows in a database that has grown.
use nexus_infra.Base.{true, ◌≡◌, arith}
use nexus_infra.Base.Table.{all, all_mono, is_some-of}
use nexus_infra.Registry.State.{Config, Placement, Instance, Operation, Fence, Db, instance_row}
use nexus_infra.Registry.Journal.{request_row}
use nexus_infra.Registry.Compat.{instance_fits, operation_fits, fence_fits}
use nexus_infra.Registry.Grows.{Grows}
use nexus_infra.Registry.Valid.{placement_ok, instance_ok, operation_ok, IsValid}

-- The rows of `db`, tested in `db'`.
pub record Kept (c : Config) (db db' : Db) : Type 0 where
  pub placements_ok : all (placement_ok db') db.placements ≡ true
  pub instances_ok : all (instance_ok db') db.instances ≡ true
  pub operations_ok : all (operation_ok db') db.operations ≡ true
  pub instances_fit : all (instance_fits c) db.instances ≡ true
  pub operations_fit : all (operation_fits c db') db.operations ≡ true
  pub fences_fit : all (fence_fits c db') db.fences ≡ true

module _ (c : Config) {db db' : Db} (grows : Grows db db') where
  placement_ok-grows : (p : Placement) → placement_ok db p ≡ true → placement_ok db' p ≡ true
  placement_ok-grows p h =
      let (i, found) = is_some-of (instance_row db p.instance_id) (ground arith) in
      let same = grows.instances p.instance_id i found in ground arith

  instance_ok-grows : (i : Instance) → instance_ok db i ≡ true → instance_ok db' i ≡ true
  instance_ok-grows i h = ground (arith, grows.placements i.workload_id)

  operation_ok-grows : (o : Operation) → operation_ok db o ≡ true → operation_ok db' o ≡ true
  operation_ok-grows o h =
      let (q, found) = is_some-of (request_row db o.request_id) (ground arith) in
      let same = grows.requests o.request_id q found in ground (arith, grows.sequence)

  operation_fits-grows :
      (o : Operation) → operation_fits c db o ≡ true → operation_fits c db' o ≡ true
  operation_fits-grows o h = ground (arith, grows.generations o.workload_id o.generation)

  fence_fits-grows : (f : Fence) → fence_fits c db f ≡ true → fence_fits c db' f ≡ true
  fence_fits-grows f h = ground (arith, grows.generations f.workload_id f.generation)

  pub IsValid-Kept : IsValid c db → Kept c db db'
  IsValid-Kept v = record {
    placements_ok = all_mono _ _ db.placements placement_ok-grows v.placements_ok;
    instances_ok = all_mono _ _ db.instances instance_ok-grows v.instances_ok;
    operations_ok = all_mono _ _ db.operations operation_ok-grows v.operations_ok;
    instances_fit = v.instances_fit;
    operations_fit = all_mono _ _ db.operations operation_fits-grows v.operations_fit;
    fences_fit = all_mono _ _ db.fences fence_fits-grows v.fences_fit;
  }
