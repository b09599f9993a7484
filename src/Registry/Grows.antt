-- ===== src/Registry/Grows.antt =====
-- An order on the databases of the registry.
pub mod Assign
pub mod Others
use nexus_infra.Base.{ℕ, ◌≤◌, String, Bool, true, List, Option, some, ◌≡◌, refl}
use nexus_infra.Base.Table.{any}
use nexus_infra.Registry.State.{
  Placement, Instance, Fence, RequestRow, Config, Db, placement, instance_row, fence_row,
  generation_of,
}
use nexus_infra.Registry.Journal.{request_row, holds_generation}
use native.Mathlib.Nat.{le_refl, le_trans}

pub record Grows (db db' : Db) : Type 0 where
  pub instances :
      (k : String) (i : Instance) → instance_row db k ≡ some i → instance_row db' k ≡ some i
  pub generations :
      (w : String) (g : ℕ)
      → any (holds_generation w g) db.instances ≡ true
      → any (holds_generation w g) db'.instances ≡ true
  pub fences :
      (w : String) (g : ℕ) (f : Fence) → fence_row db w g ≡ some f → fence_row db' w g ≡ some f
  pub requests :
      (k : String) (q : RequestRow) → request_row db k ≡ some q → request_row db' k ≡ some q
  pub placements : (w : String) → generation_of (placement db w) ≤ generation_of (placement db' w)
  pub sequence : db.operation_sequence ≤ db'.operation_sequence
  pub version : db.version ≤ db'.version

pub Grows-refl : (db : Db) → Grows db db
Grows-refl db = record {
  instances = λ k i h. h;
  generations = λ w g h. h;
  fences = λ w g f h. h;
  requests = λ k q h. h;
  placements = λ w. le_refl _;
  sequence = le_refl _;
  version = le_refl _;
}

pub Grows-trans : {a b c : Db} → Grows a b → Grows b c → Grows a c
Grows-trans g h = record {
  instances = λ k i e. h.instances k i (g.instances k i e);
  generations = λ w n e. h.generations w n (g.generations w n e);
  fences = λ w n f e. h.fences w n f (g.fences w n f e);
  requests = λ k q e. h.requests k q (g.requests k q e);
  placements = λ w. le_trans (g.placements w) (h.placements w);
  sequence = le_trans g.sequence h.sequence;
  version = le_trans g.version h.version;
}
