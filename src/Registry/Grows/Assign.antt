-- ===== src/Registry/Grows/Assign.antt =====
-- The writes of `assign` in that order.
use nexus_infra.Base.{ℕ, ◌≤◌, String, ◌≡◌, eq_iff, arith, inl, inr, subst, sym}
use nexus_infra.Base.Table.{row-upsert, row-append_left, any-append_left}
use nexus_infra.Base.Result.{ok}
use nexus_infra.Json.Value.{Value}
use nexus_infra.Registry.State.{Principal, Receipt, Db, Registry, placement, generation_of}
use nexus_infra.Registry.Requests.{AssignRequest}
use nexus_infra.Registry.Assign.{assigned_placement, assign_body}
use nexus_infra.Registry.Assign.Effect.{assigned, next_generation, assign_body-cases}
use nexus_infra.Registry.Grows.{Grows, Grows-refl}
use native.Mathlib.Nat.{le_refl}

placement-assigned :
    (db : Db) (p : Principal) (v : Value) (q : AssignRequest) (w : String)
    → generation_of (placement db w)
      ≤ generation_of (placement (assigned db p v q (next_generation db q)) w)
placement-assigned db p v q w = ground (
  arith,
  row-upsert (λ t. t.workload_id) w (assigned_placement q (next_generation db q)) db.placements,
  eq_iff q.workload_id w,
)

pub assigned-Grows :
    (db : Db) (p : Principal) (v : Value) (q : AssignRequest)
    → Grows db (assigned db p v q (next_generation db q))
assigned-Grows db p v q = record {
  instances = λ k i h. row-append_left (λ t. t.instance_id) k db.instances _ h;
  generations = λ w g h. any-append_left _ db.instances _ h;
  fences = λ w g f h. h;
  requests = λ k t h. row-append_left (λ t. t.request_id) k db.requests _ h;
  placements = placement-assigned db p v q;
  sequence = le_refl _;
  version = omega arith;
}

pub assign_body-Grows :
    (p : Principal) (v : Value) (q : AssignRequest) (now mono : ℕ) (r : Registry) (a : Receipt)
    (db : Db)
    → assign_body p v q now mono r ≡ ok (a, db)
    → Grows r.db db
assign_body-Grows p v q now mono r a db h = elim (assign_body-cases p v q now mono r a db h) [
  | inl same ↦ subst (Grows r.db) (sym same) (Grows-refl r.db)
  | inr w ↦ subst (Grows r.db) (sym w.effect) (assigned-Grows r.db p v q)
]
