-- ===== src/Registry/Valid/Assign.antt =====
-- The invariant under `assign`.
use nexus_infra.Base.{ℕ, true, none, eq_refl, ◌≡◌, inl, [], ◌∷◌, inr, arith, subst, sym}
use nexus_infra.Base.Result.{ok}
use nexus_infra.Base.Table.{row-upsert, row-append, all-append, all-upsert}
use nexus_infra.Json.Value.{Value}
use nexus_infra.Registry.State.{Principal, Receipt, Db, Registry, instance_row}
use nexus_infra.Registry.Requests.{AssignRequest}
use nexus_infra.Registry.Assign.{assigned_instance, assigned_placement, assign_checks, assign_body}
use nexus_infra.Registry.Assign.Effect.{assigned, next_generation, Wrote, assign_body-cases}
use nexus_infra.Registry.Compat.{instance_fits}
use nexus_infra.Registry.Grows.Assign.{assigned-Grows}
use nexus_infra.Registry.Valid.{placement_ok, instance_ok, IsValid}
use nexus_infra.Registry.Valid.Kept.{IsValid-Kept}

-- The checks include that the definition and the host are known, of one architecture.
assign_checks-fit :
    (r : Registry) (q : AssignRequest) (now mono g : ℕ)
    → assign_checks r q now mono ≡ ok tt
    → instance_fits r.config (assigned_instance q g) ≡ true
unfolding assign_checks
assign_checks-fit r q now mono g h = ground arith

module _ (p : Principal) (v : Value) (q : AssignRequest) (db : Db)
    (free : instance_row db q.instance_id ≡ none) where
  new_placement_ok :
      let g = next_generation db q in
      placement_ok (assigned db p v q g) (assigned_placement q g) ≡ true
  new_placement_ok = ground (
    arith,
    row-append (λ i. i.instance_id) q.instance_id (assigned_instance q (next_generation db q))
        db.instances,
    eq_refl q.instance_id,
    eq_refl q.workload_id,
  )

  new_instance_ok :
      let g = next_generation db q in
      instance_ok (assigned db p v q g) (assigned_instance q g) ≡ true
  new_instance_ok = ground (
    arith,
    row-upsert (λ t. t.workload_id) q.workload_id (assigned_placement q (next_generation db q))
        db.placements,
    eq_refl q.workload_id,
  )

Wrote-IsValid :
    (p : Principal) (v : Value) (q : AssignRequest) (now mono : ℕ) (r : Registry) (a : Receipt)
    (db : Db)
    → Wrote p v q now mono r a db
    → IsValid r.config r.db
    → IsValid r.config (assigned r.db p v q (next_generation r.db q))
Wrote-IsValid p v q now mono r a db w valid =
    let kept = IsValid-Kept r.config (assigned-Grows r.db p v q) valid in
    let g = next_generation r.db q in
    record {
      placements_ok =
          all-upsert _ (λ t. t.workload_id) (assigned_placement q g) r.db.placements
            (new_placement_ok p v q r.db w.new_instance) kept.placements_ok;
      instances_ok = rw (
        all-append _ r.db.instances (assigned_instance q g ∷ []),
        kept.instances_ok,
        new_instance_ok p v q r.db w.new_instance,
      );
      operations_ok = kept.operations_ok;
      instances_fit = rw (
        all-append _ r.db.instances (assigned_instance q g ∷ []),
        kept.instances_fit,
        assign_checks-fit r q now mono g w.checks,
      );
      operations_fit = kept.operations_fit;
      fences_fit = kept.fences_fit;
    }

pub assign_body-IsValid :
    (p : Principal) (v : Value) (q : AssignRequest) (now mono : ℕ) (r : Registry) (a : Receipt)
    (db : Db)
    → assign_body p v q now mono r ≡ ok (a, db)
    → IsValid r.config r.db
    → IsValid r.config db
assign_body-IsValid p v q now mono r a db h valid =
    elim (assign_body-cases p v q now mono r a db h) [
      | inl same ↦ subst (IsValid r.config) (sym same) valid
      | inr w ↦
          subst (IsValid r.config) (sym w.effect) (Wrote-IsValid p v q now mono r a db w valid)
    ]
