-- ===== src/Registry/Succession/Assigning.antt =====
-- The placement of a workload under `assign`.
use nexus_infra.Base.{
  ℕ, String, true, false, none, some, str_eq, eq_iff, eq_refl, ◌≡◌, refl, inl, inr, arith, subst,
  sym, ap, ◌∙◌, Bool-cases, Option-cases,
}
use nexus_infra.Base.Result.{ok}
use nexus_infra.Base.Table.{row-upsert, row-append}
use nexus_infra.Json.Value.{Value}
use nexus_infra.Registry.State.{Principal, Db, Registry, placement, instance_row, definition_of}
use nexus_infra.Registry.Requests.{AssignRequest}
use nexus_infra.Registry.Evidence.{all_ready, dependencies_ready}
use nexus_infra.Registry.Assign.{incumbent_released, assigned_placement, assign_checks, assign_body}
use nexus_infra.Registry.Assign.Effect.{
  assigned, next_generation, Wrote, assign_body-cases, assign_checks-free,
}
use nexus_infra.Registry.Events.{assigns}
use nexus_infra.Registry.Clock.{Clock}
use nexus_infra.Registry.Returns.{Timed}
use nexus_infra.Registry.Requests.{validate_assign}
use nexus_infra.Registry.Assign.{assigned_instance}
use nexus_infra.Registry.Succession.Reading.{timed_at, released-timed, all_ready-timed}
use nexus_infra.Catalog.Definition.{Definition}
use nexus_infra.Registry.Succession.Placing.{Succeeds, Moves, stays, succeeds}

assign_checks_sound :
    (r : Registry) (q : AssignRequest) (now mono : ℕ)
    → assign_checks r q now mono ≡ ok tt
    → (incumbent_released r (placement r.db q.workload_id) now mono ≡ true)
      × (d : Definition) × (definition_of r.config q.workload_id q.revision_digest ≡ some d)
      × (all_ready r d.dependencies now mono ≡ ok tt)
unfolding assign_checks dependencies_ready
assign_checks_sound r q now mono h =
    elim (Option-cases (definition_of r.config q.workload_id q.revision_digest)) [
      | inl gone ↦ absurd (ground arith)
      | inr (d, found) ↦ (ground arith, d, found, ground arith)
    ]

-- What the writes of `assign` leave at its own workload.
module _ (db : Db) (p : Principal) (v : Value) (q : AssignRequest) where
  assigned-placement :
      placement (assigned db p v q (next_generation db q)) q.workload_id
      ≡ some (assigned_placement q (next_generation db q))
  assigned-placement =
      rw
        (
          row-upsert (λ t. t.workload_id) q.workload_id
              (assigned_placement q (next_generation db q)) db.placements,
          eq_refl q.workload_id,
        )
        refl

  assigned-instance :
      instance_row db q.instance_id ≡ none
      → instance_row (assigned db p v q (next_generation db q)) q.instance_id
        ≡ some (assigned_instance q (next_generation db q))
  assigned-instance gone = ground (
    arith,
    row-append (λ t. t.instance_id) q.instance_id (assigned_instance q (next_generation db q))
        db.instances,
    eq_refl q.instance_id,
  )

  assigned-other :
      (w : String)
      → str_eq q.workload_id w ≡ false
      → placement (assigned db p v q (next_generation db q)) w ≡ placement db w
  assigned-other w other =
      rw
        (
          row-upsert (λ t. t.workload_id) w (assigned_placement q (next_generation db q))
              db.placements,
          other,
        )
        refl

module _ (clock : Clock) (p : Principal) (v : Value) (r : Registry) (db : Db) where
  assigned-Succeeds :
      (t : Timed (validate_assign v) clock (assign_body p v) r db)
      → Wrote p v t.request t.now t.mono (timed_at r t.now t.mono) t.answer db
      → Succeeds clock v r db t.request.workload_id
  assigned-Succeeds t s =
      let q = t.request in
      let (free, d, defined, deps) =
        assign_checks_sound (timed_at r t.now t.mono) q t.now t.mono s.checks in
      let gone = assign_checks-free (timed_at r t.now t.mono) q t.now t.mono s.checks in
      record {
        request = q;
        valid = t.valid;
        names = refl;
        now = t.now;
        wall_read = t.wall_read;
        mono = t.mono;
        mono_read = t.mono_read;
        placed_next = ap (λ d. placement d q.workload_id) s.effect ∙ assigned-placement r.db p v q;
        unseen = gone;
        inserted =
            ap (λ d. instance_row d q.instance_id) s.effect ∙ assigned-instance r.db p v q gone;
        free = sym (released-timed r t.now t.mono (placement r.db q.workload_id)) ∙ free;
        definition = d;
        defined = defined;
        ready_dependencies = sym (all_ready-timed r t.now t.mono d.dependencies) ∙ deps;
      }

  pub assign-Moves :
      (w : String)
      → Timed (validate_assign v) clock (assign_body p v) r db
      → Moves r db w (assigns clock p v)
  assign-Moves w t =
      elim (assign_body-cases p v t.request t.now t.mono (timed_at r t.now t.mono) t.answer db
        t.made) [
          | inl same ↦ stays (ap (λ d. placement d w) same)
          | inr s ↦ elim (Bool-cases (str_eq t.request.workload_id w)) [
            | inl own ↦ succeeds (
                subst (Succeeds clock v r db) ((eq_iff t.request.workload_id w).0 own)
                  (assigned-Succeeds t s))
            | inr other ↦
                stays (ap (λ d. placement d w) s.effect ∙ assigned-other r.db p v t.request w other)
          ]
        ]
