-- ===== src/Registry/Succession/Reading.antt =====
-- The evidence that a transaction of console/registry.py reads after the clocks.
use nexus_infra.Base.{
  ℕ, String, List, Option, none, some, ◌≡◌, refl, inl, inr, sym, ap, ◌∙◌, Option-cases, [], ◌∷◌,
}
use nexus_infra.Base.Result.{◌>>◌}
use nexus_infra.Registry.State.{
  Config, Placement, Db, Registry, ObservationRow, instance_row, definition_of,
}
use nexus_infra.Registry.Evidence.{
  fresh, retired_drained, ready, ready_for, dependency_ready, all_ready, dependencies_ready,
}
use nexus_infra.Registry.Assign.{incumbent_released}
use nexus_infra.Registry.Publish.{publishing, may_show}
use nexus_infra.Registry.Returns.{at_wall, at_mono}

-- The registry that a transaction reads: the times that were read before do not matter to it.
abbrev pub reading : Config → String → Db → Registry
reading c e db = record { config = c; epoch = e; last_wall = none; last_mono = none; db = db }

all_ready-reading :
    (r : Registry) (ds : List String) (now mono : ℕ)
    → all_ready (reading r.config r.epoch r.db) ds now mono ≡ all_ready r ds now mono
unfolding all_ready dependency_ready ready fresh
all_ready-reading r [] now mono = refl
all_ready-reading r (d ∷ ds) now mono =
    ap (λ rest. dependency_ready r d now mono >> rest) (all_ready-reading r ds now mono)

dependencies_ready-reading :
    (r : Registry) (w d : String) (now mono : ℕ)
    → dependencies_ready (reading r.config r.epoch r.db) w d now mono
      ≡ dependencies_ready r w d now mono
unfolding dependencies_ready
dependencies_ready-reading r w d now mono = elim (Option-cases (definition_of r.config w d)) [
  | inl gone ↦ rw (gone, dependencies_ready)
  | inr (def, found) ↦
      rw (found, dependencies_ready) (all_ready-reading r def.dependencies now mono)
]

may_show-reading :
    (r : Registry) (p : Placement) (now mono : ℕ)
    → may_show publishing (reading r.config r.epoch r.db) p now mono
      ≡ may_show publishing r p now mono
unfolding may_show ready fresh
may_show-reading r p now mono = elim (Option-cases (instance_row r.db p.instance_id)) [
  | inl gone ↦ rw gone
  | inr (i, found) ↦
      rw (found, dependencies_ready-reading r p.workload_id i.revision_digest now mono)
]

released-reading :
    (r : Registry) (o : Option Placement) (now mono : ℕ)
    → incumbent_released (reading r.config r.epoch r.db) o now mono
      ≡ incumbent_released r o now mono
unfolding incumbent_released retired_drained fresh
released-reading r none now mono = refl
released-reading r (some p) now mono = elim (Option-cases (instance_row r.db p.instance_id)) [
  | inl gone ↦ rw gone
  | inr (i, found) ↦ rw found
]

-- The registry in the transaction of a call that has read both clocks.
abbrev pub timed_at : Registry → ℕ → ℕ → Registry
timed_at r now mono = at_mono (at_wall r now) mono

module _ (r : Registry) (now mono : ℕ) where
  pub released-timed :
      (o : Option Placement)
      → incumbent_released (timed_at r now mono) o now mono ≡ incumbent_released r o now mono
  released-timed o =
      sym (released-reading (timed_at r now mono) o now mono) ∙ released-reading r o now mono

  pub all_ready-timed :
      (ds : List String) → all_ready (timed_at r now mono) ds now mono ≡ all_ready r ds now mono
  all_ready-timed ds =
      sym (all_ready-reading (timed_at r now mono) ds now mono) ∙ all_ready-reading r ds now mono

  pub dependencies_ready-timed :
      (w d : String)
      → dependencies_ready (timed_at r now mono) w d now mono ≡ dependencies_ready r w d now mono
  dependencies_ready-timed w d =
      sym (dependencies_ready-reading (timed_at r now mono) w d now mono)
      ∙ dependencies_ready-reading r w d now mono

  pub ready-timed :
      (o : Option ObservationRow) (h w : String)
      → ready (timed_at r now mono) o h w now mono ≡ ready r o h w now mono
  unfolding ready fresh ready_for
  ready-timed none h w = refl
  ready-timed (some o) h w = refl
