-- ===== src/Worker/History/Instances.antt =====
-- The instances of a worker over histories.
use nexus_infra.Base.{
  ℕ, String, true, List, [], ◌∷◌, Option, none, some, ◌≡◌, refl, sym, subst, inl, inr, str_eq,
  eq_iff, arith, Bool-cases,
}
use nexus_infra.Base.Table.{row-upsert, row-append_left}
use nexus_infra.Worker.State.{Instance, Db, get_instance}
use nexus_infra.Worker.Checks.{known_generation}
use nexus_infra.Worker.Act.{put, settled}
use nexus_infra.Worker.State.{stopping}
use nexus_infra.Worker.Prepare.{bump, is_newer}
use nexus_infra.Worker.Steps.{
  Step, opens, closes, changes, inserts, bumps, holds, releases, settles, Reach, here, next,
}
use nexus_infra.Worker.Safe.{Has, reaches}
use nexus_infra.Worker.Safe.Rows.{
  Keeps, Keeps-refl, Keeps-trans, Change-Keeps, reaches-bump, put-Has, append-Has,
}
use nexus_infra.Worker.History.{Event, run, run-Reach}

-- The row of the instance later.
pub record Lasts (db : Db) (i : Instance) : Type 0 where
  pub later_row : Instance
  pub found : get_instance db i.instance_id ≡ some later_row
  pub keeps : Keeps i later_row

put-Lasts :
    (db : Db) (i j x : Instance)
    → Has db i
    → Keeps i j
    → get_instance db x.instance_id ≡ some x
    → Lasts (put db j) x
put-Lasts db i j x has keeps there = elim (Bool-cases (str_eq j.instance_id x.instance_id)) [
  | inl same ↦
      let alike : i ≡ x = ground (arith, eq_iff j.instance_id x.instance_id, keeps.name) in
      record {
        later_row = j;
        found = ground (arith, row-upsert (λ t. t.instance_id) x.instance_id j db.instances);
        keeps = subst (λ t. Keeps t j) alike keeps;
      }
  | inr other ↦ record {
    later_row = x;
    found = ground (arith, row-upsert (λ t. t.instance_id) x.instance_id j db.instances);
    keeps = Keeps-refl x;
  }
]

same-Lasts : (db : Db) (x : Instance) → Has db x → Lasts db x
same-Lasts db x there = record { later_row = x; found = there; keeps = Keeps-refl x }

Step-Lasts : (db db' : Db) (x : Instance) → Step db db' → Has db x → Lasts db' x
unfolding bump
Step-Lasts db db' x (opens o new e) there = subst (λ d. Lasts d x) (sym e) (same-Lasts _ x there)
Step-Lasts db db' x (closes o a found was e) there =
    subst (λ d. Lasts d x) (sym e) (same-Lasts _ x there)
Step-Lasts db db' x (changes i j has change fits e) there =
    subst (λ d. Lasts d x) (sym e) (put-Lasts db i j x has (Change-Keeps db i j change) there)
Step-Lasts db db' x (inserts i fresh free newer young calm e) there =
    subst (λ d. Lasts d x) (sym e)
      (same-Lasts _ x
        (row-append_left (λ t. t.instance_id) x.instance_id db.instances (i ∷ []) there))
Step-Lasts db db' x (bumps i has e) there = subst (λ d. Lasts d x) (sym e) (same-Lasts _ x there)
Step-Lasts db db' x (holds i k has own unheld free e) there =
    let kept =
      put-Lasts db i (settled stopping i) x has
        (Change-Keeps db i (settled stopping i) (settles stopping refl refl)) there in
    subst (λ d. Lasts d x) (sym e)
      (record { later_row = kept.later_row; found = kept.found; keeps = kept.keeps })
Step-Lasts db db' x (releases k has e) there = subst (λ d. Lasts d x) (sym e) (same-Lasts _ x there)

Reach-Lasts : {a b : Db} (x : Instance) → Reach a b → Has a x → Lasts b x
Reach-Lasts x here there = same-Lasts _ x there
Reach-Lasts x (next {db'} {db''} r s) there =
    let mid = Reach-Lasts x r there in
    let y = mid.later_row in
    let name = mid.keeps.name in
    let last =
      Step-Lasts db' db'' y s (subst (λ k. get_instance db' k ≡ some y) (sym name) mid.found) in
    record {
      later_row = last.later_row;
      found = subst (λ k. get_instance db'' k ≡ some last.later_row) name last.found;
      keeps = Keeps-trans x y last.later_row mid.keeps last.keeps;
    }

-- After every history an instance of the database is still there, under its name, with the workload,
-- generation, revision, slot, machine name, binding and requirements that it had; and if it was
-- retired, it still is.
pub run-Lasts :
    (es : List Event) (db : Db) (i : Instance)
    → get_instance db i.instance_id ≡ some i
    → Lasts (run es db) i
run-Lasts es db i there = Reach-Lasts i (run-Reach es db) there

-- Where a row comes from.
data Origin (db : Db) (x : Instance) : Type 0 where
  older : (y : Instance) → Has db y → Keeps y x → Origin db x
  newer : is_newer (known_generation db x.workload_id) x.generation ≡ true → Origin db x

same-Origin : (db : Db) (x : Instance) → Has db x → Origin db x
same-Origin db x h = older x h (Keeps-refl x)

put-Origin : (db : Db) (i j x : Instance) → Has db i → Keeps i j → Has (put db j) x → Origin db x
put-Origin db i j x has keeps h = elim (put-Has db j x h) [
  | inl e ↦ older i has (subst (Keeps i) (sym e) keeps)
  | inr (there, other) ↦ same-Origin db x there
]

Step-Origin : (db db' : Db) (x : Instance) → Step db db' → Has db' x → Origin db x
unfolding bump
Step-Origin db db' x (opens o new e) h = same-Origin db x (subst (λ d. Has d x) e h)
Step-Origin db db' x (closes o a found was e) h = same-Origin db x (subst (λ d. Has d x) e h)
Step-Origin db db' x (changes i j has change fits e) h =
    put-Origin db i j x has (Change-Keeps db i j change) (subst (λ d. Has d x) e h)
Step-Origin db db' x (inserts i fresh free new young calm e) h =
    elim (append-Has db i x (subst (λ d. Has d x) e h)) [
      | inl same ↦ newer (rw same new)
      | inr there ↦ same-Origin db x there
    ]
Step-Origin db db' x (bumps i has e) h = same-Origin db x (subst (λ d. Has d x) e h)
Step-Origin db db' x (holds i k has own unheld free e) h =
    put-Origin db i (settled stopping i) x has
      (Change-Keeps db i (settled stopping i) (settles stopping refl refl))
      (subst (λ d. Has d x) e h)
Step-Origin db db' x (releases k has e) h = same-Origin db x (subst (λ d. Has d x) e h)

-- A generation that is reached stays reached.
Step-known :
    (db db' : Db) (w : String) (g : ℕ)
    → Step db db'
    → reaches (known_generation db w) g ≡ true
    → reaches (known_generation db' w) g ≡ true
Step-known db db' w g (opens o new e) h = rw e h
Step-known db db' w g (closes o a found was e) h = rw e h
Step-known db db' w g (changes i j has change fits e) h = rw e h
Step-known db db' w g (inserts i fresh free new young calm e) h =
    rw e (reaches-bump i.workload_id w i.generation g _ h)
Step-known db db' w g (bumps i has e) h = rw e (reaches-bump i.workload_id w i.generation g db h)
Step-known db db' w g (holds i k has own unheld free e) h = rw e h
Step-known db db' w g (releases k has e) h = rw e h

Reach-known :
    {a b : Db} (w : String) (g : ℕ)
    → Reach a b
    → reaches (known_generation a w) g ≡ true
    → reaches (known_generation b w) g ≡ true
Reach-known w g here h = h
Reach-known w g (next {db'} {db''} r s) h = Step-known db' db'' w g s (Reach-known w g r h)

-- What is newer than everything later was newer before.
newer_before :
    (a b : Option ℕ) (g : ℕ)
    → ((k : ℕ) → reaches a k ≡ true → reaches b k ≡ true)
    → is_newer b g ≡ true
    → is_newer a g ≡ true
newer_before none b g mono h = refl
newer_before (some k) none g mono h = ground (arith, mono k)
newer_before (some k) (some m) g mono h = ground (arith, mono k)

Reach-newer :
    {a b : Db} (x : Instance)
    → Reach a b
    → Has b x
    → get_instance a x.instance_id ≡ none
    → is_newer (known_generation a x.workload_id) x.generation ≡ true
Reach-newer x here h gone = cc
Reach-newer {a} x (next {db'} {db''} r s) h gone = elim (Step-Origin db' db'' x s h) [
  | older y there keeps ↦
      rw (keeps.workload, keeps.generation) (Reach-newer y r there (rw (sym keeps.name) gone))
  | newer new ↦
      newer_before (known_generation a x.workload_id) (known_generation db' x.workload_id)
        x.generation (λ k. Reach-known x.workload_id k r) new
]

-- An instance that appears in a history is of a higher generation than every generation that was
-- known of its workload when the history began.
pub run-newer :
    (es : List Event) (db : Db) (i : Instance)
    → get_instance (run es db) i.instance_id ≡ some i
    → get_instance db i.instance_id ≡ none
    → is_newer (known_generation db i.workload_id) i.generation ≡ true
run-newer es db i there gone = Reach-newer i (run-Reach es db) there gone
