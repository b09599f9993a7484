-- ===== src/Worker/Steps/Preparing.antt =====
-- The chains of writes of `prepare` and `adopt`.
use nexus_infra.Base.{
  ℕ, Bool, true, false, Option, none, some, ◌≡◌, refl, sym, ap, arith, eq_iff, eq_refl, ◌∙◌,
}
use nexus_infra.Base.Table.{row-append}
use nexus_infra.Worker.State.{
  Request, Bundle, Config, Instance, preparing, prepared, Db, get_instance,
}
use nexus_infra.Worker.Host.{done, Views}
use nexus_infra.Worker.Checks.{known_generation}
use nexus_infra.Worker.Act.{◌>>◌, commits, update, in_phase}
use nexus_infra.Worker.Prepare.{
  bump, insert_instance, resume_row, fresh_row, row_checks, is_newer, prepare_checks, new_instance,
  mark_prepared, build, rebuild, is_prepared, prepare_row, prepare,
}
use nexus_infra.Worker.Steps.{
  moves, is_starting, Step, inserts, bumps, Reach, Reach-step, Reach-trans,
}
use nexus_infra.Worker.Steps.Rules.{
  Ran, Ran-reads, Ran-checks, Ran-commits, Ran-if, Ran-finish, update-found, changed-Reach,
  bind-done, done-injective, get_instance-put,
}

-- The row of the request, before it is prepared.
record Open (db : Db) (q : Request) : Type 0 where
  instance_ : Instance
  found : get_instance db q.instance_id ≡ some instance_
  calm : is_starting instance_.phase ≡ false
  workload : instance_.workload_id ≡ q.workload_id
  generation : instance_.generation ≡ q.generation

insert-Step :
    (i : Instance) (db db' : Db)
    → is_newer (known_generation db i.workload_id) i.generation ≡ true
    → i.phase ≡ preparing
    → i.permit ≡ false
    → insert_instance i db ≡ done db'
    → Step db db'
unfolding insert_instance
insert-Step i db db' newer young calm h =
    inserts i (ground arith) (ground arith) newer young calm (ground arith)

insert-found :
    (i : Instance) (db db' : Db)
    → get_instance db i.instance_id ≡ none
    → insert_instance i db ≡ done db'
    → get_instance db' i.instance_id ≡ some i
unfolding insert_instance bump
insert-found i db db' gone h =
    ground
      (arith, row-append (λ t. t.instance_id) i.instance_id i db.instances, eq_refl i.instance_id)

mark_prepared-Reach :
    (q : Request) (db db' : Db) → Open db q → mark_prepared q db ≡ done db' → Reach db db'
unfolding mark_prepared
mark_prepared-Reach q db db' o h =
    let (mid, updated, bumped) = bind-done (update q.instance_id (in_phase prepared) db) _ db' h in
    let i = o.instance_ in
    let (_, same) = update-found q.instance_id (in_phase prepared) db mid i o.found updated in
    Reach-trans
      (changed-Reach q.instance_id (in_phase prepared) db mid i o.found
        (moves prepared refl o.calm refl) updated)
      (Reach-step (
        bumps (in_phase prepared i) (rw same (get_instance-put db (in_phase prepared i))) (
          sym (done-injective bumped)
          ∙ ap (λ w. bump w q.generation mid) (sym o.workload)
          ∙ ap (λ g. bump i.workload_id g mid) (sym o.generation))))

module _ (c : Config) (q : Request) where
  build-Ran : (adopting : Bool) (vs : Views) (db : Db) → Open db q → Ran (build c adopting vs q) db
  unfolding build
  build-Ran adopting vs db o = Ran-checks _ _ db λ _. Ran-checks _ _ db λ _.
      Ran-checks _ _ db λ _.
        Ran-commits _ _ db λ db' h. (mark_prepared-Reach q db db' o h, Ran-finish c q _ _ _ db')

  rebuild-Ran : (vs : Views) (db : Db) → Ran (rebuild c vs q) db
  unfolding rebuild
  rebuild-Ran vs db = Ran-checks _ _ db λ _. Ran-checks _ _ db λ _. Ran-finish c q _ _ _ db

  fresh-newer :
      (adopting : Bool) (vs : Views) (db : Db) (b : Bundle)
      → prepare_checks c adopting vs q none db ≡ done b
      → is_newer (known_generation db q.workload_id) q.generation ≡ true
  unfolding prepare_checks row_checks fresh_row
  fresh-newer adopting vs db b h = ground arith

  resumed-Open :
      (adopting : Bool) (vs : Views) (db : Db) (b : Bundle) (i : Instance)
      → get_instance db q.instance_id ≡ some i
      → prepare_checks c adopting vs q (some i) db ≡ done b
      → Open db q
  unfolding prepare_checks row_checks resume_row
  resumed-Open adopting vs db b i found h = record {
    instance_ = i;
    found = found;
    calm = ground arith;
    workload = ground (arith, eq_iff i.workload_id q.workload_id);
    generation = ground arith;
  }

  inserted-Ran :
      (adopting : Bool) (vs : Views) (db : Db) (i : Instance)
      → get_instance db q.instance_id ≡ none
      → i.instance_id ≡ q.instance_id
      → i.workload_id ≡ q.workload_id
      → i.generation ≡ q.generation
      → i.phase ≡ preparing
      → i.permit ≡ false
      → is_newer (known_generation db q.workload_id) q.generation ≡ true
      → Ran (commits (insert_instance i) >> build c adopting vs q) db
  inserted-Ran adopting vs db i gone id w g young calm newer = Ran-commits _ _ db λ db' h. (
    Reach-step (insert-Step i db db' (rw (w, g) newer) young calm h),
    build-Ran adopting vs db' (record {
      instance_ = i;
      found = rw (sym id) (insert-found i db db' (rw id gone) h);
      calm = rw young refl;
      workload = w;
      generation = g;
    }),
  )

  prepare_row-Ran :
      (adopting : Bool) (vss : ℕ → Views) (o : Option Instance) (db : Db)
      → get_instance db q.instance_id ≡ o
      → Ran (prepare_row c adopting vss q o) db
  unfolding prepare_row
  prepare_row-Ran adopting vss none db gone =
      Ran-reads (prepare_checks c adopting (vss 0) q none) _ db λ b h. Ran-reads _ _ db λ s _.
        inserted-Ran adopting (vss 2) db (new_instance c adopting q b s) gone refl refl refl refl
          refl (fresh-newer adopting (vss 0) db b h)
  prepare_row-Ran adopting vss (some i) db found =
      Ran-reads (prepare_checks c adopting (vss 0) q (some i)) _ db λ b h.
        Ran-if (is_prepared i.phase) _ _ db (λ _. rebuild-Ran (vss 2) db)
          (λ _. build-Ran adopting (vss 2) db (resumed-Open adopting (vss 0) db b i found h))

  pub prepare-Ran :
      (adopting : Bool) (vss : ℕ → Views) (db : Db) → Ran (prepare c adopting vss q) db
  unfolding prepare
  prepare-Ran adopting vss db =
      Ran-reads (λ d. done (get_instance d q.instance_id)) _ db
        λ o h. prepare_row-Ran adopting vss o db (done-injective h)
