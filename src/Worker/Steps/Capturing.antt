-- ===== src/Worker/Steps/Capturing.antt =====
-- The chains of writes of `freeze`, its resumption and `thaw`.
use nexus_infra.Base.{false, [], ◌∷◌, ◌++◌, Option, none, some, ◌≡◌, refl, sym, subst, arith}
use nexus_infra.Base.Table.{row-key}
use nexus_infra.Worker.State.{
  Request, Config, Instance, stopping, Capture, Db, get_instance, capture_row, is_held,
}
use nexus_infra.Worker.Host.{done, Views, later}
use nexus_infra.Worker.Checks.{identified}
use nexus_infra.Worker.Act.{update, settled}
use nexus_infra.Worker.Capture.{
  capture_context, freeze_checks, captured, insert_capture, hold, freeze_new, refreeze, frozen_by,
  freeze, refrozen_by, resume_freeze, release, thawed_by, thaw_context, thaw,
}
use nexus_infra.Worker.Steps.{Step, holds, releases, Reach, Reach-step}
use nexus_infra.Worker.Steps.Rules.{
  Ran, Ran-reads, Ran-checks, Ran-commits, Ran-if, Ran-finish, update-found, bind-done,
  done-injective,
}
use nexus_infra.Worker.Steps.Stopping.{identified-found, stop_unit_of-Ran, resume_stop-Ran}

freeze_checks-identified :
    (c : Config) (vs : Views) (q : Request) (db : Db) (i : Instance)
    → freeze_checks c vs q db ≡ done i
    → identified db q ≡ done i
unfolding freeze_checks capture_context
freeze_checks-identified c vs q db i h = ground arith

insert_capture-eq :
    (k : Capture) (db db' : Db)
    → insert_capture k db ≡ done db'
    → (is_held db k.workload_id ≡ false) × (db' ≡ record db { captures = db.captures ++ k ∷ [] })
unfolding insert_capture
insert_capture-eq k db db' h = ground arith

-- The capture and the phase are written together.
hold-Step :
    (q : Request) (i : Instance) (db db' : Db)
    → get_instance db i.instance_id ≡ some i
    → hold q i db ≡ done db'
    → Step db db'
unfolding hold
hold-Step q i db db' found h =
    let k = captured q i in
    let (mid, inserted, updated) = bind-done (insert_capture k db) _ db' h in
    let (free, same) = insert_capture-eq k db mid inserted in
    let wide = record db { captures = db.captures ++ k ∷ [] } in
    let (alone, effect) =
      update-found i.instance_id (settled stopping) wide db' i found
        (subst (λ d. update i.instance_id (settled stopping) d ≡ done db') same updated) in
    holds i k found refl free alone effect

release-Step :
    (db : Db) (q : Request) (k : Capture)
    → capture_row db q.capture_id ≡ some k
    → Step db (release k db)
release-Step db q k found =
    releases k
      (subst (λ x. capture_row db x ≡ some k)
        (sym (row-key (λ t. t.capture_id) q.capture_id db.captures found)) found)
      refl

module _ (c : Config) (q : Request) where
  freeze_new-Ran :
      (vs : Views) (i : Instance) (db : Db)
      → get_instance db i.instance_id ≡ some i
      → Ran (freeze_new c vs q i) db
  unfolding freeze_new
  freeze_new-Ran vs i db found = Ran-checks _ _ db λ _.
      Ran-commits _ _ db
        λ db' h. (Reach-step (hold-Step q i db db' found h), stop_unit_of-Ran c q vs i db')

  refreeze-Ran : (vs : Views) (k : Capture) (db : Db) → Ran (refreeze c vs q k) db
  unfolding refreeze
  refreeze-Ran vs k db =
      Ran-reads _ _ db λ i _. Ran-checks _ _ db λ _. resume_stop-Ran c q (later 2 vs) db

  frozen_by-Ran :
      (vs : Views) (i : Instance) (o : Option Capture) (db : Db)
      → get_instance db i.instance_id ≡ some i
      → Ran (frozen_by c vs q i o) db
  unfolding frozen_by
  frozen_by-Ran vs i none db found = freeze_new-Ran vs i db found
  frozen_by-Ran vs i (some k) db found = Ran-checks _ _ db λ _. refreeze-Ran vs k db

  pub freeze-Ran : (vs : Views) (db : Db) → Ran (freeze c vs q) db
  unfolding freeze
  freeze-Ran vs db = Ran-reads (freeze_checks c vs q) _ db λ i h. Ran-reads _ _ db λ o _.
      frozen_by-Ran (later 2 vs) i o db
        (identified-found db q i (freeze_checks-identified c vs q db i h))

  refrozen_by-Ran :
      (vs : Views) (i : Instance) (o : Option Capture) (db : Db) → Ran (refrozen_by c vs q i o) db
  unfolding refrozen_by
  refrozen_by-Ran vs i none db = freeze-Ran vs db
  refrozen_by-Ran vs i (some k) db = Ran-checks _ _ db λ _. resume_stop-Ran c q vs db

  pub resume_freeze-Ran : (vs : Views) (db : Db) → Ran (resume_freeze c vs q) db
  unfolding resume_freeze
  resume_freeze-Ran vs db =
      Ran-reads _ _ db λ i _. Ran-reads _ _ db λ o _. refrozen_by-Ran (later 2 vs) i o db

  thawed_by-Ran :
      (vs : Views) (i : Instance) (k : Capture) (db : Db)
      → capture_row db q.capture_id ≡ some k
      → Ran (thawed_by c vs q i k) db
  unfolding thawed_by
  thawed_by-Ran vs i k db found =
      Ran-if k.held _ _ db
        (λ _. Ran-checks _ _ db λ _.
          Ran-commits (λ d. done (release k d)) _ db
            λ db' h. (
              subst (Reach db) (done-injective h) (Reach-step (release-Step db q k found)),
              Ran-finish c q _ _ _ db',
            ))
        (λ _. Ran-finish c q _ _ _ db)

  thaw_context-found :
      (vs : Views) (db : Db) (i : Instance) (k : Capture)
      → thaw_context c vs q db ≡ done (i, k)
      → capture_row db q.capture_id ≡ some k
  unfolding thaw_context
  thaw_context-found vs db i k h = ground arith

  pub thaw-Ran : (vs : Views) (db : Db) → Ran (thaw c vs q) db
  unfolding thaw
  thaw-Ran vs db =
      Ran-reads (thaw_context c vs q) _ db
        λ (i, k) h. thawed_by-Ran (later 2 vs) i k db (thaw_context-found vs db i k h)
