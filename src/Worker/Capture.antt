-- ===== src/Worker/Capture.antt =====
-- `_capture_context`, `_freeze`, `_resume_freeze` and `_thaw` of console/worker.py.
use nexus_infra.Base.{
  Bool, true, false, not, ◌&&◌, ◌||◌, [], ◌∷◌, ◌++◌, Option, none, some, str_eq, ◌==◌,
  if◌then◌else◌, is_some,
}
use nexus_infra.Base.Strings.{mem}
use nexus_infra.Base.Table.{upsert}
use nexus_infra.Worker.State.{
  Request, Config, Instance, Phase, running, stopping, stopped, unknown, completed, Receipt,
  Capture, Db, is_held, capture_row,
}
use nexus_infra.Worker.Host.{
  Fault, refused, internal, Outcome, fault, done, demand, uncertain_error, Task, verify_mount,
  check_state_dirs, View, Views, later, show_unit, unit_drained, says,
}
use nexus_infra.Worker.Host as Host
use nexus_infra.Worker.Checks.{
  resolve, check_bundle_host, check_action_allowed, require_binding_current, identified,
  check_generation_current,
}
use nexus_infra.Worker.Act.{Act, ◌>>=◌, ◌>>◌, reads, commits, update, settled, finish}
use nexus_infra.Worker.Stop.{stop_unit_of, resume_stop}

-- `_capture_context`
unfoldable pub capture_context : Config → Views → Request → Db → Outcome Instance
capture_context c vs q db = Host.◌>>=◌ (identified db q) λ i.
    Host.◌>>=◌ (require_binding_current c i) λ binding.
      Host.◌>>=◌ (resolve c i.workload_id i.revision_digest) λ b.
        Host.◌>>◌ (check_action_allowed b.definition "stop" q.dependencies_resolved) (
          Host.◌>>◌
            (demand (mem "backup" b.definition.allowed_operations)
              (refused "operation-not-allowed"))
            (Host.◌>>◌ (check_bundle_host c b) (
              Host.◌>>◌ ((vs 0).attempt verify_mount)
                (Host.◌>>◌ ((vs 1).attempt (check_state_dirs i.instance_id)) (done i)))))

-- `_capture_matches`
abbrev pub capture_matches : Capture → Instance → Bool
capture_matches k i =
    str_eq k.instance_id i.instance_id
    && str_eq k.workload_id i.workload_id
    && str_eq k.revision_digest i.revision_digest
    && k.generation == i.generation

-- `_capture_context` and `_check_generation_current`
unfoldable pub freeze_checks : Config → Views → Request → Db → Outcome Instance
freeze_checks c vs q db =
    Host.◌>>=◌ (capture_context c vs q db) λ i. Host.◌>>◌ (check_generation_current db i) (done i)

unfoldable pub usable : Capture → Instance → Outcome (Unit {0})
usable k i =
    Host.◌>>◌ (demand (capture_matches k i) (refused "capture-conflict"))
      (demand k.held (refused "capture-released"))

abbrev is_still : Phase → Bool
is_still running = true
is_still stopped = true
is_still _ = false

abbrev pub captured : Request → Instance → Capture
captured q i = record {
  capture_id = q.capture_id;
  instance_id = i.instance_id;
  workload_id = i.workload_id;
  revision_digest = i.revision_digest;
  generation = i.generation;
  held = true;
}

-- INSERT INTO captures: the primary key, and the unique index `held_workload_capture`.
unfoldable pub insert_capture : Capture → Db → Outcome Db
insert_capture k db =
    if is_some (capture_row db k.capture_id) || is_held db k.workload_id
    then fault internal
    else done (record db { captures = db.captures ++ k ∷ [] })

-- The two statements that `_freeze` commits.
unfoldable pub hold : Request → Instance → Db → Outcome Db
unfolding insert_capture
hold q i db =
    Host.◌>>=◌ (insert_capture (captured q i) db) (update i.instance_id (settled stopping))

new_checks : Instance → Db → Outcome (Unit {0})
new_checks i db =
    Host.◌>>◌ (demand (not (is_held db i.workload_id)) (refused "capture-conflict"))
      (demand (is_still i.phase) (refused "phase-conflict"))

-- A capture that is not there.
unfoldable pub freeze_new : Config → Views → Request → Instance → Act Receipt
unfolding new_checks hold
freeze_new c vs q i = do reads (new_checks i); commits (hold q i); stop_unit_of c vs q i

-- A capture that is there, for which `_resume_freeze` makes all its checks.
unfoldable pub refreeze : Config → Views → Request → Capture → Act Receipt
unfolding usable
refreeze c vs q k = do
  i ← reads (freeze_checks c vs q)
  reads (λ db. usable k i)
  resume_stop c (later 2 vs) q

unfoldable pub frozen_by : Config → Views → Request → Instance → Option Capture → Act Receipt
unfolding freeze_new refreeze usable
frozen_by c vs q i none = freeze_new c vs q i
frozen_by c vs q i (some k) = do reads (λ db. usable k i); refreeze c vs q k

-- `_freeze`
unfoldable pub freeze : Config → Views → Request → Act Receipt
unfolding frozen_by
freeze c vs q = do
  i ← reads (freeze_checks c vs q)
  k ← reads (λ db. done (capture_row db q.capture_id))
  frozen_by c (later 2 vs) q i k

unfoldable pub refrozen_by : Config → Views → Request → Instance → Option Capture → Act Receipt
unfolding freeze usable
refrozen_by c vs q i none = freeze c vs q
refrozen_by c vs q i (some k) = do reads (λ db. usable k i); resume_stop c vs q

-- `_resume_freeze`
unfoldable pub resume_freeze : Config → Views → Request → Act Receipt
unfolding refrozen_by
resume_freeze c vs q = do
  i ← reads (freeze_checks c vs q)
  k ← reads (λ db. done (capture_row db q.capture_id))
  refrozen_by c (later 2 vs) q i k

-- UPDATE captures SET status='released'
abbrev pub release : Capture → Db → Db
release k db = record db {
  captures = upsert (λ t. t.capture_id) (record k { held = false }) db.captures;
}

abbrev is_unknown : Phase → Bool
is_unknown unknown = true
is_unknown _ = false

abbrev is_stopped : Phase → Bool
is_stopped stopped = true
is_stopped _ = false

-- What `_thaw` asks of an instance whose capture is held.
unfoldable pub thaw_checks : Instance → Option Bool → Outcome (Unit {0})
thaw_checks i drained = Host.◌>>◌ (demand (not (is_unknown i.phase)) uncertain_error) (
    Host.◌>>◌ (demand (is_stopped i.phase && not i.permit) (refused "phase-conflict")) (
      Host.◌>>◌ (demand (not (says false drained)) (refused "phase-conflict"))
        (demand (says true drained) uncertain_error)))

unfoldable pub thawed_by : Config → Views → Request → Instance → Capture → Act Receipt
unfolding thaw_checks
thawed_by c vs q i k =
    if k.held
    then (do
      reads (λ db. thaw_checks i (unit_drained (vs 1) (show_unit (vs 0) i.machine_name)))
      commits (λ db. done (release k db))
      finish c q completed (some stopped) none)
    else finish c q completed (some i.phase) none

unfoldable pub thaw_context : Config → Views → Request → Db → Outcome (Instance × Capture)
thaw_context c vs q db = Host.◌>>=◌ (capture_context c vs q db) λ i.
    Host.◌>>=◌ (Host.or_fault (capture_row db q.capture_id) (refused "capture-missing"))
      λ k. Host.◌>>◌ (demand (capture_matches k i) (refused "capture-conflict")) (done (i, k))

-- `_thaw`
unfoldable pub thaw : Config → Views → Request → Act Receipt
unfolding thaw_context thawed_by
thaw c vs q = do (i, k) ← reads (thaw_context c vs q); thawed_by c (later 2 vs) q i k
