-- ===== src/Worker/Start.antt =====
-- `_settle_start`, `_start` and `_resume_start` of console/worker.py.
use nexus_infra.Base.{
  ℕ, ◌+◌, ◌*◌, String, Bool, true, not, ◌&&◌, Option, none, some, str_eq, ltb, if◌then◌else◌,
}
use nexus_infra.Worker.State.{
  Request, Bundle, Config, Instance, Phase, prepared, starting, running, stopped, unknown,
  completed, failed, Receipt, Db, is_held, get_instance,
}
use nexus_infra.Worker.Host.{
  Fault, refused, Outcome, fault, done, demand, uncertain_error, Task, start_unit, verify_mount,
  verify_closure, check_state_dirs, render_runtime_files, View, Views, later, Show, show_unit,
  unit_drained, says, in_state, orphan_check,
}
use nexus_infra.Worker.Host as Host
use nexus_infra.Worker.Checks.{
  resolve, check_bundle_host, check_action_allowed, admission, require_binding_current, identified,
  check_generation_current,
}
use nexus_infra.Worker.Act.{
  Act, ◌>>=◌, ◌>>◌, raises, reads, commits, update, in_phase, settled, finish,
}

-- `_PERMIT_SECONDS`, in ticks
abbrev pub permit_time : ℕ
permit_time = 60 * 1000000

-- `_settle_start`
unfoldable pub settle_start : Config → View → Request → Instance → Option Show → Act Receipt
settle_start c v q i s =
    if in_state "active" s
    then (do
      commits (update i.instance_id (settled running))
      finish c q completed (some running) none)
    else if says true (unit_drained v s)
    then (do
      commits (update i.instance_id (settled stopped))
      finish c q failed (some stopped) (some "start-failed"))
    else (do commits (update i.instance_id (settled unknown)); raises uncertain_error)

-- The checks before the phase is looked at.
unfoldable pub start_checks : Config → View → Request → Db → Outcome (Instance × Bundle)
start_checks c v q db = Host.◌>>=◌ (identified db q) λ i.
    Host.◌>>◌ (demand (not i.retired) (refused "instance-retired")) (
      Host.◌>>=◌ (require_binding_current c i) λ binding.
        Host.◌>>=◌ (v.restore_pending i.instance_id) λ restoring.
          Host.◌>>◌ (demand (not restoring) (refused "restore-incomplete")) (
            Host.◌>>=◌ (resolve c i.workload_id i.revision_digest) λ b.
              Host.◌>>◌ (check_bundle_host c b) (
                Host.◌>>◌ (check_action_allowed b.definition "start" q.dependencies_resolved) (
                  Host.◌>>◌ (check_generation_current db i) (
                    Host.◌>>◌ (demand (not (is_held db i.workload_id)) (refused "capture-held"))
                      (done (i, b)))))))

-- The checks before the permit is given.
unfoldable pub launch_checks : Config → Views → Instance → Bundle → Db → Outcome (Unit {0})
launch_checks c vs i b db = Host.◌>>◌ ((vs 0).attempt verify_mount) (
    Host.◌>>◌ ((vs 1).attempt verify_closure) (
      Host.◌>>◌ (admission c db (vs 2) b.definition (get_instance db i.instance_id)) (
        Host.◌>>◌ (orphan_check db (later 5 vs)) (
          Host.◌>>◌ ((vs 3).attempt (check_state_dirs i.instance_id))
            ((vs 4).attempt (render_runtime_files i.instance_id))))))

-- SET phase='starting', permit=1, boot_id=?, permit_deadline=?
abbrev pub permitted : String → ℕ → Instance → Instance
permitted boot_id deadline i = record i {
  phase = starting;
  permit = true;
  boot_id = boot_id;
  permit_deadline = deadline;
}

-- Gives the permit, starts the unit and settles.
unfoldable pub launch : Config → Views → Request → Instance → Act Receipt
unfolding settle_start
launch c vs q i = do
  commits (update i.instance_id (permitted c.boot_id ((vs 0).monotonic + permit_time)))
  reads (λ db. (vs 1).attempt start_unit)
  settle_start c (vs 3) q i (show_unit (vs 2) i.machine_name)

unfoldable pub check_launch : Config → Views → Request → Instance → Bundle → Act Receipt
unfolding launch launch_checks
check_launch c vs q i b = do reads (launch_checks c (later 4 vs) i b); launch c vs q i

-- The phase "running" at the time of a start.
unfoldable pub start_running :
    Config → Views → Request → Instance → Bundle → Option Show → Act Receipt
unfolding check_launch
start_running c vs q i b none = raises uncertain_error
start_running c vs q i b (some s) =
    if in_state "active" (some s)
    then finish c q completed (some running) none
    else if says true (unit_drained (vs 0) (some s))
    then (do commits (update i.instance_id (in_phase stopped)); check_launch c (later 1 vs) q i b)
    else (do commits (update i.instance_id (in_phase unknown)); raises uncertain_error)

-- The rest of `_start`, by the phase.
unfoldable pub by_phase : Config → Views → Request → Instance → Bundle → Phase → Act Receipt
unfolding start_running check_launch
by_phase c vs q i b running = start_running c (later 1 vs) q i b (show_unit (vs 0) i.machine_name)
by_phase c vs q i b prepared = check_launch c vs q i b
by_phase c vs q i b stopped = check_launch c vs q i b
by_phase c vs q i b _ = raises (refused "phase-conflict")

-- `_start`
unfoldable pub start : Config → Views → Request → Act Receipt
unfolding start_checks by_phase
start c vs q = do (i, b) ← reads (start_checks c (vs 0) q); by_phase c (later 1 vs) q i b i.phase

-- Sets the phase "stopped" and reports the failure.
unfoldable pub start_failed : Config → Request → Instance → (Instance → Instance) → Act Receipt
start_failed c q i change = do
  commits (update i.instance_id change)
  finish c q failed (some stopped) (some "start-failed")

unfoldable pub resumed_running : Config → View → Request → Instance → Option Show → Act Receipt
unfolding start_failed
resumed_running c v q i none = raises uncertain_error
resumed_running c v q i (some s) =
    if in_state "active" (some s)
    then finish c q completed (some running) none
    else if says true (unit_drained v (some s))
    then start_failed c q i (in_phase stopped)
    else raises uncertain_error

unfoldable pub now_running : Config → Request → Instance → Act Receipt
now_running c q i = do
  commits (update i.instance_id (settled running))
  finish c q completed (some running) none

abbrev pub is_waiting : Option Show → Bool
is_waiting none = true
is_waiting (some s) = str_eq s.active_state "activating"

unfoldable pub resumed_unknown : Config → View → Request → Instance → Option Show → Act Receipt
unfolding start_failed now_running
resumed_unknown c v q i s =
    if is_waiting s
    then raises uncertain_error
    else if in_state "active" s
    then now_running c q i
    else if says true (unit_drained v s)
    then start_failed c q i (in_phase stopped)
    else raises uncertain_error

abbrev pub is_live : Config → ℕ → Instance → Bool
is_live c now i = i.permit && str_eq i.boot_id c.boot_id && ltb now i.permit_deadline

-- The phase "starting".
unfoldable pub resumed_starting : Config → Views → Request → Instance → Option Show → Act Receipt
unfolding start_failed now_running
resumed_starting c vs q i s =
    if in_state "active" s
    then now_running c q i
    else if is_waiting s
    then raises uncertain_error
    else if is_live c (vs 0).monotonic i
    then raises uncertain_error
    else if says true (unit_drained (vs 1) s)
    then start_failed c q i (settled stopped)
    else (do commits (update i.instance_id (settled unknown)); raises uncertain_error)

unfoldable pub resume_checks : Request → Db → Outcome Instance
resume_checks q db = Host.◌>>=◌ (identified db q) λ i.
    Host.◌>>◌ (demand (not i.retired) (refused "instance-retired"))
      (Host.◌>>◌ (demand (not (is_held db i.workload_id)) (refused "capture-held")) (done i))

-- The rest of `_resume_start`, by the phase and what the unit shows.
unfoldable pub resumed_by_phase :
    Config → Views → Request → Instance → Option Show → Phase → Act Receipt
unfolding start resumed_running resumed_unknown resumed_starting
resumed_by_phase c vs q i s prepared = start c (later 1 vs) q
resumed_by_phase c vs q i s running = resumed_running c (vs 1) q i s
resumed_by_phase c vs q i s stopped = finish c q failed (some stopped) (some "start-failed")
resumed_by_phase c vs q i s unknown = resumed_unknown c (vs 1) q i s
resumed_by_phase c vs q i s starting = resumed_starting c (later 1 vs) q i s
resumed_by_phase c vs q i s _ = raises (refused "phase-conflict")

-- `_resume_start`
unfoldable pub resume_start : Config → Views → Request → Act Receipt
unfolding resume_checks resumed_by_phase
resume_start c vs q = do
  i ← reads (resume_checks q)
  resumed_by_phase c vs q i (show_unit (vs 0) i.machine_name) i.phase
