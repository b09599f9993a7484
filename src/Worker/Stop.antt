-- ===== src/Worker/Stop.antt =====
-- `_settle_stop`, `_stop`, `_resume_stop`, `_retire` and `_resume_retire` of console/worker.py.
use nexus_infra.Base.{Bool, true, false, ◌&&◌, Option, none, some, if◌then◌else◌}
use nexus_infra.Worker.State.{
  Request, Config, Instance, Phase, preparing, starting, stopping, stopped, unknown, completed,
  Receipt, Db,
}
use nexus_infra.Worker.Host.{
  Fault, refused, Outcome, fault, done, demand, uncertain_error, Task, start_unit, stop_unit, View,
  Views, later, Show, show_unit, unit_drained, says,
}
use nexus_infra.Worker.Host as Host
use nexus_infra.Worker.Checks.{resolve, check_action_allowed, identified}
use nexus_infra.Worker.Act.{Act, ◌>>=◌, ◌>>◌, raises, reads, commits, update, settled, finish}

-- `_issue_stop`, after which `systemctl show` is asked at the next view
unfoldable pub issue_stop : View → Act (Unit {0})
issue_stop v = reads (λ db. v.attempt stop_unit)

-- `_settle_stop`
unfoldable pub settle_stop : Config → View → Request → Instance → Option Show → Act Receipt
settle_stop c v q i s =
    if says true (unit_drained v s)
    then (do
      commits (update i.instance_id (settled stopped))
      finish c q completed (some stopped) none)
    else (do commits (update i.instance_id (settled unknown)); raises uncertain_error)

-- The commands of a stop, and what comes of them.
unfoldable pub stop_unit_of : Config → Views → Request → Instance → Act Receipt
unfolding issue_stop settle_stop
stop_unit_of c vs q i = do
  issue_stop (vs 0)
  settle_stop c (vs 2) q i (show_unit (vs 1) i.machine_name)

unfoldable pub stop_checks : Config → Request → Db → Outcome Instance
stop_checks c q db = Host.◌>>=◌ (identified db q) λ i.
    Host.◌>>=◌ (resolve c i.workload_id i.revision_digest)
      λ b. Host.◌>>◌ (check_action_allowed b.definition "stop" q.dependencies_resolved) (done i)

abbrev pub is_early : Phase → Bool
is_early preparing = true
is_early starting = true
is_early _ = false

abbrev pub is_stopped : Phase → Bool
is_stopped stopped = true
is_stopped _ = false

-- Sets the phase "stopping" and stops the unit.
unfoldable pub stop_now : Config → Views → Request → Instance → Act Receipt
unfolding stop_unit_of
stop_now c vs q i = do commits (update i.instance_id (settled stopping)); stop_unit_of c vs q i

-- `_stop`
unfoldable pub stop : Config → Views → Request → Act Receipt
unfolding stop_checks stop_now
stop c vs q = do
  i ← reads (stop_checks c q)
  if is_early i.phase
      then raises (refused "phase-conflict")
      else if is_stopped i.phase
          && says true (unit_drained (vs 1) (show_unit (vs 0) i.machine_name))
      then finish c q completed (some stopped) none
      else stop_now c (later 2 vs) q i

unfoldable pub again : Config → Views → Request → Instance → Option Show → Act Receipt
unfolding stop_now
again c vs q i s =
    if says true (unit_drained (vs 0) s)
    then (do
      commits (update i.instance_id (settled stopped))
      finish c q completed (some stopped) none)
    else elim s [ none ↦ raises uncertain_error | some w ↦ stop_now c (later 1 vs) q i ]

-- `_resume_stop`
unfoldable pub resume_stop : Config → Views → Request → Act Receipt
unfolding again
resume_stop c vs q = do
  i ← reads (λ db. identified db q)
  if is_early i.phase
      then raises (refused "phase-conflict")
      else again c (later 1 vs) q i (show_unit (vs 0) i.machine_name)

abbrev pub retiring : Instance → Instance
retiring i = record i { retired = true; permit = false; phase = stopping }

-- `_retire`
unfoldable pub retire : Config → Views → Request → Act Receipt
unfolding stop_checks stop_unit_of
retire c vs q = do
  i ← reads (stop_checks c q)
  commits (update i.instance_id retiring)
  stop_unit_of c vs q i

-- `_resume_retire`
unfoldable pub resume_retire : Config → Views → Request → Act Receipt
unfolding retire resume_stop
resume_retire c vs q = do
  i ← reads (λ db. identified db q)
  if i.retired then resume_stop c vs q else retire c vs q
