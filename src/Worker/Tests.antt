-- ===== src/Worker/Tests.antt =====
-- The theorems at a host with one workload.
use nexus_infra.Base.{ℕ, List, [], ◌∷◌, some, none, ◌≡◌, refl, ap, true, false, if◌then◌else◌}
use nexus_infra.Json.Value.{canonical}
use nexus_infra.Json.Equality.{same}
use nexus_infra.Worker.State.{get_instance}
use nexus_infra.Worker.Host.{Outcome, done, fault, refused}
use nexus_infra.Worker.Prepare.{machine_name, is_newer}
use nexus_infra.Worker.Checks.{known_generation}
use nexus_infra.Worker.Reconcile.{reconcile}
use nexus_infra.Worker.Execute.{execute, dispatch, resume, guard, Answer, receipt}
use nexus_infra.Worker.Safe.{IsSafe}
use nexus_infra.Worker.Reports.{Reported}
use nexus_infra.Worker.Reports.Dispatch.{dispatch-Reported, resume-Reported}
use nexus_infra.Worker.State.{stopped, Instance}
use nexus_infra.Worker.Act.{put, settled, receipt as receipt_of}
use nexus_infra.Worker.History.{run, empty_db}
use nexus_infra.Worker.History.Safety.{run-IsSafe}
use nexus_infra.Worker.History.Instances.{Lasts, run-Lasts, run-newer}
use nexus_infra.Worker.History.Journal.{run-replay}
use nexus_infra.Worker.History.Guarding.{Guarded, guard-Guarded}
use nexus_infra.Worker.World.{
  config, answers, call, history, prepares, prepare_request, prepare_receipt, prepare_row,
  prepared_db, web_instance,
}
use nexus_infra.Registry.World.{hex}

run-IsSafe_example : IsSafe (run history empty_db)
run-IsSafe_example = run-IsSafe history

run-Lasts_example : Lasts (run history prepared_db) web_instance
run-Lasts_example = run-Lasts history prepared_db web_instance refl

prepares-run : run (prepares ∷ []) empty_db ≡ prepared_db
unfolding nexus_infra.Base.Table.upsert nexus_infra.Base.Strings.is_identifier
    nexus_infra.Base.Strings.is_hex32 nexus_infra.Base.Strings.is_digest
    nexus_infra.Json.Checks.item nexus_infra.Json.Checks.hex32 nexus_infra.Json.Checks.digest
    nexus_infra.Json.Checks.integer nexus_infra.Json.Checks.id_list
    nexus_infra.Catalog.Admission.missing nexus_infra.Catalog.Admission.shortages
    nexus_infra.Catalog.Admission.report_reasons nexus_infra.Catalog.Admission.reasons_against
    nexus_infra.Worker.Host.orphan_check nexus_infra.Worker.Request.core_names
    nexus_infra.Worker.Request.validate_request nexus_infra.Worker.Checks.resolve
    nexus_infra.Worker.Checks.check_bundle_host nexus_infra.Worker.Checks.check_action_allowed
    nexus_infra.Worker.Checks.reserved_by nexus_infra.Worker.Checks.reservation_map
    nexus_infra.Worker.Checks.admission nexus_infra.Worker.Checks.require_binding_current
    nexus_infra.Worker.Checks.check_workload_drained nexus_infra.Worker.Checks.free_slot
    nexus_infra.Worker.Act.◌>>◌ nexus_infra.Worker.Act.raises nexus_infra.Worker.Act.reads
    nexus_infra.Worker.Act.commits nexus_infra.Worker.Act.put_free nexus_infra.Worker.Act.update
    nexus_infra.Worker.Act.receipt nexus_infra.Worker.Act.finish_row nexus_infra.Worker.Act.finish
    nexus_infra.Worker.Act.uncertainly nexus_infra.Worker.Prepare.machine_name
    nexus_infra.Worker.Prepare.bump nexus_infra.Worker.Prepare.insert_instance
    nexus_infra.Worker.Prepare.resume_row nexus_infra.Worker.Prepare.fresh_row
    nexus_infra.Worker.Prepare.row_checks nexus_infra.Worker.Prepare.prepare_checks
    nexus_infra.Worker.Prepare.slot_checks nexus_infra.Worker.Prepare.mark_prepared
    nexus_infra.Worker.Prepare.build nexus_infra.Worker.Prepare.rebuild
    nexus_infra.Worker.Prepare.prepare_row nexus_infra.Worker.Prepare.prepare
    nexus_infra.Worker.Reconcile.starting_now nexus_infra.Worker.Reconcile.stopping_now
    nexus_infra.Worker.Reconcile.running_now nexus_infra.Worker.Reconcile.unknown_now
    nexus_infra.Worker.Reconcile.observed_in nexus_infra.Worker.Reconcile.reconcile_rows
    nexus_infra.Worker.Reconcile.reconcile nexus_infra.Worker.Execute.handled
    nexus_infra.Worker.Execute.guarded nexus_infra.Worker.Execute.action_of
    nexus_infra.Worker.Execute.resumption_of nexus_infra.Worker.Execute.perform
    nexus_infra.Worker.Execute.resume nexus_infra.Worker.Execute.pending_of
    nexus_infra.Worker.Execute.insert_operation nexus_infra.Worker.Execute.begin
    nexus_infra.Worker.Execute.settle_pending nexus_infra.Worker.Execute.recall
    nexus_infra.Worker.Execute.dispatched nexus_infra.Worker.Execute.dispatch
    nexus_infra.Worker.Execute.observe nexus_infra.Worker.Execute.answer_call
    nexus_infra.Worker.Execute.called nexus_infra.Worker.Execute.execute
    nexus_infra.Worker.Execute.guard_checks nexus_infra.Worker.Execute.may_consume
    nexus_infra.Worker.Execute.consumed nexus_infra.Worker.Execute.checked
    nexus_infra.Worker.Execute.guard_row nexus_infra.Worker.Execute.named
    nexus_infra.Worker.Execute.machine_row nexus_infra.Worker.Execute.guard
    nexus_infra.Worker.History.step nexus_infra.Worker.History.run
prepares-run = refl

prepares-dispatch :
    dispatch config (answers "inactive") prepare_row.text prepare_request empty_db
    ≡ (done prepare_receipt, prepared_db)
unfolding nexus_infra.Base.Table.upsert nexus_infra.Base.Strings.is_identifier
    nexus_infra.Base.Strings.is_hex32 nexus_infra.Base.Strings.is_digest
    nexus_infra.Json.Checks.item nexus_infra.Json.Checks.hex32 nexus_infra.Json.Checks.digest
    nexus_infra.Json.Checks.integer nexus_infra.Json.Checks.id_list
    nexus_infra.Catalog.Admission.missing nexus_infra.Catalog.Admission.shortages
    nexus_infra.Catalog.Admission.report_reasons nexus_infra.Catalog.Admission.reasons_against
    nexus_infra.Worker.Host.orphan_check nexus_infra.Worker.Request.core_names
    nexus_infra.Worker.Request.validate_request nexus_infra.Worker.Checks.resolve
    nexus_infra.Worker.Checks.check_bundle_host nexus_infra.Worker.Checks.check_action_allowed
    nexus_infra.Worker.Checks.reserved_by nexus_infra.Worker.Checks.reservation_map
    nexus_infra.Worker.Checks.admission nexus_infra.Worker.Checks.require_binding_current
    nexus_infra.Worker.Checks.check_workload_drained nexus_infra.Worker.Checks.free_slot
    nexus_infra.Worker.Act.◌>>◌ nexus_infra.Worker.Act.raises nexus_infra.Worker.Act.reads
    nexus_infra.Worker.Act.commits nexus_infra.Worker.Act.put_free nexus_infra.Worker.Act.update
    nexus_infra.Worker.Act.receipt nexus_infra.Worker.Act.finish_row nexus_infra.Worker.Act.finish
    nexus_infra.Worker.Act.uncertainly nexus_infra.Worker.Prepare.machine_name
    nexus_infra.Worker.Prepare.bump nexus_infra.Worker.Prepare.insert_instance
    nexus_infra.Worker.Prepare.resume_row nexus_infra.Worker.Prepare.fresh_row
    nexus_infra.Worker.Prepare.row_checks nexus_infra.Worker.Prepare.prepare_checks
    nexus_infra.Worker.Prepare.slot_checks nexus_infra.Worker.Prepare.mark_prepared
    nexus_infra.Worker.Prepare.build nexus_infra.Worker.Prepare.rebuild
    nexus_infra.Worker.Prepare.prepare_row nexus_infra.Worker.Prepare.prepare
    nexus_infra.Worker.Reconcile.starting_now nexus_infra.Worker.Reconcile.stopping_now
    nexus_infra.Worker.Reconcile.running_now nexus_infra.Worker.Reconcile.unknown_now
    nexus_infra.Worker.Reconcile.observed_in nexus_infra.Worker.Reconcile.reconcile_rows
    nexus_infra.Worker.Reconcile.reconcile nexus_infra.Worker.Execute.handled
    nexus_infra.Worker.Execute.guarded nexus_infra.Worker.Execute.action_of
    nexus_infra.Worker.Execute.resumption_of nexus_infra.Worker.Execute.perform
    nexus_infra.Worker.Execute.resume nexus_infra.Worker.Execute.pending_of
    nexus_infra.Worker.Execute.insert_operation nexus_infra.Worker.Execute.begin
    nexus_infra.Worker.Execute.settle_pending nexus_infra.Worker.Execute.recall
    nexus_infra.Worker.Execute.dispatched nexus_infra.Worker.Execute.dispatch
    nexus_infra.Worker.Execute.observe nexus_infra.Worker.Execute.answer_call
    nexus_infra.Worker.Execute.called nexus_infra.Worker.Execute.execute
    nexus_infra.Worker.Execute.guard_checks nexus_infra.Worker.Execute.may_consume
    nexus_infra.Worker.Execute.consumed nexus_infra.Worker.Execute.checked
    nexus_infra.Worker.Execute.guard_row nexus_infra.Worker.Execute.named
    nexus_infra.Worker.Execute.machine_row nexus_infra.Worker.Execute.guard
    nexus_infra.Worker.History.step nexus_infra.Worker.History.run
prepares-dispatch = refl

prepares-resume :
    resume config (answers "inactive") prepare_request prepared_db
    ≡ (done prepare_receipt, prepared_db)
unfolding nexus_infra.Base.Table.upsert nexus_infra.Base.Strings.is_identifier
    nexus_infra.Base.Strings.is_hex32 nexus_infra.Base.Strings.is_digest
    nexus_infra.Json.Checks.item nexus_infra.Json.Checks.hex32 nexus_infra.Json.Checks.digest
    nexus_infra.Json.Checks.integer nexus_infra.Json.Checks.id_list
    nexus_infra.Catalog.Admission.missing nexus_infra.Catalog.Admission.shortages
    nexus_infra.Catalog.Admission.report_reasons nexus_infra.Catalog.Admission.reasons_against
    nexus_infra.Worker.Host.orphan_check nexus_infra.Worker.Request.core_names
    nexus_infra.Worker.Request.validate_request nexus_infra.Worker.Checks.resolve
    nexus_infra.Worker.Checks.check_bundle_host nexus_infra.Worker.Checks.check_action_allowed
    nexus_infra.Worker.Checks.reserved_by nexus_infra.Worker.Checks.reservation_map
    nexus_infra.Worker.Checks.admission nexus_infra.Worker.Checks.require_binding_current
    nexus_infra.Worker.Checks.check_workload_drained nexus_infra.Worker.Checks.free_slot
    nexus_infra.Worker.Act.◌>>◌ nexus_infra.Worker.Act.raises nexus_infra.Worker.Act.reads
    nexus_infra.Worker.Act.commits nexus_infra.Worker.Act.put_free nexus_infra.Worker.Act.update
    nexus_infra.Worker.Act.receipt nexus_infra.Worker.Act.finish_row nexus_infra.Worker.Act.finish
    nexus_infra.Worker.Act.uncertainly nexus_infra.Worker.Prepare.machine_name
    nexus_infra.Worker.Prepare.bump nexus_infra.Worker.Prepare.insert_instance
    nexus_infra.Worker.Prepare.resume_row nexus_infra.Worker.Prepare.fresh_row
    nexus_infra.Worker.Prepare.row_checks nexus_infra.Worker.Prepare.prepare_checks
    nexus_infra.Worker.Prepare.slot_checks nexus_infra.Worker.Prepare.mark_prepared
    nexus_infra.Worker.Prepare.build nexus_infra.Worker.Prepare.rebuild
    nexus_infra.Worker.Prepare.prepare_row nexus_infra.Worker.Prepare.prepare
    nexus_infra.Worker.Reconcile.starting_now nexus_infra.Worker.Reconcile.stopping_now
    nexus_infra.Worker.Reconcile.running_now nexus_infra.Worker.Reconcile.unknown_now
    nexus_infra.Worker.Reconcile.observed_in nexus_infra.Worker.Reconcile.reconcile_rows
    nexus_infra.Worker.Reconcile.reconcile nexus_infra.Worker.Execute.handled
    nexus_infra.Worker.Execute.guarded nexus_infra.Worker.Execute.action_of
    nexus_infra.Worker.Execute.resumption_of nexus_infra.Worker.Execute.perform
    nexus_infra.Worker.Execute.resume nexus_infra.Worker.Execute.pending_of
    nexus_infra.Worker.Execute.insert_operation nexus_infra.Worker.Execute.begin
    nexus_infra.Worker.Execute.settle_pending nexus_infra.Worker.Execute.recall
    nexus_infra.Worker.Execute.dispatched nexus_infra.Worker.Execute.dispatch
    nexus_infra.Worker.Execute.observe nexus_infra.Worker.Execute.answer_call
    nexus_infra.Worker.Execute.called nexus_infra.Worker.Execute.execute
    nexus_infra.Worker.Execute.guard_checks nexus_infra.Worker.Execute.may_consume
    nexus_infra.Worker.Execute.consumed nexus_infra.Worker.Execute.checked
    nexus_infra.Worker.Execute.guard_row nexus_infra.Worker.Execute.named
    nexus_infra.Worker.Execute.machine_row nexus_infra.Worker.Execute.guard
    nexus_infra.Worker.History.step nexus_infra.Worker.History.run
prepares-resume = refl

run-newer_example : is_newer none 1 ≡ true
run-newer_example =
    run-newer (prepares ∷ []) empty_db web_instance (ap (λ d. get_instance d hex) prepares-run) refl

run-replay_example :
    execute config (answers "active") (call "prepare" hex hex) (run history prepared_db) ≡ (
      if same prepare_row.text (canonical (call "prepare" hex hex))
          then done (receipt prepare_receipt)
          else fault (refused "operation-conflict"),
      reconcile config (answers "active" 0) (run history prepared_db),
    )
unfolding nexus_infra.Base.Strings.is_identifier nexus_infra.Base.Strings.is_hex32
    nexus_infra.Base.Strings.is_digest nexus_infra.Json.Checks.item nexus_infra.Json.Checks.hex32
    nexus_infra.Json.Checks.digest nexus_infra.Json.Checks.integer nexus_infra.Json.Checks.id_list
    nexus_infra.Worker.Request.core_names nexus_infra.Worker.Request.validate_request
run-replay_example =
    run-replay history prepared_db prepare_row prepare_receipt refl refl refl config
      (answers "active") (call "prepare" hex hex) prepare_request refl refl

guard-Guarded_example :
    Guarded config
      (answers "active" 0)
      (machine_name hex)
      prepared_db
      (guard config (answers "active" 0) (machine_name hex) prepared_db)
guard-Guarded_example = guard-Guarded config (answers "active" 0) (machine_name hex) prepared_db

dispatch-Reported_example : Reported prepare_request prepared_db prepare_receipt
dispatch-Reported_example =
    dispatch-Reported config (answers "inactive") prepare_row.text prepare_request empty_db
      prepared_db prepare_receipt refl prepares-dispatch

resume-Reported_example : Reported prepare_request prepared_db prepare_receipt
resume-Reported_example =
    resume-Reported config (answers "inactive") prepare_request prepared_db prepared_db
      prepare_receipt prepares-resume

-- `_reconcile` has found the unit down.
abbrev down_instance : Instance
down_instance = record web_instance { phase = stopped }
