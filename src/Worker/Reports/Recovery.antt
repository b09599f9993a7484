-- ===== src/Worker/Reports/Recovery.antt =====
-- A stop that is repeated after it was interrupted.
use nexus_infra.Base.{String, str_eq, true, false, none, some, ◌≡◌}
use nexus_infra.Base.Table.{upsert}
use nexus_infra.Worker.State as State
use nexus_infra.Worker.State.{
  Request, Config, stopped, completed, Instance, Receipt, Operation, Db, get_instance,
  operation_row,
}
use nexus_infra.Worker.Host.{done, Views, show_unit, unit_drained, says}
use nexus_infra.Worker.Checks.{identified}
use nexus_infra.Worker.Act.{Act, put, settled, receipt, finished, is_pending}
use nexus_infra.Worker.Stop.{retire, is_early}
use nexus_infra.Worker.Execute as Execute
use nexus_infra.Worker.Execute.{Answers}
use nexus_infra.Json.Value.{Value}

-- The row of the request after the stop, and its operation in the journal.
abbrev stopped_db : Db → Instance → Operation → Receipt → Db
stopped_db db i o a = record (put db (settled stopped i)) {
  operations = upsert (λ t. t.operation_id) (finished o a) db.operations;
}

module _ (c : Config) (q : Request) (vs : Views) (db : Db) (i : Instance) (o : Operation)
    (here_ : get_instance db i.instance_id ≡ some i) (known : identified db q ≡ done i)
    (late : is_early i.phase ≡ false) (asked : operation_row db q.operation_id ≡ some o)
    (waiting : is_pending o.status ≡ true)
    (drained : says true (unit_drained (vs 1) (show_unit (vs 0) i.machine_name)) ≡ true) where
  abbrev answer : Receipt
  answer = receipt c (put db (settled stopped i)) q completed (some stopped) none

-- What a request asks for that ends in a stopped unit: a stop, or a retirement that was recorded.
pub data Ending (q : Request) (i : Instance) : Type 0 where
  stops : q.action ≡ State.stop → Ending q i
  retires : q.action ≡ State.retire → i.retired ≡ true → Ending q i

-- The end of such a request: the receipt, the row of the instance, the row of the journal, and that
-- the other instances are as before.
pub record Ended (q : Request) (i : Instance) (o : Operation) (db : Db) (a : Receipt) (db' : Db)
    : Type 0 where
  pub for_operation : a.operation_id ≡ q.operation_id
  pub for_instance : a.instance_id ≡ q.instance_id
  pub is_completed : a.status ≡ completed
  pub in_stopped : a.applied_phase ≡ some stopped
  pub without_error : a.error ≡ none
  pub row_stopped :
      get_instance db' q.instance_id ≡ some (record i { phase = stopped; permit = false })
  pub row_finished :
      operation_row db' q.operation_id ≡ some (record o { status = completed; result = some a })
  pub others :
      (k : String) → str_eq q.instance_id k ≡ false → get_instance db' k ≡ get_instance db k

module _ (c : Config) (vss : Answers) (q : Request) (db : Db) (i : Instance) (o : Operation)
    (ending : Ending q i) (known : identified db q ≡ done i) (late : is_early i.phase ≡ false)
    (asked : operation_row db q.operation_id ≡ some o) (waiting : is_pending o.status ≡ true)
    (drained : says true (unit_drained (vss 0 1) (show_unit (vss 0 0) i.machine_name)) ≡ true) where
  abbrev final : Receipt
  final = receipt c (put db (settled stopped i)) q completed (some stopped) none
