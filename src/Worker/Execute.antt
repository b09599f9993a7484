-- ===== src/Worker/Execute.antt =====
-- `_run`, `_resume`, `execute`, `_observe` and `guard` of console/worker.py.
use nexus_infra.Base.{
  ℕ, String, Bool, true, false, not, ◌&&◌, ◌||◌, List, [], ◌∷◌, ◌++◌, Option, none, some, str_eq,
  ltb, if◌then◌else◌, is_some,
}
use nexus_infra.Base.Table.{row}
use nexus_infra.Json.Value.{Value, canonical}
use nexus_infra.Json.Equality.{same}
use nexus_infra.Worker.State.{
  Action, prepare, adopt, start, stop, retire, freeze, thaw, Request, Config, Instance, Phase,
  starting, pending, failed, uncertain, Receipt, Operation, Capture, Db, get_instance,
  operation_row, is_held, capture_of,
}
use nexus_infra.Worker.Host.{
  Fault, refused, doubtful, internal, Outcome, fault, done, demand, or_fault, Task, verify_mount,
  check_state_dirs, check_runtime_files, View, Views, later, Show, show_unit, unit_drained,
}
use nexus_infra.Worker.Host as Host
use nexus_infra.Worker.Request.{Call, observes, performs, validate_request}
use nexus_infra.Worker.Checks.{
  resolve, check_bundle_host, check_action_allowed, require_binding_current, binding_status,
  known_generation, is_known,
}
use nexus_infra.Worker.Act.{
  Act, ◌>>=◌, ◌>>◌, raises, reads, commits, put, finish, uncertainly, is_pending,
}
use nexus_infra.Worker.Prepare as Prepare
use nexus_infra.Worker.Start as Start
use nexus_infra.Worker.Stop as Stop
use nexus_infra.Worker.Capture as Capture
use nexus_infra.Worker.Reconcile.{reconcile}

-- The answers of the host: a stream of streams of views.
abbrev pub Answers : Type 0
Answers = ℕ → Views

unfoldable pub handled : Config → Request → Outcome Receipt × Db → Outcome Receipt × Db
handled c q (done a, db) = (done a, db)
handled c q (fault (doubtful code), db) = uncertainly c q code db
handled c q (fault (refused code), db) = finish c q failed none (some code) db
handled c q (fault internal, db) = uncertainly c q "internal-error" db

-- The `except` clauses of `_run` and `_resume`.
unfoldable pub guarded : Config → Request → Act Receipt → Act Receipt
unfolding handled
guarded c q m db = handled c q (m db)

unfoldable pub action_of : Config → Answers → Request → Action → Act Receipt
action_of c vss q prepare = Prepare.prepare c false vss q
action_of c vss q adopt = Prepare.prepare c true vss q
action_of c vss q start = Start.start c (vss 0) q
action_of c vss q stop = Stop.stop c (vss 0) q
action_of c vss q retire = Stop.retire c (vss 0) q
action_of c vss q freeze = Capture.freeze c (vss 0) q
action_of c vss q thaw = Capture.thaw c (vss 0) q

unfoldable pub resumption_of : Config → Answers → Request → Action → Act Receipt
resumption_of c vss q prepare = Prepare.prepare c false vss q
resumption_of c vss q adopt = Prepare.prepare c true vss q
resumption_of c vss q start = Start.resume_start c (vss 0) q
resumption_of c vss q stop = Stop.resume_stop c (vss 0) q
resumption_of c vss q retire = Stop.resume_retire c (vss 0) q
resumption_of c vss q freeze = Capture.resume_freeze c (vss 0) q
resumption_of c vss q thaw = Capture.thaw c (vss 0) q

-- `_run`
unfoldable pub perform : Config → Answers → Request → Act Receipt
perform c vss q = guarded c q (action_of c vss q q.action)

-- `_resume`
unfoldable pub resume : Config → Answers → Request → Act Receipt
resume c vss q = guarded c q (resumption_of c vss q q.action)

abbrev pub later_answers : ℕ → Answers → Answers
later_answers n vss = λ k. vss (Prim.Native.Nat.◌+◌ n k)

unfoldable pub pending_of : List Operation → List Operation
pending_of [] = []
pending_of (o ∷ os) = let rest = pending_of os in if is_pending o.status then o ∷ rest else rest

abbrev pub conflicts : Request → Operation → Bool
conflicts q o =
    str_eq o.request.instance_id q.instance_id || str_eq o.request.workload_id q.workload_id

abbrev pub is_uncertain : Receipt → Bool
is_uncertain a = elim a.status [ uncertain ↦ true | _ ↦ false ]

abbrev pub new_operation : Value → Request → Operation
new_operation text q = record {
  operation_id = q.operation_id;
  text = text;
  request = q;
  status = pending;
  result = none;
}

-- INSERT INTO operations, whose key is the name of the operation
unfoldable pub insert_operation : Value → Request → Db → Outcome Db
insert_operation text q db =
    if is_some (operation_row db q.operation_id)
    then fault internal
    else done (record db { operations = db.operations ++ new_operation text q ∷ [] })

-- INSERT INTO operations and `_run`
unfoldable pub begin : Config → Answers → Value → Request → Act Receipt
begin c vss text q = commits (insert_operation text q) >> perform c vss q

-- The loop over the pending operations of the same instance or workload.
unfoldable pub settle_pending : Config → Answers → Value → Request → List Operation → Act Receipt
settle_pending c vss text q [] = begin c vss text q
settle_pending c vss text q (o ∷ os) =
    let rest = settle_pending c (later_answers 3 vss) text q os in
    let resumed = resume c (later_answers 0 vss) o.request >>= λ a.
    if is_uncertain a then uncertainly c q "operation-in-progress" else rest in
    if conflicts q o then resumed else rest

unfoldable pub recall : Config → Answers → Value → Operation → Act Receipt
recall c vss text o =
    if not (same o.text text)
    then raises (refused "operation-conflict")
    else if is_pending o.status
    then resume c vss o.request
    else reads (λ db. or_fault o.result internal)

-- `execute` after `_reconcile`
unfoldable pub dispatched : Config → Answers → Value → Request → Option Operation → Act Receipt
unfolding recall
dispatched c vss text q (some o) db = recall c vss text o db
dispatched c vss text q none db = settle_pending c vss text q (pending_of db.operations) db

-- `execute` after `_reconcile`
unfoldable pub dispatch : Config → Answers → Value → Request → Act Receipt
dispatch c vss text q db = dispatched c vss text q (operation_row db q.operation_id) db

-- What `_observe` tells of an instance.
pub record Observation : Type 0 where
  pub instance : Instance
  pub binding_current : Bool
  pub active_state : Option Show
  pub unit_drained : Option Bool
  pub capture : Option Capture
  pub restore_pending : Bool

restoring : View → Instance → Outcome Bool
restoring v i = if is_some i.binding then v.restore_pending i.instance_id else done false

-- `_observe`
unfoldable pub observe : Config → Views → String → Db → Outcome Observation
unfolding restoring
observe c vs id db = Host.◌>>=◌ (or_fault (get_instance db id) (refused "unknown-instance")) λ i.
    let s = show_unit (vs 0) i.machine_name in
    Host.◌>>=◌ (restoring (vs 2) i) λ waiting. done (record {
      instance = i;
      binding_current = binding_status c i;
      active_state = s;
      unit_drained = unit_drained (vs 1) s;
      capture = capture_of db i.instance_id;
      restore_pending = waiting;
    })

pub data Answer : Type 0 where
  shown : Observation → Answer
  receipt : Receipt → Answer

unfoldable pub answer_call : Config → Answers → Value → Call → Act Answer
answer_call c vss v (observes id) =
    reads (observe c (vss 1) id) >>= λ o. reads (λ db. done (shown o))
answer_call c vss v (performs q) =
    dispatch c (later_answers 1 vss) (canonical v) q >>= λ a. reads (λ db. done (receipt a))

unfoldable pub called : Config → Answers → Value → Outcome Call → Act Answer
unfolding answer_call
called c vss v (fault e) db = (fault e, db)
called c vss v (done call) db = answer_call c vss v call (reconcile c (vss 0) db)

-- `execute`
unfoldable pub execute : Config → Answers → Value → Act Answer
unfolding called
execute c vss v = called c vss v (validate_request v)

abbrev pub is_starting : Phase → Bool
is_starting starting = true
is_starting _ = false

abbrev pub holds_permit : Config → ℕ → Instance → Bool
holds_permit c now i =
    not i.retired
    && is_starting i.phase
    && i.permit
    && str_eq i.boot_id c.boot_id
    && ltb now i.permit_deadline

-- The checks of `guard`. The files of the unit are checked by the host.
unfoldable pub guard_checks : Config → Views → Db → Instance → Outcome (Unit {0})
guard_checks c vs db i = Host.◌>>◌ (demand (holds_permit c (vs 0).monotonic i) internal) (
    Host.◌>>=◌ (require_binding_current c i) λ binding.
      Host.◌>>◌ (demand (not (is_held db i.workload_id)) internal) (
        Host.◌>>=◌ (resolve c i.workload_id i.revision_digest) λ b.
          Host.◌>>◌ (check_bundle_host c b) (
            Host.◌>>◌ (check_action_allowed b.definition "start" true) (
              Host.◌>>◌ ((vs 1).attempt verify_mount) (
                Host.◌>>◌ ((vs 2).attempt (check_state_dirs i.instance_id))
                  ((vs 3).attempt (check_runtime_files i.instance_id)))))))

-- The WHERE clause of the UPDATE that consumes the permit.
unfoldable pub may_consume : Config → ℕ → Db → Instance → Bool
may_consume c now db i =
    holds_permit c now i
    && is_known (known_generation db i.workload_id) i.generation
    && not (is_held db i.workload_id)

unfoldable pub consumed : Config → ℕ → Db → Instance → Bool × Db
consumed c now db i =
    if may_consume c now db i then (true, put db (record i { permit = false })) else (false, db)

unfoldable pub checked : Config → Views → Db → Instance → Outcome (Unit {0}) → Bool × Db
unfolding consumed
checked c vs db i (fault e) = (false, db)
checked c vs db i (done _) = consumed c (vs 4).monotonic db i

unfoldable pub guard_row : Config → Views → Db → Option Instance → Bool × Db
unfolding checked
guard_row c vs db none = (false, db)
guard_row c vs db (some i) = checked c vs db i (guard_checks c vs db i)

unfoldable pub named : Db → Option Instance → Option Instance
named db none = none
named db (some i) = get_instance db i.instance_id

-- The row of a machine, read again by its `instance_id`
unfoldable pub machine_row : Db → String → Option Instance
unfolding named
machine_row db machine = named db (row (λ i. i.machine_name) machine db.instances)

-- `guard`: whether the unit may start (the exit status 0), and the database after it.
unfoldable pub guard : Config → Views → String → Db → Bool × Db
unfolding guard_row
guard c vs machine db = guard_row c vs db (machine_row db machine)
