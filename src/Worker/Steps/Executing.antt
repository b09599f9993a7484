-- ===== src/Worker/Steps/Executing.antt =====
-- The chains of writes of `_run`, `_resume`, `execute` and `guard`.
use nexus_infra.Base.{
  ℕ, String, Bool, true, false, not, List, [], ◌∷◌, Option, none, some, ◌≡◌, refl, arith,
}
use nexus_infra.Base.Table.{row}
use nexus_infra.Json.Value.{canonical}
use nexus_infra.Json.Value.{Value}
use nexus_infra.Worker.State.{
  Action, prepare, adopt, start, stop, retire, freeze, thaw, failed, Request, Config, Instance,
  Operation, Receipt, Db, get_instance, operation_row,
}
use nexus_infra.Worker.Request.{Call, observes, performs, validate_request}
use nexus_infra.Worker.Host.{refused, doubtful, internal, Outcome, fault, done, Views}
use nexus_infra.Worker.Act.{Act, uncertainly, is_pending, reads}
use nexus_infra.Json.Equality.{same}
use nexus_infra.Worker.Execute.{
  Answers, answer_call, called, consumed, checked, guard_row, named, machine_row, insert_operation,
  may_consume, handled, dispatched, guarded, action_of, resumption_of, perform, resume,
  later_answers, pending_of, conflicts, is_uncertain, new_operation, begin, settle_pending, recall,
  dispatch, execute, guard,
}
use nexus_infra.Worker.Steps.{
  before, Step, changes, opens, Reach, here, Reach-trans, Reach-step, consumes,
}
use nexus_infra.Worker.Steps.Reconciling.{reconcile-Reach}
use nexus_infra.Worker.Steps.Rules.{
  Ran, Ran-bind, Ran-reads, Ran-raises, Ran-commits, Ran-if, Ran-finish, found_self,
}
use nexus_infra.Worker.Steps.Stopping.{stop-Ran, resume_stop-Ran, retire-Ran, resume_retire-Ran}
use nexus_infra.Worker.Steps.Starting.{start-Ran, resume_start-Ran}
use nexus_infra.Worker.Steps.Capturing.{freeze-Ran, resume_freeze-Ran, thaw-Ran}
use nexus_infra.Worker.Steps.Preparing.{prepare-Ran}

module _ (c : Config) where
  handled-Reach :
      (q : Request) (db : Db) (r : Outcome Receipt × Db) → Reach db r.1 → Reach db (handled c q r).1
  unfolding handled uncertainly
  handled-Reach q db (done a, db') h = h
  handled-Reach q db (fault (doubtful code), db') h = h
  handled-Reach q db (fault (refused code), db') h =
      Reach-trans h (Ran-finish c q failed none (some code) db').reach
  handled-Reach q db (fault internal, db') h = h

  guarded-Ran : (q : Request) (m : Act Receipt) (db : Db) → Ran m db → Ran (guarded c q m) db
  unfolding guarded
  guarded-Ran q m db h = record { reach = handled-Reach q db (m db) h.reach }

  action_of-Ran :
      (vss : Answers) (q : Request) (a : Action) (db : Db) → Ran (action_of c vss q a) db
  unfolding action_of
  action_of-Ran vss q prepare db = prepare-Ran c q false vss db
  action_of-Ran vss q adopt db = prepare-Ran c q true vss db
  action_of-Ran vss q start db = start-Ran c q (vss 0) db
  action_of-Ran vss q stop db = stop-Ran c q (vss 0) db
  action_of-Ran vss q retire db = retire-Ran c q (vss 0) db
  action_of-Ran vss q freeze db = freeze-Ran c q (vss 0) db
  action_of-Ran vss q thaw db = thaw-Ran c q (vss 0) db

  resumption_of-Ran :
      (vss : Answers) (q : Request) (a : Action) (db : Db) → Ran (resumption_of c vss q a) db
  unfolding resumption_of
  resumption_of-Ran vss q prepare db = prepare-Ran c q false vss db
  resumption_of-Ran vss q adopt db = prepare-Ran c q true vss db
  resumption_of-Ran vss q start db = resume_start-Ran c q (vss 0) db
  resumption_of-Ran vss q stop db = resume_stop-Ran c q (vss 0) db
  resumption_of-Ran vss q retire db = resume_retire-Ran c q (vss 0) db
  resumption_of-Ran vss q freeze db = resume_freeze-Ran c q (vss 0) db
  resumption_of-Ran vss q thaw db = thaw-Ran c q (vss 0) db

  uncertainly-Ran : (q : Request) (e : String) (db : Db) → Ran (uncertainly c q e) db
  unfolding uncertainly
  uncertainly-Ran q e db = record { reach = here }

  resume-Ran : (vss : Answers) (q : Request) (db : Db) → Ran (resume c vss q) db
  unfolding resume
  resume-Ran vss q db = guarded-Ran q _ db (resumption_of-Ran vss q q.action db)

  inserted-Step :
      (text : Value) (q : Request) (db db' : Db)
      → insert_operation text q db ≡ done db'
      → Step db db'
  unfolding insert_operation
  inserted-Step text q db db' h = opens (new_operation text q) (ground arith) (ground arith)

  begin-Ran : (vss : Answers) (text : Value) (q : Request) (db : Db) → Ran (begin c vss text q) db
  unfolding begin perform
  begin-Ran vss text q db = Ran-commits _ _ db λ db' h. (
    Reach-step (inserted-Step text q db db' h),
    guarded-Ran q _ db' (action_of-Ran vss q q.action db'),
  )

  settle_pending-Ran :
      (vss : Answers) (text : Value) (q : Request) (os : List Operation) (db : Db)
      → Ran (settle_pending c vss text q os) db
  unfolding settle_pending
  settle_pending-Ran vss text q [] db = begin-Ran vss text q db
  settle_pending-Ran vss text q (o ∷ os) db =
      Ran-if (conflicts q o) _ _ db
        (λ _. Ran-bind _ _ db (resume-Ran (later_answers 0 vss) o.request db) λ a _.
          Ran-if (is_uncertain a) _ _ _ (λ _. uncertainly-Ran q "operation-in-progress" _)
            (λ _. settle_pending-Ran (later_answers 3 vss) text q os _))
        (λ _. settle_pending-Ran (later_answers 3 vss) text q os db)

  recall-Ran :
      (vss : Answers) (text : Value) (o : Operation) (db : Db) → Ran (recall c vss text o) db
  unfolding recall reads
  recall-Ran vss text o db =
      Ran-if (not (same o.text text)) _ _ db (λ _. Ran-raises _ _ db)
        λ _.
          Ran-if (is_pending o.status) _ _ db (λ _. resume-Ran vss o.request db)
            λ _. record { reach = here }

  dispatched-Ran :
      (vss : Answers) (text : Value) (q : Request) (o : Option Operation) (db : Db)
      → Ran (dispatched c vss text q o) db
  unfolding dispatched
  dispatched-Ran vss text q (some o) db = record { reach = (recall-Ran vss text o db).reach }
  dispatched-Ran vss text q none db = record {
    reach = (settle_pending-Ran vss text q (pending_of db.operations) db).reach;
  }

  pub dispatch-Ran :
      (vss : Answers) (text : Value) (q : Request) (db : Db) → Ran (dispatch c vss text q) db
  unfolding dispatch
  dispatch-Ran vss text q db = record {
    reach = (dispatched-Ran vss text q (operation_row db q.operation_id) db).reach;
  }

  answer_call-Ran :
      (vss : Answers) (v : Value) (k : Call) (db : Db) → Ran (answer_call c vss v k) db
  unfolding answer_call reads
  answer_call-Ran vss v (observes id) db = Ran-reads _ _ db λ o _. record { reach = here }
  answer_call-Ran vss v (performs q) db =
      Ran-bind _ _ db (dispatch-Ran (later_answers 1 vss) (canonical v) q db)
        λ a _. record { reach = here }

  called-Reach :
      (vss : Answers) (v : Value) (k : Outcome Call) (db : Db) → Reach db (called c vss v k db).1
  unfolding called
  called-Reach vss v (fault e) db = here
  called-Reach vss v (done k) db =
      Reach-trans (reconcile-Reach c (vss 0) db) (answer_call-Ran vss v k _).reach

  pub execute-Reach : (vss : Answers) (v : Value) (db : Db) → Reach db (execute c vss v db).1
  unfolding execute
  execute-Reach vss v db = called-Reach vss v (validate_request v) db

  consumed-Reach :
      (now : ℕ) (db : Db) (i : Instance) (b : Bool)
      → get_instance db i.instance_id ≡ some i
      → may_consume c now db i ≡ b
      → Reach db (consumed c now db i).1
  unfolding consumed
  consumed-Reach now db i false found h = rw h here
  consumed-Reach now db i true found h =
      rw h (Reach-step (changes i _ found (consumes refl) (before λ h. h) refl))

  checked-Reach :
      (vs : Views) (db : Db) (i : Instance) (r : Outcome (Unit {0}))
      → get_instance db i.instance_id ≡ some i
      → Reach db (checked c vs db i r).1
  unfolding checked
  checked-Reach vs db i (fault e) found = here
  checked-Reach vs db i (done x) found = consumed-Reach (vs 4).monotonic db i _ found refl

  guard_row-Reach :
      (vs : Views) (db : Db) (k : String) (o : Option Instance)
      → get_instance db k ≡ o
      → Reach db (guard_row c vs db o).1
  unfolding guard_row
  guard_row-Reach vs db k none found = here
  guard_row-Reach vs db k (some i) found = checked-Reach vs db i _ (found_self db k i found)

  named-Reach :
      (vs : Views) (db : Db) (o : Option Instance) → Reach db (guard_row c vs db (named db o)).1
  unfolding guard_row named
  named-Reach vs db none = here
  named-Reach vs db (some j) = guard_row-Reach vs db j.instance_id _ refl

  pub guard-Reach : (vs : Views) (machine : String) (db : Db) → Reach db (guard c vs machine db).1
  unfolding guard machine_row
  guard-Reach vs machine db = named-Reach vs db (row (λ i. i.machine_name) machine db.instances)
