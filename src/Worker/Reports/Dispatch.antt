-- ===== src/Worker/Reports/Dispatch.antt =====
-- The receipts of the other actions, and of a request that `execute` performs.
use nexus_infra.Base.{ℕ, Bool, true, false, List, [], ◌∷◌, Option, none, some, ◌≡◌, refl, subst, ap}
use nexus_infra.Json.Value.{Value}
use nexus_infra.Worker.State.{
  Action, prepare, adopt, start, stop, retire, freeze, thaw, Request, Config, Instance, Capture,
  Operation, Receipt, Db, operation_row,
}
use nexus_infra.Worker.Host.{refused, doubtful, internal, Outcome, fault, done, Views, later}
use nexus_infra.Worker.Act.{Act}
use nexus_infra.Worker.Capture as Capture
use nexus_infra.Worker.Prepare as Prepare
use nexus_infra.Worker.Execute.{
  Answers, handled, guarded, action_of, resumption_of, perform, resume, begin, settle_pending,
  dispatched, dispatch, is_uncertain, later_answers, conflicts, pending_of,
}
use nexus_infra.Worker.Reports.{Reported, Tells, Tells-finish, Tells-uncertainly}
use nexus_infra.Worker.Reports.Actions.{
  Tells-bind, Tells-then, Tells-if, stop_unit_of-Tells, stop-Tells, resume_stop-Tells, retire-Tells,
  resume_retire-Tells, start-Tells, resume_start-Tells,
}

module _ (c : Config) (q : Request) where
  refreeze-Tells : (vs : Views) (k : Capture) → Tells q (Capture.refreeze c vs q k)
  unfolding Capture.refreeze
  refreeze-Tells vs k = Tells-bind q _ _ λ i. Tells-then q _ _ (resume_stop-Tells c q (later 2 vs))

  frozen_by-Tells :
      (vs : Views) (i : Instance) (o : Option Capture) → Tells q (Capture.frozen_by c vs q i o)
  unfolding Capture.frozen_by Capture.freeze_new
  frozen_by-Tells vs i none = Tells-then q _ _ (Tells-then q _ _ (stop_unit_of-Tells c q vs i))
  frozen_by-Tells vs i (some k) = Tells-then q _ _ (refreeze-Tells vs k)

  freeze-Tells : (vs : Views) → Tells q (Capture.freeze c vs q)
  unfolding Capture.freeze
  freeze-Tells vs = Tells-bind q _ _ λ i. Tells-bind q _ _ λ o. frozen_by-Tells (later 2 vs) i o

  refrozen_by-Tells :
      (vs : Views) (i : Instance) (o : Option Capture) → Tells q (Capture.refrozen_by c vs q i o)
  unfolding Capture.refrozen_by
  refrozen_by-Tells vs i none = freeze-Tells vs
  refrozen_by-Tells vs i (some k) = Tells-then q _ _ (resume_stop-Tells c q vs)

  resume_freeze-Tells : (vs : Views) → Tells q (Capture.resume_freeze c vs q)
  unfolding Capture.resume_freeze
  resume_freeze-Tells vs =
      Tells-bind q _ _ λ i. Tells-bind q _ _ λ o. refrozen_by-Tells (later 2 vs) i o

  thawed_by-Tells :
      (vs : Views) (i : Instance) (k : Capture) → Tells q (Capture.thawed_by c vs q i k)
  unfolding Capture.thawed_by
  thawed_by-Tells vs i k =
      Tells-if q _ _ _ (Tells-then q _ _ (Tells-then q _ _ (Tells-finish c q _ _ _ refl)))
        (Tells-finish c q _ _ _ refl)

  thaw-Tells : (vs : Views) → Tells q (Capture.thaw c vs q)
  unfolding Capture.thaw
  thaw-Tells vs = Tells-bind q _ _ λ (i, k). thawed_by-Tells (later 2 vs) i k

  build-Tells : (adopting : Bool) (vs : Views) → Tells q (Prepare.build c adopting vs q)
  unfolding Prepare.build
  build-Tells adopting vs =
      Tells-then q _ _
        (Tells-then q _ _ (Tells-then q _ _ (Tells-then q _ _ (Tells-finish c q _ _ _ refl))))

  rebuild-Tells : (vs : Views) → Tells q (Prepare.rebuild c vs q)
  unfolding Prepare.rebuild
  rebuild-Tells vs = Tells-then q _ _ (Tells-then q _ _ (Tells-finish c q _ _ _ refl))

  prepare_row-Tells :
      (adopting : Bool) (vss : ℕ → Views) (o : Option Instance)
      → Tells q (Prepare.prepare_row c adopting vss q o)
  unfolding Prepare.prepare_row
  prepare_row-Tells adopting vss none =
      Tells-bind q _ _ λ b. Tells-bind q _ _ λ s. Tells-then q _ _ (build-Tells adopting (vss 2))
  prepare_row-Tells adopting vss (some i) =
      Tells-bind q _ _ λ b. Tells-if q _ _ _ (rebuild-Tells (vss 2)) (build-Tells adopting (vss 2))

  prepare-Tells : (adopting : Bool) (vss : ℕ → Views) → Tells q (Prepare.prepare c adopting vss q)
  unfolding Prepare.prepare
  prepare-Tells adopting vss = Tells-bind q _ _ λ o. prepare_row-Tells adopting vss o

  action_of-Tells : (vss : Answers) (a : Action) → Tells q (action_of c vss q a)
  unfolding action_of
  action_of-Tells vss prepare = prepare-Tells false vss
  action_of-Tells vss adopt = prepare-Tells true vss
  action_of-Tells vss start = start-Tells c q (vss 0)
  action_of-Tells vss stop = stop-Tells c q (vss 0)
  action_of-Tells vss retire = retire-Tells c q (vss 0)
  action_of-Tells vss freeze = freeze-Tells (vss 0)
  action_of-Tells vss thaw = thaw-Tells (vss 0)

  resumption_of-Tells : (vss : Answers) (a : Action) → Tells q (resumption_of c vss q a)
  unfolding resumption_of
  resumption_of-Tells vss prepare = prepare-Tells false vss
  resumption_of-Tells vss adopt = prepare-Tells true vss
  resumption_of-Tells vss start = resume_start-Tells c q (vss 0)
  resumption_of-Tells vss stop = resume_stop-Tells c q (vss 0)
  resumption_of-Tells vss retire = resume_retire-Tells c q (vss 0)
  resumption_of-Tells vss freeze = resume_freeze-Tells (vss 0)
  resumption_of-Tells vss thaw = thaw-Tells (vss 0)

  handled-Reported :
      (r : Outcome Receipt × Db) (b : Receipt)
      → ((a : Receipt) → r.0 ≡ done a → Reported q r.1 a)
      → (handled c q r).0 ≡ done b
      → Reported q (handled c q r).1 b
  unfolding handled
  handled-Reported (done a, db) b tells h = tells b h
  handled-Reported (fault (doubtful code), db) b tells h = (Tells-uncertainly c q code).tells db b h
  handled-Reported (fault (refused code), db) b tells h =
      (Tells-finish c q _ none (some code) refl).tells db b h
  handled-Reported (fault internal, db) b tells h =
      (Tells-uncertainly c q "internal-error").tells db b h

  guarded-Tells : (m : Act Receipt) → Tells q m → Tells q (guarded c q m)
  unfolding guarded
  guarded-Tells m t = record { tells = λ db b h. handled-Reported (m db) b (t.tells db) h }

  settle_pending-Tells :
      (vss : Answers) (text : Value) (os : List Operation)
      → Tells q (settle_pending c vss text q os)
  unfolding settle_pending begin perform
  settle_pending-Tells vss text [] =
      Tells-then q _ _ (guarded-Tells _ (action_of-Tells vss q.action))
  settle_pending-Tells vss text (o ∷ os) =
      Tells-if q (conflicts q o) _ _
        (Tells-bind q _ _ λ a.
          Tells-if q (is_uncertain a) _ _ (Tells-uncertainly c q _)
            (settle_pending-Tells (later_answers 3 vss) text os))
        (settle_pending-Tells (later_answers 3 vss) text os)

  dispatched-Reported :
      (vss : Answers) (text : Value) (o : Option Operation) (db db' : Db) (a : Receipt)
      → o ≡ none
      → dispatched c vss text q o db ≡ (done a, db')
      → Reported q db' a
  unfolding dispatched
  dispatched-Reported vss text (some o) db db' a new h = cc
  dispatched-Reported vss text none db db' a new h =
      subst (λ d. Reported q d a) (ap (λ r. r.1) h)
        ((settle_pending-Tells vss text (pending_of db.operations)).tells db a (ap (λ r. r.0) h))

-- A receipt that a new request gets is about that request: its operation, action, workload, instance
-- and generation; and it is uncertain, or the journal has it as the result of the finished operation.
pub dispatch-Reported :
    (c : Config) (vss : Answers) (text : Value) (q : Request) (db db' : Db) (a : Receipt)
    → operation_row db q.operation_id ≡ none
    → dispatch c vss text q db ≡ (done a, db')
    → Reported q db' a
unfolding dispatch
dispatch-Reported c vss text q db db' a new h =
    dispatched-Reported c q vss text (operation_row db q.operation_id) db db' a new h

-- A pending operation that is resumed gets such a receipt, too.
pub resume-Reported :
    (c : Config) (vss : Answers) (q : Request) (db db' : Db) (a : Receipt)
    → resume c vss q db ≡ (done a, db')
    → Reported q db' a
unfolding resume
resume-Reported c vss q db db' a h =
    subst (λ d. Reported q d a) (ap (λ r. r.1) h)
      ((guarded-Tells c q _ (resumption_of-Tells c q vss q.action)).tells db a (ap (λ r. r.0) h))
