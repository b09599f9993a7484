-- ===== src/Worker/History/Journal.antt =====
-- The finished operations of a worker over histories.
use nexus_infra.Base.{
  Bool, true, false, List, [], ◌∷◌, some, ◌≡◌, refl, sym, subst, ap, inl, inr, str_eq, eq_iff,
  arith, Bool-cases, if◌then◌else◌, ◌∙◌,
}
use nexus_infra.Base.Table.{row-upsert, row-append_left}
use nexus_infra.Json.Value.{Value, canonical}
use nexus_infra.Json.Equality.{same}
use nexus_infra.Worker.State.{Config, Receipt, Request, Operation, Db, operation_row}
use nexus_infra.Worker.Host.{refused, Outcome, fault, done}
use nexus_infra.Worker.Request.{performs, validate_request, Call}
use nexus_infra.Worker.Act.{chain, ◌>>=◌, reads, raises, is_pending, finished}
use nexus_infra.Worker.Prepare.{bump}
use nexus_infra.Worker.Reconcile.{reconcile}
use nexus_infra.Worker.Execute.{
  Answers, receipt, recall, dispatched, dispatch, answer_call, called, execute, later_answers,
}
use nexus_infra.Worker.Steps.{
  Step, opens, closes, changes, inserts, bumps, holds, releases, Reach, here, next,
}
use nexus_infra.Worker.Steps.Reconciling.{reconcile-Reach}
use nexus_infra.Worker.History.{Event, run, run-Reach}

Step-journal :
    (db db' : Db) (o : Operation)
    → Step db db'
    → is_pending o.status ≡ false
    → operation_row db o.operation_id ≡ some o
    → operation_row db' o.operation_id ≡ some o
unfolding bump
Step-journal db db' o (opens p new e) over found =
    rw e (row-append_left (λ t. t.operation_id) o.operation_id db.operations (p ∷ []) found)
Step-journal db db' o (closes p a there was e) over found =
    rw e (elim (Bool-cases (str_eq p.operation_id o.operation_id)) [
      | inl alike ↦
          let key : p.operation_id ≡ o.operation_id =
            ground (arith, eq_iff p.operation_id o.operation_id) in
          let both : some p ≡ some o = sym there ∙ ap (λ k. operation_row db k) key ∙ found in
          let one : p ≡ o = cc in
          let bad : true ≡ false = sym was ∙ ap (λ t. is_pending t.status) one ∙ over in cc
      | inr other ↦
          ground
            (arith, row-upsert (λ t. t.operation_id) o.operation_id (finished p a) db.operations)
    ])
Step-journal db db' o (changes i j has change fits e) over found = rw e found
Step-journal db db' o (inserts i fresh free newer young calm e) over found = rw e found
Step-journal db db' o (bumps i has e) over found = rw e found
Step-journal db db' o (holds i k has own unheld free e) over found = rw e found
Step-journal db db' o (releases k has e) over found = rw e found

Reach-journal :
    {a b : Db} (o : Operation)
    → Reach a b
    → is_pending o.status ≡ false
    → operation_row a o.operation_id ≡ some o
    → operation_row b o.operation_id ≡ some o
Reach-journal o here over found = found
Reach-journal o (next {db'} {db''} r s) over found =
    Step-journal db' db'' o s over (Reach-journal o r over found)

module _ (c : Config) (o : Operation) (a : Receipt) (over : is_pending o.status ≡ false)
    (told : o.result ≡ some a) where
  abbrev answer_for : Value → Outcome Receipt
  answer_for text = if same o.text text then done a else fault (refused "operation-conflict")

  recall-over :
      (vss : Answers) (text : Value) (db : Db) → recall c vss text o db ≡ (answer_for text, db)
  unfolding recall raises reads
  recall-over vss text db = ground arith

  dispatch-over :
      (vss : Answers) (text : Value) (q : Request) (db : Db)
      → operation_row db q.operation_id ≡ some o
      → dispatch c vss text q db ≡ (answer_for text, db)
  unfolding dispatch dispatched
  dispatch-over vss text q db found = rw found (recall-over vss text db)

  answered-over :
      (b : Bool) (m : Outcome Receipt × Db) (db : Db)
      → m ≡ ((if b then done a else fault (refused "operation-conflict")), db)
      → chain m (λ t. reads (λ d. done (receipt t)))
        ≡ ((if b then done (receipt a) else fault (refused "operation-conflict")), db)
  unfolding chain reads
  answered-over true m db e = rw e refl
  answered-over false m db e = rw e refl

  called-over :
      (vss : Answers) (v : Value) (q : Request) (k : Outcome Call) (db : Db)
      → k ≡ done (performs q)
      → operation_row (reconcile c (vss 0) db) q.operation_id ≡ some o
      → called c vss v k db ≡ (
        (if same o.text (canonical v)
            then done (receipt a)
            else fault (refused "operation-conflict")),
        reconcile c (vss 0) db,
      )
  unfolding called answer_call ◌>>=◌
  called-over vss v q k db e found = rw e (
      answered-over (same o.text (canonical v)) _ _
        (dispatch-over (later_answers 1 vss) (canonical v) q _ found))

-- A finished operation with a receipt stays in the journal, whatever happens afterwards. A request
-- under its name then changes nothing but what `_reconcile` sees on the host: it gets that receipt
-- again where its canonical text is the stored one, and is refused with `operation-conflict` where
-- it is another.
pub run-replay :
    (es : List Event) (db : Db) (o : Operation) (a : Receipt)
    → operation_row db o.operation_id ≡ some o
    → is_pending o.status ≡ false
    → o.result ≡ some a
    → (c : Config) (vss : Answers) (v : Value) (q : Request)
    → validate_request v ≡ done (performs q)
    → q.operation_id ≡ o.operation_id
    → execute c vss v (run es db) ≡ (
      if same o.text (canonical v) then done (receipt a) else fault (refused "operation-conflict"),
      reconcile c (vss 0) (run es db),
    )
unfolding execute
run-replay es db o a found over told c vss v q valid name =
    called-over c o a over told vss v q (validate_request v) (run es db) valid (
      subst (λ k. operation_row (reconcile c (vss 0) (run es db)) k ≡ some o) (sym name)
        (Reach-journal o (reconcile-Reach c (vss 0) (run es db)) over
          (Reach-journal o (run-Reach es db) over found)))
