-- ===== src/Worker/Reports.antt =====
-- The receipts of the worker's methods and the journal.
pub mod Actions
pub mod Dispatch
pub mod Recovery
use nexus_infra.Base.{
  ℕ, String, Bool, true, false, ◌&&◌, List, Option, none, some, is_some, ◌≡◌, refl, sym, ap, subst,
  ◌⊎◌, inl, inr, arith, Bool-cases, Option-cases, if◌then◌else◌, eq_refl, str_eq, ◌∙◌,
}
use nexus_infra.Base.Table.{upsert, row-upsert, row-key}
use nexus_infra.Worker.State.{
  Action, Request, Config, Phase, Status, Receipt, Operation, Db, operation_row,
}
use nexus_infra.Worker.State as State
use nexus_infra.Worker.Host.{Fault, Outcome, fault, done}
use nexus_infra.Worker.Act.{
  Act, chain, ◌>>=◌, ◌>>◌, raises, reads, commits, receipt, finish, uncertainly, is_pending,
  finished, answered, finish_row, same_receipt, same_action, same_phase, same_status,
  same_option_phase, same_error,
}
use nexus_infra.Worker.Execute.{is_uncertain}
use nexus_infra.Worker.Host.{refused}
use nexus_infra.Worker.Steps.Rules.{done-injective}

-- The row of the journal that has this receipt.
pub record Recorded (db : Db) (q : Request) (a : Receipt) : Type 0 where
  pub operation : Operation
  pub found : operation_row db q.operation_id ≡ some operation
  pub over : is_pending operation.status ≡ false
  pub told : answered operation a ≡ true

pub record Reported (q : Request) (db : Db) (a : Receipt) : Type 0 where
  pub operation_named : a.operation_id ≡ q.operation_id
  pub action_named : a.action ≡ q.action
  pub workload_named : a.workload_id ≡ q.workload_id
  pub instance_named : a.instance_id ≡ q.instance_id
  pub generation_named : a.generation ≡ q.generation
  pub kept : (is_uncertain a ≡ true) ⊎ Recorded db q a

-- Whenever the method returns a receipt, it is about the request, and the journal has it or the
-- receipt is uncertain.
pub record Tells (q : Request) (m : Act Receipt) : Type 0 where
  pub tells : (db : Db) (a : Receipt) → (m db).0 ≡ done a → Reported q (m db).1 a

same_action_refl : (a : Action) → same_action a a ≡ true
same_action_refl State.prepare = refl
same_action_refl State.adopt = refl
same_action_refl State.start = refl
same_action_refl State.stop = refl
same_action_refl State.retire = refl
same_action_refl State.freeze = refl
same_action_refl State.thaw = refl

same_phase_refl : (p : Phase) → same_phase p p ≡ true
same_phase_refl State.preparing = refl
same_phase_refl State.prepared = refl
same_phase_refl State.starting = refl
same_phase_refl State.running = refl
same_phase_refl State.stopping = refl
same_phase_refl State.stopped = refl
same_phase_refl State.unknown = refl

same_status_refl : (s : Status) → same_status s s ≡ true
same_status_refl State.pending = refl
same_status_refl State.completed = refl
same_status_refl State.failed = refl
same_status_refl State.uncertain = refl

same_option_phase_refl : (p : Option Phase) → same_option_phase p p ≡ true
same_option_phase_refl none = refl
same_option_phase_refl (some p) = same_phase_refl p

same_error_refl : (e : Option String) → same_error e e ≡ true
same_error_refl none = refl
same_error_refl (some e) = eq_refl e

same_receipt_refl : (a : Receipt) → same_receipt a a ≡ true
same_receipt_refl a = ground (
  arith,
  eq_refl a.operation_id,
  eq_refl a.workload_id,
  eq_refl a.instance_id,
  eq_refl a.host_id,
  eq_refl a.capture_id,
  same_action_refl a.action,
  same_status_refl a.status,
  same_option_phase_refl a.applied_phase,
  same_error_refl a.error,
)

-- What `_receipt` makes is about the request.
receipt-Reported :
    (c : Config) (d db : Db) (q : Request) (s : Status) (p : Option Phase) (e : Option String)
    → (is_uncertain (receipt c d q s p e) ≡ true) ⊎ Recorded db q (receipt c d q s p e)
    → Reported q db (receipt c d q s p e)
unfolding receipt
receipt-Reported c d db q s p e kept = record {
  operation_named = refl;
  action_named = refl;
  workload_named = refl;
  instance_named = refl;
  generation_named = refl;
  kept = kept;
}

receipt-status :
    (c : Config) (db : Db) (q : Request) (s : Status) (p : Option Phase) (e : Option String)
    → (receipt c db q s p e).status ≡ s
unfolding receipt
receipt-status c db q s p e = refl

-- A receipt that `_finish` returns is the one it was given, and the journal has it.
finish_row-same :
    (db : Db) (r : Option Operation) (a b : Receipt) → (finish_row db r a).0 ≡ done b → b ≡ a
unfolding finish_row
finish_row-same db none a b h = cc
finish_row-same db (some o) a b h = ground arith

closed-Recorded :
    (db : Db) (q : Request) (o : Operation) (a : Receipt)
    → operation_row db q.operation_id ≡ some o
    → is_pending a.status ≡ false
    → Recorded
        (record db { operations = upsert (λ t. t.operation_id) (finished o a) db.operations })
        q
        a
closed-Recorded db q o a found over = record {
  operation = finished o a;
  found = ground (
    arith,
    row-upsert (λ t. t.operation_id) q.operation_id (finished o a) db.operations,
    row-key (λ t. t.operation_id) q.operation_id db.operations found,
    eq_refl q.operation_id,
  );
  over = over;
  told = same_receipt_refl a;
}

finish_row-Recorded :
    (db : Db) (q : Request) (r : Option Operation) (a b : Receipt)
    → operation_row db q.operation_id ≡ r
    → is_pending a.status ≡ false
    → (finish_row db r a).0 ≡ done b
    → Recorded (finish_row db r a).1 q a
unfolding finish_row
finish_row-Recorded db q none a b found over h = cc
finish_row-Recorded db q (some o) a b found over h = elim (Bool-cases (is_pending o.status)) [
  | inl open_ ↦ rw open_ (closed-Recorded db q o a found over)
  | inr shut ↦
      let same : answered o a ≡ true = ground arith in
      rw (shut, same) (record { operation = o; found = found; over = shut; told = same })
]

module _ (c : Config) (q : Request) where
  pub Tells-finish :
      (s : Status) (p : Option Phase) (e : Option String)
      → is_pending s ≡ false
      → Tells q (finish c q s p e)
  unfolding finish
  Tells-finish s p e over = record {
    tells = λ db b h.
        let a = receipt c db q s p e in
        let r = operation_row db q.operation_id in
        subst (Reported q (finish_row db r a).1) (sym (finish_row-same db r a b h)) (
          receipt-Reported c db (finish_row db r a).1 q s p e (
            inr (
              finish_row-Recorded db q r a b refl
                (ap is_pending (receipt-status c db q s p e) ∙ over) h)));
  }

  pub Tells-uncertainly : (code : String) → Tells q (uncertainly c q code)
  unfolding uncertainly
  Tells-uncertainly code = record {
    tells = λ db b h. subst (Reported q db) (done-injective h) (
        receipt-Reported c db db q State.uncertain _ _ (
          inl (
            ap (λ t. elim t as (λ _. Bool) [ State.uncertain ↦ true | _ ↦ false ])
              (receipt-status c db q State.uncertain _ _))));
  }
