-- ===== src/Registry/QueueBound.antt =====
-- The length of the operation queues of console/registry.py over histories.
use nexus_infra.Base.{
  ℕ, ◌+◌, ◌≤◌, String, List, [], ◌∷◌, ◌++◌, Option, none, some, str_eq, eq_iff, if◌then◌else◌, ◌≡◌,
  ◌∙◌, sym, ap, subst, inl, inr, arith, Bool-cases, ◌&&◌, ltb→lt,
}
use native.Mathlib.Nat.{le_trans}
use nexus_infra.Base.Result.{ok}
use nexus_infra.Base.Table.{row, upsert, all-row, row-key}
use nexus_infra.Json.Value.{Value, canonical}
use nexus_infra.Registry.State.{Principal, Operation, Receipt, Db, Registry, operation_row}
use nexus_infra.Registry.Payload.{OperationRequest, ReceiptRequest}
use nexus_infra.Registry.Queue.{
  is_open, pending_max, queue_length, posted, post_body, receipt_body, receipt_writes, take_receipt,
}
use nexus_infra.Registry.Queue.Effect.{posted_db, Posted, post_body-cases, receipt_body-Reported}
use nexus_infra.Registry.Events.{Event, step, run, Allows, step-Changes}
use nexus_infra.Registry.Receipts.{
  shaped, AllShaped, Progress, same_row, claims, finishes, take_receipt-Progress, step-Onward,
  open_session_body-operations, observe_body-operations, assign_body-operations,
  show_body-operations, fence_body-operations,
}
use nexus_infra.Registry.Valid.Others.{SameOperation, take_receipt-SameOperation}

abbrev counts : String → Operation → ℕ
counts h o = if str_eq o.host_id h && is_open o.status then 1 else 0

queue_length-append :
    (h : String) (os : List Operation) (o : Operation)
    → queue_length h (os ++ o ∷ []) ≡ queue_length h os + counts h o
unfolding queue_length
queue_length-append h [] o = omega arith
queue_length-append h (x ∷ os) o = omega (arith, queue_length-append h os o)

-- Where a row is replaced by one that counts no more, the count does not grow.
queue_length-upsert :
    (h k : String) (os : List Operation) (o n : Operation)
    → row (λ t. t.operation_id) k os ≡ some o
    → n.operation_id ≡ k
    → counts h n ≤ counts h o
    → queue_length h (upsert (λ t. t.operation_id) n os) ≤ queue_length h os
unfolding queue_length upsert
queue_length-upsert h k [] o n e id fewer = cc
queue_length-upsert h k (x ∷ os) o n e id fewer =
    let rest = λ (found : row (λ t. t.operation_id) k os ≡ some o).
      queue_length-upsert h k os o n found id fewer in
    elim (Bool-cases (str_eq x.operation_id k)) [
      | inl here ↦
          let same : x ≡ o = ground arith in
          rw (id, here)
            (subst (λ y. counts h n + queue_length h os ≤ counts h y + queue_length h os) (sym same)
              (omega arith))
      | inr other ↦ let less = rest (rw other at e) in rw (id, other) (omega arith)
    ]

Progress-counts :
    (h : String) (o n : Operation) → SameOperation o n → Progress o n → counts h n ≤ counts h o
Progress-counts h o n s (same_row e) = ground arith
Progress-counts h o n s (claims was now _ _) = ground (arith, s.host_id)
Progress-counts h o n s (finishes was (inl now) _ _) = ground (arith, s.host_id)
Progress-counts h o n s (finishes was (inr now) _ _) = ground (arith, s.host_id)

-- The bound, for all hosts.
abbrev pub Bounded : Db → Type 0
Bounded db = (h : String) → queue_length h db.operations ≤ pending_max

same-Bounded : (db db' : Db) → db'.operations ≡ db.operations → Bounded db → Bounded db'
same-Bounded db db' same b h = rw same (b h)

Posted-Bounded :
    (p : Principal) (v : Value) (q : OperationRequest) (r : Registry) (a : Receipt) (db : Db)
    → Posted p v q r a db
    → Bounded r.db
    → Bounded (posted_db r.db p v q)
Posted-Bounded p v q r a db s b h =
    let new = posted p q (r.db.operation_sequence + 1) in
    rw (queue_length-append h r.db.operations new) (elim (Bool-cases (str_eq q.host_id h)) [
      | inl here ↦
          let room = ltb→lt _ _ s.room in
          let e = ap (λ k. queue_length k r.db.operations) ((eq_iff q.host_id h).0 here) in
          rw here (omega arith)
      | inr other ↦ rw other (omega (arith, b h))
    ])

written-Bounded :
    (db : Db) (i : String) (o : Operation) (q : ReceiptRequest) (b : Value)
    (next : Option Operation)
    → operation_row db i ≡ some o
    → take_receipt o q b ≡ ok next
    → AllShaped db
    → Bounded db
    → Bounded (receipt_writes db next)
unfolding receipt_writes
written-Bounded db i o q b none found taken s bound h = bound h
written-Bounded db i o q b (some n) found taken s bound h =
    let same = take_receipt-SameOperation o n q b taken in
    let shape = all-row shaped (λ t. t.operation_id) i db.operations s found in
    let fewer = Progress-counts h o n same (take_receipt-Progress o n q b shape taken) in
    le_trans
      (queue_length-upsert h i db.operations o n found
        (same.operation_id ∙ row-key (λ t. t.operation_id) i db.operations found) fewer)
      (bound h)

post_body-Bounded :
    (p : Principal) (v : Value) (q : OperationRequest) (r : Registry) (a : Receipt) (db : Db)
    → post_body p v q r ≡ ok (a, db)
    → Bounded r.db
    → Bounded db
post_body-Bounded p v q r a db e b = elim (post_body-cases p v q r a db e) [
  | inl same ↦ subst Bounded (sym same) b
  | inr s ↦ subst Bounded (sym s.effect) (Posted-Bounded p v q r a db s b)
]

receipt_body-Bounded :
    (p : Principal) (i : String) (v : Value) (q : ReceiptRequest) (r : Registry) (a : String)
    (db : Db)
    → receipt_body p i v q r ≡ ok (a, db)
    → AllShaped r.db
    → Bounded r.db
    → Bounded db
receipt_body-Bounded p i v q r a db e shape b =
    let s = receipt_body-Reported p i v q r a db e in
    subst Bounded (sym s.effect)
      (written-Bounded r.db i s.target q (canonical v) s.next s.found s.taken shape b)

Allows-Bounded : Allows (λ c e db db'. AllShaped db → Bounded db → Bounded db')
Allows-Bounded = record {
  still = λ c e db s b. b;
  opening = λ h i r a db e s. same-Bounded r.db db (open_session_body-operations h i r a db e);
  observing = λ p o n m r a db e s. same-Bounded r.db db (observe_body-operations p o n m r a db e);
  assigning =
      λ p v q n m r a db e s. same-Bounded r.db db (assign_body-operations p v q n m r a db e);
  showing = λ act p v q n m r a db e s.
      same-Bounded r.db db (show_body-operations act p v q n m r a db e);
  fencing = λ p v q n r a db _ e s. same-Bounded r.db db (fence_body-operations p v q n r a db e);
  posting = λ p v q r a db e s. post_body-Bounded p v q r a db e;
  reporting = receipt_body-Bounded;
}

-- From operations that are shaped as their statuses say and queues within the bound, no history
-- takes the queue of any host above 256 open operations.
pub run-Bounded :
    (es : List Event) (r : Registry) (h : String)
    → AllShaped r.db
    → Bounded r.db
    → queue_length h (run es r).db.operations ≤ 256
unfolding run
run-Bounded [] r h s b = b h
run-Bounded (e ∷ es) r h s b =
    run-Bounded es (step e r) h (step-Onward e r s).shaped_rows
      ((step-Changes Allows-Bounded e r).2 s b)
