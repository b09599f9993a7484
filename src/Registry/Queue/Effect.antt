-- ===== src/Registry/Queue/Effect.antt =====
-- `post_operation` and `operation_receipt` of console/registry.py where they succeed.
use nexus_infra.Base.{
  ℕ, ◌+◌, String, true, [], ◌∷◌, ◌++◌, Option, none, some, ltb, ◌≡◌, ◌⊎◌, inl, inr, arith,
  Option-cases,
}
use nexus_infra.Base.Result.{ok, >>=-eq-ok}
use nexus_infra.Json.Value.{Value, canonical}
use nexus_infra.Registry.State.{
  Principal, Instance, Operation, Receipt, queued, Db, Registry, operation_row,
}
use nexus_infra.Registry.Payload.{OperationRequest, ReceiptRequest}
use nexus_infra.Registry.Clock.{own_host}
use nexus_infra.Registry.Journal.{request_row, once-cases, record_request, insert_operation}
use nexus_infra.Registry.Fence.{bound_to}
use nexus_infra.Registry.Fence.Effect.{Bound, bound_to-Bound}
use nexus_infra.Registry.Queue.{
  pending_max, queue_length, posted, post_checks, post_writes, post_fresh, post_body, take_receipt,
  receipt_writes, receipt_body,
}

abbrev pub post_receipt : OperationRequest → ℕ → Receipt
post_receipt q seq = queued q.request_id q.operation_id seq

-- The database after the writes of `post_operation`.
abbrev pub posted_db : Db → Principal → Value → OperationRequest → Db
posted_db db p v q = record db {
  version = db.version + 1;
  operation_sequence = db.operation_sequence + 1;
  operations = db.operations ++ posted p q (db.operation_sequence + 1) ∷ [];
  requests =
      db.requests
      ++ record {
        request_id = q.request_id;
        principal = p;
        action = "operation";
        payload = canonical v;
        receipt = post_receipt q (db.operation_sequence + 1);
      }
        ∷ [];
}

pub record Posted (p : Principal) (v : Value) (q : OperationRequest) (r : Registry) (a : Receipt)
    (db : Db) : Type 0 where
  pub unseen : request_row r.db q.request_id ≡ none
  pub incumbent : Instance
  pub bound : Bound r q.workload_id q.host_id q.generation incumbent
  pub new_operation : operation_row r.db q.operation_id ≡ none
  pub room : ltb (queue_length q.host_id r.db.operations) pending_max ≡ true
  pub receipt : a ≡ post_receipt q (r.db.operation_sequence + 1)
  pub effect : db ≡ posted_db r.db p v q

checks-eq :
    (r : Registry) (q : OperationRequest) (i : Instance)
    → post_checks r q ≡ ok i
    → (bound_to r q.workload_id q.host_id q.generation ≡ ok i)
      × (operation_row r.db q.operation_id ≡ none)
      × (ltb (queue_length q.host_id r.db.operations) pending_max ≡ true)
unfolding post_checks
checks-eq r q i h =
    let (j, bound, rest) = >>=-eq-ok (bound_to r q.workload_id q.host_id q.generation) (λ _. _) h in
    (ground arith, ground arith, ground arith)

writes-eq :
    (db : Db) (p : Principal) (v : Value) (q : OperationRequest) (a : Receipt) (db' : Db)
    → post_writes db p v q (db.operation_sequence + 1) ≡ ok (a, db')
    → (a ≡ post_receipt q (db.operation_sequence + 1)) × (db' ≡ posted_db db p v q)
unfolding post_writes record_request insert_operation
writes-eq db p v q a db' h = ground arith

pub post_body-cases :
    (p : Principal) (v : Value) (q : OperationRequest) (r : Registry) (a : Receipt) (db : Db)
    → post_body p v q r ≡ ok (a, db)
    → (db ≡ r.db) ⊎ Posted p v q r a db
unfolding post_body post_fresh
post_body-cases p v q r a db h =
    elim (once-cases r.db p "operation" q.request_id v (post_fresh r p v q) a db h) [
      | inl same ↦ inl same
      | inr (unseen, made) ↦
          let (i, checks, wrote) = >>=-eq-ok (post_checks r q) (λ _. _) made in
          let (bound, new, room) = checks-eq r q i checks in
          let (receipt, effect) = writes-eq r.db p v q a db wrote in
          inr (record {
            unseen = unseen;
            incumbent = i;
            bound = bound_to-Bound r q.workload_id q.host_id q.generation i bound;
            new_operation = new;
            room = room;
            receipt = receipt;
            effect = effect;
          })
    ]

pub record Reported (p : Principal) (operation_id : String) (v : Value) (q : ReceiptRequest)
    (r : Registry) (db : Db) : Type 0 where
  pub target : Operation
  pub found : operation_row r.db operation_id ≡ some target
  pub owner : own_host p target.host_id ≡ ok tt
  pub next : Option Operation
  pub taken : take_receipt target q (canonical v) ≡ ok next
  pub effect : db ≡ receipt_writes r.db next

pub receipt_body-Reported :
    (p : Principal) (operation_id : String) (v : Value) (q : ReceiptRequest) (r : Registry)
    (a : String) (db : Db)
    → receipt_body p operation_id v q r ≡ ok (a, db)
    → Reported p operation_id v q r db
unfolding receipt_body
receipt_body-Reported p operation_id v q r a db h =
    elim (Option-cases (operation_row r.db operation_id)) [
      | inl gone ↦ absurd (ground arith)
      | inr (o, found) ↦
          let (u, owner, rest) = >>=-eq-ok (own_host p o.host_id) (λ _. _) (rw found at h) in
          let (next, taken, same) = >>=-eq-ok (take_receipt o q (canonical v)) (λ _. _) rest in
          record {
            target = o;
            found = found;
            owner = owner;
            next = next;
            taken = taken;
            effect = ground arith;
          }
    ]

pub post_checks-free :
    (r : Registry) (q : OperationRequest) (i : Instance)
    → post_checks r q ≡ ok i
    → operation_row r.db q.operation_id ≡ none
post_checks-free r q i h = (checks-eq r q i h).1
