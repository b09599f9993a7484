-- ===== src/Registry/Journal.antt =====
-- `_request_replay` and `_record_request` of console/registry.py, and the writes to its tables with
-- the constraints that the schema declares.
use nexus_infra.Base.{
  ℕ, ◌≡◌, ◌⊎◌, arith, String, Bool, true, false, not, ◌&&◌, List, [], ◌∷◌, ◌++◌, Option, none, some,
  ◌==◌, str_eq, is_some,
}
use nexus_infra.Base.Result.{Result, ok, err, failure_with, ◌>>=◌, ◌>>◌, require}
use nexus_infra.Base.Table.{any, row}
use nexus_infra.Json.Value.{Value, canonical}
use nexus_infra.Json.Equality.{same}
use nexus_infra.Registry.State.{
  Principal, Instance, Receipt, RequestRow, Operation, Fence, Db, instance_row, operation_row,
  fence_row,
}

abbrev same_option : Option String → Option String → Bool
same_option none none = true
same_option (some a) (some b) = str_eq a b
same_option _ _ = false

-- Equality of `_principal_key`s.
unfoldable pub same_principal : Principal → Principal → Bool
same_principal p q =
    str_eq p.identity q.identity && str_eq p.role q.role && same_option p.host_id q.host_id

abbrev pub request_row : Db → String → Option RequestRow
request_row db request_id = row (λ q. q.request_id) request_id db.requests

abbrev pub conflict : String → Result (Unit {0})
conflict code = err (failure_with code 409)

unfoldable pub replay_of : Option RequestRow → Principal → String → Value → Result (Option Receipt)
unfolding same_principal
replay_of none p action request = ok none
replay_of (some q) p action request = do
  require
      (same_principal q.principal p && str_eq q.action action && same q.payload (canonical request))
      (failure_with "request-conflict" 409)
  ok (some q.receipt)

-- `_request_replay`
unfoldable pub request_replay : Db → Principal → String → String → Value → Result (Option Receipt)
unfolding replay_of
request_replay db p action request_id request =
    replay_of (request_row db request_id) p action request

answer : Db → Option Receipt → Result (Receipt × Db) → Result (Receipt × Db)
answer db (some receipt) fresh = ok (receipt, db)
answer db none fresh = fresh

-- The beginning of every journaled transaction: a request that was accepted before is answered by
-- its receipt, and a new one by the rest of the transaction.
unfoldable pub once :
    Db → Principal → String → String → Value → Result (Receipt × Db) → Result (Receipt × Db)
unfolding request_replay answer
once db p action request_id request fresh = do
  replay ← request_replay db p action request_id request
  answer db replay fresh

pub once-cases :
    (db : Db) (p : Principal) (action request_id : String) (request : Value)
    (fresh : Result (Receipt × Db)) (a : Receipt) (db' : Db)
    → once db p action request_id request fresh ≡ ok (a, db')
    → (db' ≡ db) ⊎ ((request_row db request_id ≡ none) × (fresh ≡ ok (a, db')))
unfolding once
once-cases db p action request_id request fresh a db' h = ground arith

pub once-unseen :
    (db : Db) (p : Principal) (action request_id : String) (request : Value)
    (fresh : Result (Receipt × Db))
    → request_row db request_id ≡ none
    → once db p action request_id request fresh ≡ fresh
unfolding once
once-unseen db p action request_id request fresh unseen = rw unseen

pub once-seen :
    (db : Db) (p : Principal) (action request_id : String) (request : Value)
    (fresh : Result (Receipt × Db)) (a : Receipt) (db' : Db) (q : RequestRow)
    → request_row db request_id ≡ some q
    → once db p action request_id request fresh ≡ ok (a, db')
    → (db' ≡ db) × (replay_of (some q) p action request ≡ ok (some a))
unfolding once
once-seen db p action request_id request fresh a db' q seen h = ground arith

-- A constraint of the schema that an INSERT would violate.
abbrev pub unique : Bool → Result (Unit {0})
unique free = require free (failure_with "sqlite3.IntegrityError" 500)

-- `_record_request`, which INSERTs under the primary key `request_id`.
unfoldable pub record_request :
    Db → Principal → String → String → Value → Receipt → Result (List RequestRow)
record_request db p action request_id request receipt = do
  unique (not (is_some (request_row db request_id)))
  ok (
      db.requests
      ++ record {
        request_id = request_id;
        principal = p;
        action = action;
        payload = canonical request;
        receipt = receipt;
      }
        ∷ [])

abbrev pub holds_generation : String → ℕ → Instance → Bool
holds_generation workload_id generation i =
    str_eq i.workload_id workload_id && i.generation == generation

-- INSERT INTO instances: the primary key, and UNIQUE(workload_id, generation).
unfoldable pub insert_instance : Db → Instance → Result (List Instance)
insert_instance db i = do
  unique (not (is_some (instance_row db i.instance_id)))
  unique (not (any (holds_generation i.workload_id i.generation) db.instances))
  ok (db.instances ++ i ∷ [])

-- INSERT INTO operations: the primary key, and the unique sequence number and request id.
unfoldable pub insert_operation : Db → Operation → Result (List Operation)
insert_operation db o = do
  unique (not (is_some (operation_row db o.operation_id)))
  unique (not (any (λ q. q.seq == o.seq) db.operations))
  unique (not (any (λ q. str_eq q.request_id o.request_id) db.operations))
  ok (db.operations ++ o ∷ [])

-- INSERT INTO fences under the primary key (workload_id, generation).
unfoldable pub insert_fence : Db → Fence → Result (List Fence)
insert_fence db f = do
  unique (not (is_some (fence_row db f.workload_id f.generation)))
  ok (db.fences ++ f ∷ [])
