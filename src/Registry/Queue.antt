-- ===== src/Registry/Queue.antt =====
-- The operation queue of console/registry.py: `post_operation`, `poll_operations`,
-- `operation_receipt` and `operation_status`.
pub mod Effect
use nexus_infra.Base.{
  ℕ, zero, suc, ◌+◌, String, Bool, true, false, not, ◌&&◌, ◌||◌, List, [], ◌∷◌, Option, none, some,
  ◌==◌, leb, ltb, str_eq, if◌then◌else◌, is_some,
}
use nexus_infra.Base.Result.{Result, ok, err, failure, failure_with, ◌>>=◌, ◌>>◌, require, or_raise}
use nexus_infra.Base.Strings.{is_hex32, is_identifier, length, take}
use nexus_infra.Base.Table.{upsert}
use nexus_infra.Json.Value.{Value, canonical}
use nexus_infra.Json.Equality.{same}
use nexus_infra.Registry.State.{
  Principal, Instance, Operation, Receipt, queued, Status, pending, claimed, completed, failed, Db,
  Registry, operation_row,
}
use nexus_infra.Json.Checks.{max_i64}
use nexus_infra.Registry.Payload.{
  OperationRequest, validate_operation, Outcome, claim, complete, fail, ReceiptRequest,
  validate_receipt,
}
use nexus_infra.Registry.Clock.{Call, after, transaction, principal, with_principal, own_host}
use nexus_infra.Registry.Journal.{once, record_request, insert_operation, same_principal}
use nexus_infra.Registry.Fence.{bound_to}

abbrev pub is_open : Status → Bool
is_open pending = true
is_open claimed = true
is_open _ = false

-- `_OPERATION_PENDING_MAX`
abbrev pub pending_max : ℕ
pending_max = 256

-- The count of the host's operations that are pending or claimed.
unfoldable pub queue_length : String → List Operation → ℕ
queue_length host_id [] = 0
queue_length host_id (o ∷ os) =
    (if str_eq o.host_id host_id && is_open o.status then 1 else 0) + queue_length host_id os

abbrev pub posted : Principal → OperationRequest → ℕ → Operation
posted p q seq = record {
  operation_id = q.operation_id;
  seq = seq;
  host_id = q.host_id;
  workload_id = q.workload_id;
  generation = q.generation;
  step = q.step;
  payload = canonical q.payload;
  request_id = q.request_id;
  principal = p;
  status = pending;
  claim = none;
  final = none;
}

unfoldable pub post_checks : Registry → OperationRequest → Result Instance
post_checks r q = do
  i ← bound_to r q.workload_id q.host_id q.generation
  require (not (is_some (operation_row r.db q.operation_id)))
      (failure_with "operation-conflict" 409)
  require (ltb (queue_length q.host_id r.db.operations) pending_max)
      (failure_with "operation-queue-full" 409)
  ok i

unfoldable pub post_writes : Db → Principal → Value → OperationRequest → ℕ → Result (Receipt × Db)
post_writes db p request q seq = do
  operations ← insert_operation db (posted p q seq)
  let receipt = queued q.request_id q.operation_id seq
  requests ← record_request db p "operation" q.request_id request receipt
  ok (
    receipt,
    record db {
      version = db.version + 1;
      operation_sequence = seq;
      operations = operations;
      requests = requests;
    },
  )

unfoldable pub post_fresh : Registry → Principal → Value → OperationRequest → Result (Receipt × Db)
post_fresh r p request q = do
  i ← post_checks r q
  post_writes r.db p request q (r.db.operation_sequence + 1)

unfoldable pub post_body : Principal → Value → OperationRequest → Registry → Result (Receipt × Db)
post_body p request q r = once r.db p "operation" q.request_id request (post_fresh r p request q)

-- `post_operation`
unfoldable pub post_operation : Principal → Value → Call Receipt
post_operation p request =
    with_principal p ("controller" ∷ [])
      (after (validate_operation request) λ q. transaction (post_body p request q))

abbrev is_pending : Status → Bool
is_pending pending = true
is_pending _ = false

-- The WHERE clause of `poll_operations`.
abbrev pub polled : String → ℕ → Operation → Bool
polled host_id last o = str_eq o.host_id host_id && is_pending o.status && ltb last o.seq

unfoldable pub select : (Operation → Bool) → List Operation → List Operation
select p [] = []
select p (o ∷ os) = let rest = select p os in if p o then o ∷ rest else rest

-- ORDER BY seq
insert_by_seq : Operation → List Operation → List Operation
insert_by_seq o [] = o ∷ []
insert_by_seq o (p ∷ ps) = if leb o.seq p.seq then o ∷ p ∷ ps else p ∷ insert_by_seq o ps

unfoldable pub by_seq : List Operation → List Operation
unfolding insert_by_seq
by_seq [] = []
by_seq (o ∷ os) = insert_by_seq o (by_seq os)

-- `_OPERATION_POLL_MAX`
abbrev pub poll_max : ℕ
poll_max = 64

-- `poll_operations`, whose `after` is at most 2 ** 63 - 1
unfoldable pub poll_operations : Principal → String → ℕ → Registry → Result (List Operation)
poll_operations p host_id last r = do
  principal r.config p ("host" ∷ [])
  require (is_identifier host_id) (failure "invalid-host")
  own_host p host_id
  require (leb last max_i64) (failure "invalid-after")
  ok (take poll_max (by_seq (select (polled host_id last) r.db.operations)))

abbrev pub recorded : Option (String × Value) → String → Value → Bool
recorded none request_id body = false
recorded (some (i, b)) request_id body = str_eq i request_id && same b body

abbrev receipt_conflict : Result (Option Operation)
receipt_conflict = err (failure_with "receipt-conflict" 409)

-- The new row after a claim; `none` where the receipt is a replay.
unfoldable pub take_claim : Operation → String → Value → Result (Option Operation)
take_claim o request_id body = elim o.status [
  | pending ↦ ok (some (record o { status = claimed; claim = some (request_id, body) }))
  | _ ↦ if recorded o.claim request_id body then ok none else receipt_conflict
]

abbrev unfinished : Operation → Bool
unfinished o = is_claimed o.status && not (is_some o.final)
  where
    is_claimed : Status → Bool
    is_claimed claimed = true
    is_claimed _ = false

-- The new row after a terminal receipt.
unfoldable pub take_final : Operation → Status → String → Value → Result (Option Operation)
take_final o status request_id body =
    if is_pending o.status
    then err (failure_with "operation-not-claimed" 409)
    else if recorded o.final request_id body
    then ok none
    else if unfinished o
    then ok (some (record o { status = status; final = some (request_id, body) }))
    else receipt_conflict

unfoldable pub take_receipt : Operation → ReceiptRequest → Value → Result (Option Operation)
take_receipt o q body = elim q.outcome [
  | claim ↦ take_claim o q.request_id body
  | complete v ↦ take_final o completed q.request_id body
  | fail code ↦ take_final o failed q.request_id body
]

unfoldable pub receipt_writes : Db → Option Operation → Db
receipt_writes db none = db
receipt_writes db (some o) = record db {
  version = db.version + 1;
  operations = upsert (λ t. t.operation_id) o db.operations;
}

unfoldable pub receipt_body :
    Principal → String → Value → ReceiptRequest → Registry → Result (String × Db)
receipt_body p operation_id request q r = do
  o ← or_raise (operation_row r.db operation_id) (failure_with "unknown-operation" 404)
  own_host p o.host_id
  next ← take_receipt o q (canonical request)
  ok (operation_id, receipt_writes r.db next)

-- `operation_receipt`, which returns the operation's id
unfoldable pub operation_receipt : Principal → String → Value → Call String
operation_receipt p operation_id request = with_principal p ("host" ∷ []) (
    after (require (is_hex32 operation_id) (failure "invalid-operationId")) λ _.
      after (validate_receipt request) λ q. transaction (receipt_body p operation_id request q))

-- `operation_status`, which returns the row
unfoldable pub operation_status : Principal → String → String → Registry → Result Operation
operation_status p operation_id request_id r = do
  principal r.config p ("controller" ∷ [])
  require (is_hex32 operation_id) (failure "invalid-operationId")
  require (is_hex32 request_id) (failure "invalid-requestId")
  o ← or_raise (operation_row r.db operation_id) (failure_with "unknown-operation" 404)
  require (str_eq o.request_id request_id && same_principal o.principal p)
      (failure_with "forbidden" 403)
  ok o
