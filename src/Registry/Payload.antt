-- ===== src/Registry/Payload.antt =====
-- `_bounded_payload`, `_validate_operation`, `_validate_receipt` and `_validate_fence` of
-- console/registry.py.
use nexus_infra.Base.{
  ℕ, ◌+◌, ◌^◌, String, Bool, true, false, ◌&&◌, List, [], ◌∷◌, Option, some, leb, ltb, str_eq,
  if◌then◌else◌,
}
use nexus_infra.Base.Result.{Result, ok, err, failure, ◌>>=◌, ◌>>◌, require}
use nexus_infra.Base.Strings.{codes, length}
use nexus_infra.Json.Value.{
  Value, null, boolean, int, float, str, arr, obj, pos, negsuc, Items, nil, cons, Fields, end,
  field, get, keys,
}
use nexus_infra.Json.Checks.{fields, item, identifier, hex32, integer, items_length, max_i64}
use nexus_infra.Catalog.Shape.{enum}

abbrev pub invalid_payload : Result (Unit {0})
invalid_payload = err (failure "invalid-payload")

abbrev key_ok : String → Bool
key_ok k = let n = length (codes k) in ltb 0 n && leb n 64

unfoldable mutual
  pub bounded_payload : Value → ℕ → Result (Unit {0})
  bounded_payload null depth = require (leb depth 8) (failure "invalid-payload")
  bounded_payload (boolean b) depth = require (leb depth 8) (failure "invalid-payload")
  bounded_payload (int (pos n)) depth =
      require (leb depth 8 && leb n (2 ^ 53)) (failure "invalid-payload")
  bounded_payload (int (negsuc n)) depth = invalid_payload
  bounded_payload (float x) depth = invalid_payload
  bounded_payload (str s) depth =
      require (leb depth 8 && leb (length (codes s)) 512) (failure "invalid-payload")
  bounded_payload (arr xs) depth =
      let rest = bounded_items xs (depth + 1) in
      if leb depth 8 && leb (items_length xs) 64 then rest else invalid_payload
  bounded_payload (obj fs) depth =
      let rest = bounded_fields fs (depth + 1) in
      if leb depth 8 && leb (length (keys fs)) 32 then rest else invalid_payload

  pub bounded_items : Items → ℕ → Result (Unit {0})
  bounded_items nil depth = ok tt
  bounded_items (cons x xs) depth =
      let rest = bounded_items xs depth in bounded_payload x depth >> rest

  pub bounded_fields : Fields → ℕ → Result (Unit {0})
  bounded_fields end depth = ok tt
  bounded_fields (field k v fs) depth =
      let rest = bounded_fields fs depth in
      let here = bounded_payload v depth in if key_ok k then here >> rest else invalid_payload

abbrev pub steps : List String
steps =
    "prepare" ∷ "adopt" ∷ "restore-stage" ∷ "restore-commit" ∷ "start" ∷ "stop" ∷ "observe"
    ∷ "freeze" ∷ "capture" ∷ "thaw" ∷ "retire" ∷ []

abbrev pub fence_evidence : List String
fence_evidence = "quorum-attested" ∷ "operator" ∷ []

pub record OperationRequest : Type 0 where
  pub request_id : String
  pub operation_id : String
  pub workload_id : String
  pub host_id : String
  pub generation : ℕ
  pub step : String
  pub payload : Value

is_object : Value → Bool
is_object (obj fs) = true
is_object _ = false

-- `_validate_operation`
unfoldable pub validate_operation : Value → Result OperationRequest
unfolding is_object
validate_operation v = do
  fs ←
      fields v
        ("schemaVersion" ∷ "requestId" ∷ "operationId" ∷ "workloadId" ∷ "hostId" ∷ "generation"
          ∷ "step" ∷ "payload" ∷ [])
        "invalid-request-fields"
  schema ← integer (← item "schemaVersion" fs) 2 2 "invalid-schemaVersion"
  request_id ← hex32 (← item "requestId" fs) "invalid-requestId"
  operation_id ← hex32 (← item "operationId" fs) "invalid-operationId"
  workload_id ← identifier (← item "workloadId" fs) "invalid-workloadId"
  host_id ← identifier (← item "hostId" fs) "invalid-hostId"
  generation ← integer (← item "generation" fs) 1 max_i64 "invalid-generation"
  step ← enum (← item "step" fs) steps "invalid-step"
  payload ← item "payload" fs
  require (is_object payload) (failure "invalid-payload")
  bounded_payload payload 0
  ok (record {
    request_id = request_id;
    operation_id = operation_id;
    workload_id = workload_id;
    host_id = host_id;
    generation = generation;
    step = step;
    payload = payload;
  })

-- The outcome that a receipt reports, by its `status`.
pub data Outcome : Type 0 where
  claim : Outcome
  complete : Value → Outcome
  fail : String → Outcome

pub record ReceiptRequest : Type 0 where
  pub request_id : String
  pub outcome : Outcome

abbrev receipt_base : List String
receipt_base = "schemaVersion" ∷ "requestId" ∷ "status" ∷ []

receipt_head : Value → List String → Result (Fields × String)
receipt_head v expected = do
  fs ← fields v expected "invalid-request-fields"
  schema ← integer (← item "schemaVersion" fs) 2 2 "invalid-schemaVersion"
  request_id ← hex32 (← item "requestId" fs) "invalid-requestId"
  ok (fs, request_id)

completed_receipt : Value → Result ReceiptRequest
unfolding receipt_head
completed_receipt v = do
  head ← receipt_head v ("result" ∷ receipt_base)
  result ← item "result" head.0
  bounded_payload result 0
  ok (record { request_id = head.1; outcome = complete result })

failed_receipt : Value → Result ReceiptRequest
unfolding receipt_head
failed_receipt v = do
  head ← receipt_head v ("errorCode" ∷ receipt_base)
  code ← identifier (← item "errorCode" head.0) "invalid-errorCode"
  ok (record { request_id = head.1; outcome = fail code })

claimed_receipt : Value → Result ReceiptRequest
unfolding receipt_head
claimed_receipt v = do
  head ← receipt_head v receipt_base
  ok (record { request_id = head.1; outcome = claim })

receipt_of : Option Value → Value → Result ReceiptRequest
unfolding claimed_receipt completed_receipt failed_receipt
receipt_of (some (str status)) v =
    if str_eq status "claimed"
    then claimed_receipt v
    else if str_eq status "completed"
    then completed_receipt v
    else if str_eq status "failed"
    then failed_receipt v
    else err (failure "invalid-status")
receipt_of _ v = err (failure "invalid-status")

-- `_validate_receipt`
unfoldable pub validate_receipt : Value → Result ReceiptRequest
unfolding receipt_of
validate_receipt (obj fs) = receipt_of (get "status" fs) (obj fs)
validate_receipt _ = err (failure "invalid-request-fields")

pub record FenceRequest : Type 0 where
  pub request_id : String
  pub workload_id : String
  pub generation : ℕ
  pub host_id : String
  pub evidence : String

-- `_validate_fence`
unfoldable pub validate_fence : Value → Result FenceRequest
validate_fence v = do
  fs ←
      fields v
        ("schemaVersion" ∷ "requestId" ∷ "workloadId" ∷ "generation" ∷ "hostId" ∷ "evidence" ∷ [])
        "invalid-request-fields"
  schema ← integer (← item "schemaVersion" fs) 2 2 "invalid-schemaVersion"
  request_id ← hex32 (← item "requestId" fs) "invalid-requestId"
  workload_id ← identifier (← item "workloadId" fs) "invalid-workloadId"
  generation ← integer (← item "generation" fs) 1 max_i64 "invalid-generation"
  host_id ← identifier (← item "hostId" fs) "invalid-hostId"
  evidence ← enum (← item "evidence" fs) fence_evidence "invalid-evidence"
  ok (record {
    request_id = request_id;
    workload_id = workload_id;
    generation = generation;
    host_id = host_id;
    evidence = evidence;
  })
