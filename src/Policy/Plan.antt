-- ===== src/Policy/Plan.antt =====
-- `plan` of console/policy.py.
pub mod Order
use nexus_infra.Base.{
  ℕ, suc, ◌^◌, String, Bool, true, false, not, ◌&&◌, ◌||◌, List, [], ◌∷◌, Option, none, some, leb,
  ltb, ◌==◌, str_eq, if◌then◌else◌,
}
use nexus_infra.Base.Result.{Result, ok, err, failure, ◌>>=◌, ◌>>◌, require}
use nexus_infra.Base.Strings.{str_lt}
use nexus_infra.Json.Value.{Value, ℤ, pos, null, int, str, arr, obj, Items, nil, cons, Fields}
use nexus_infra.Json.Checks.{fields, item, identifier, digest, text, flag, items_length}

-- An item of the plan.
pub record Due : Type 0 where
  pub workload_id : String
  pub policy_digest : String
  pub evaluated_at : ℕ
  pub due : Bool
  pub reason : String
  pub overdue_by : ℕ
  pub next_due_at : ℤ
  pub freshest : Option (String × ℕ)

invalid_evaluation : {A : Type 0} → Result A
invalid_evaluation = err (failure "invalid-evaluation")

-- An integer that is not negative.
natural : Value → Result ℕ
natural (int (pos n)) = ok n
natural _ = invalid_evaluation

whole : Value → Result ℤ
whole (int n) = ok n
whole _ = invalid_evaluation

-- `_timestamp`
timestamp : Value → Result ℕ
timestamp (int (pos n)) = require (leb n (2 ^ 53)) (failure "invalid-evaluation") >> ok n
timestamp _ = invalid_evaluation

freshest_entry : Value → Result (Option (String × ℕ))
unfolding natural
freshest_entry null = ok none
freshest_entry v = do
  fs ← fields v ("recoveryPointId" ∷ "ageSeconds" ∷ []) "invalid-evaluation"
  id ← digest (← item "recoveryPointId" fs) "invalid-evaluation"
  age ← natural (← item "ageSeconds" fs)
  ok (some (id, age))

texts : Items → Result (Unit {0})
texts nil = ok tt
texts (cons v vs) = let rest = texts vs in text v "invalid-evaluation" >>= λ _. rest

is_list : Value → Result (Unit {0})
is_list (arr vs) = ok tt
is_list _ = invalid_evaluation

text_list : Value → Result (Unit {0})
unfolding texts
text_list (arr vs) = texts vs
text_list _ = invalid_evaluation

abbrev evaluation_fields : List String
evaluation_fields =
    "captureDue" ∷ "evaluatedAt" ∷ "freshestProtected" ∷ "points" ∷ "policyDigest"
    ∷ "protectionStatus" ∷ "workloadId" ∷ []

-- `_evaluation_entry`
unfoldable pub evaluation_entry : Value → Result Due
unfolding invalid_evaluation natural whole timestamp freshest_entry is_list text_list
evaluation_entry v = do
  fs ← fields v evaluation_fields "invalid-evaluation"
  workload_id ← identifier (← item "workloadId" fs) "invalid-evaluation"
  policy_digest ← digest (← item "policyDigest" fs) "invalid-evaluation"
  evaluated_at ← timestamp (← item "evaluatedAt" fs)
  capture ←
      fields (← item "captureDue" fs) ("due" ∷ "reason" ∷ "overdueBySeconds" ∷ "nextDueAt" ∷ [])
        "invalid-evaluation"
  due ← flag (← item "due" capture) "invalid-evaluation"
  reason ← text (← item "reason" capture) "invalid-evaluation"
  overdue ← natural (← item "overdueBySeconds" capture)
  next ← whole (← item "nextDueAt" capture)
  freshest ← freshest_entry (← item "freshestProtected" fs)
  is_list (← item "points" fs)
  status ← fields (← item "protectionStatus" fs) ("healthy" ∷ "reasons" ∷ []) "invalid-evaluation"
  healthy ← flag (← item "healthy" status) "invalid-evaluation"
  text_list (← item "reasons" status)
  ok (record {
    workload_id = workload_id;
    policy_digest = policy_digest;
    evaluated_at = evaluated_at;
    due = due;
    reason = reason;
    overdue_by = overdue;
    next_due_at = next;
    freshest = freshest;
  })

-- `[_evaluation_entry(entry) for entry in evaluations]`
unfoldable pub entries : Items → Result (List Due)
entries nil = ok []
entries (cons v vs) =
    let rest = entries vs in evaluation_entry v >>= λ d. rest >>= λ ds. ok (d ∷ ds)

-- The order of the keys `(-overdueBySeconds, workloadId, policyDigest)`: whether `d` may stand
-- before `e`.
abbrev pub before : Due → Due → Bool
before d e =
    ltb e.overdue_by d.overdue_by
    || (d.overdue_by == e.overdue_by
        && (str_lt d.workload_id e.workload_id
            || (str_eq d.workload_id e.workload_id
                && not (str_lt e.policy_digest d.policy_digest))))

unfoldable pub insert_due : Due → List Due → List Due
insert_due d [] = d ∷ []
insert_due d (e ∷ es) = let rest = insert_due d es in if before d e then d ∷ e ∷ es else e ∷ rest

-- `items.sort`, which keeps the order of equal keys
unfoldable pub sort_due : List Due → List Due
unfolding insert_due
sort_due [] = []
sort_due (d ∷ ds) = insert_due d (sort_due ds)

-- `plan`
unfoldable pub plan : Value → Result (List Due)
plan (arr vs) = do
  require (leb (items_length vs) 1024) (failure "invalid-plan")
  items ← entries vs
  ok (sort_due items)
plan _ = err (failure "invalid-plan")
