-- ===== src/Policy/Tests.antt =====
-- The theorems on the backup policy at a policy with two points.
use nexus_infra.Base.{
  ℕ, ◌+◌, ◌≤◌, ◌≡◌, refl, ◌⊎◌, ◌↔◌, String, true, false, List, [], ◌∷◌, none, some, str_eq,
  if◌then◌else◌,
}
use mathlib.Core.List.{Perm}
use nexus_infra.Base.Result.{Result, ok, err, failure}
use nexus_infra.Base.Strings.{length, is_identifier, is_digest}
use nexus_infra.Base.Table.{any}
use nexus_infra.Json.Value.{
  Value, int, pos, str, boolean, null, arr, obj, nil, cons, end, field, Items,
}
use nexus_infra.Json.Checks.{fields, item, identifier, digest, integer, text, flag}
use nexus_infra.Policy.Record.{BackupPolicy, Manifest, validate_policy, evidence, point_entry}
use nexus_infra.Policy.Evaluate.{
  Point, protected, last_point, but_last, expire, expired, classify, is_protected, is_current,
  expired_eligible, report, evaluate, sort_points, read_points, read_point, add_point,
  last_completed, due_reason, point_list,
}
use nexus_infra.Policy.Retention.{keep_minimum_wins, may_expire, expired-justified}
use nexus_infra.Policy.Health.{healthy_iff_no_reasons, Protected, healthy-Protected}
use nexus_infra.Policy.Plan.{Due, evaluation_entry, entries, sort_due, insert_due, plan}
use nexus_infra.Policy.Plan.Order.{is_ordered, plan-is_ordered}

abbrev old_id : String
old_id = "sha256:0123456789abcdef0123456789abcdef0123456789abcdef0123456789abcdef"

abbrev new_id : String
new_id = "sha256:1123456789abcdef0123456789abcdef0123456789abcdef0123456789abcdef"

abbrev policy_record : BackupPolicy
policy_record = record {
  workload_id = "web";
  revision_digest = old_id;
  capture_interval = 100;
  max_age = 50;
  keep_minimum = 1;
  pins = [];
}

abbrev policy : Value
policy = obj (
    field "schemaVersion" (int (pos 1)) (
      field "kind" (str "workload-backup-policy") (
        field "workloadId" (str "web") (
          field "revisionDigest" (str old_id) (
            field "captureIntervalSeconds" (int (pos 100)) (
              field "recoveryPointMaxAgeSeconds" (int (pos 50))
                (field "keepMinimum" (int (pos 1)) (field "protectedPointIds" (arr nil) end))))))))

abbrev point_at : String → ℕ → Point
point_at k t = record {
  id = k;
  started_at = t;
  completed_at = t + 1;
  legacy = false;
  pinned = false;
  evidence = some (record { uploaded_copies = 1; verified = true });
  verified_copy = true;
}

-- A manifest is given as its id, and the point started at 60 if it is the new one.
abbrev manifest_at : Value → Result Manifest
manifest_at (str k) = ok (record {
  workload_id = "web";
  started_at = if str_eq k new_id then 60 else 10;
  completed_at = if str_eq k new_id then 61 else 11;
  recovery_point_id = k;
  legacy = false;
})
manifest_at _ = err (failure "invalid-manifest")

abbrev entry : String → Value
entry k = obj (
    field "manifest" (str k) (
      field "record"
        (obj (field "uploadedCopies" (int (pos 1)) (field "verified" (boolean true) end))) end))

abbrev points : Value
points = arr (cons (entry new_id) (cons (entry old_id) nil))

abbrev sorted : List Point
sorted = point_at old_id 10 ∷ point_at new_id 60 ∷ []

abbrev digest_of : BackupPolicy → String
digest_of p = p.revision_digest

keep_minimum_wins_example :
    (expired policy_record 100 sorted ≡ [])
    ⊎ (length (expired policy_record 100 sorted) + 1 ≤ length (protected sorted))
keep_minimum_wins_example = keep_minimum_wins policy_record 100 sorted

old_expires :
    classify policy_record 100
      (last_point (protected sorted))
      (expired policy_record 100 sorted)
      (point_at old_id 10)
    ≡ expired_eligible
unfolding classify expired expire protected last_point but_last
old_expires = refl

expired-justified_example :
    (is_protected (point_at old_id 10) ≡ true)
    × (is_current (last_point (protected sorted)) (point_at old_id 10) ≡ false)
    × (any (may_expire policy_record 100 old_id) sorted ≡ true)
expired-justified_example =
    expired-justified policy_record 100 sorted (point_at old_id 10) old_expires

evaluates :
    evaluate manifest_at digest_of policy points 100 none
    ≡ ok (report digest_of policy_record 100 none sorted)
unfolding evaluate validate_policy fields item identifier digest integer is_identifier is_digest
    point_list read_points read_point point_entry evidence add_point sort_points flag
evaluates = refl

is_healthy : (report digest_of policy_record 100 none sorted).healthy ≡ true
unfolding report protected last_point last_completed due_reason
is_healthy = refl

healthy_iff_no_reasons_example :
    ((report digest_of policy_record 100 none sorted).healthy ≡ true)
    ↔ ((report digest_of policy_record 100 none sorted).status_reasons ≡ [])
healthy_iff_no_reasons_example =
    healthy_iff_no_reasons manifest_at digest_of policy points 100 none
      (report digest_of policy_record 100 none sorted) evaluates

healthy-Protected_example :
    (p : BackupPolicy) × (ps : List Point) × (validate_policy policy ≡ ok p)
    × (point_list manifest_at p 100 points ≡ ok ps)
    × Protected p 100 none (sort_points ps)
healthy-Protected_example =
    healthy-Protected manifest_at digest_of policy points 100 none
      (report digest_of policy_record 100 none sorted) evaluates is_healthy

abbrev evaluation_at : ℕ → Value
evaluation_at n = obj (
    field "workloadId" (str "web") (
      field "policyDigest" (str old_id) (
        field "evaluatedAt" (int (pos 100)) (
          field "captureDue"
            (obj (
              field "due" (boolean true) (
                field "reason" (str "interval-elapsed")
                  (field "overdueBySeconds" (int (pos n)) (field "nextDueAt" (int (pos 7)) end)))))
            (field "freshestProtected" null (
              field "points" (arr nil) (
                field "protectionStatus"
                  (obj (
                    field "healthy" (boolean false)
                      (field "reasons" (arr (cons (str "capture-due") nil)) end)))
                  end)))))))

abbrev due_at : ℕ → Due
due_at n = record {
  workload_id = "web";
  policy_digest = old_id;
  evaluated_at = 100;
  due = true;
  reason = "interval-elapsed";
  overdue_by = n;
  next_due_at = pos 7;
  freshest = none;
}

abbrev both : Items
both = cons (evaluation_at 3) (cons (evaluation_at 5) nil)

plans : plan (arr both) ≡ ok (due_at 5 ∷ due_at 3 ∷ [])
unfolding plan entries evaluation_entry fields item identifier digest is_identifier is_digest text
    flag sort_due insert_due
plans = refl

plan-is_ordered_example :
    (read : List Due) × (entries both ≡ ok read)
    × Perm (due_at 5 ∷ due_at 3 ∷ []) read
    × (is_ordered (due_at 5 ∷ due_at 3 ∷ []) ≡ true)
plan-is_ordered_example = plan-is_ordered both (due_at 5 ∷ due_at 3 ∷ []) plans
