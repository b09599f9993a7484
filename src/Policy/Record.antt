-- ===== src/Policy/Record.antt =====
-- The records that the backup policy reads: `validate_policy`, `_record` and `_point_entry` of
-- console/policy.py.
use nexus_infra.Base.{
  ℕ, ◌*◌, String, Bool, List, [], ◌∷◌, Option, none, some, leb, str_eq, if◌then◌else◌, is_some,
  ◌||◌,
}
use nexus_infra.Base.Result.{Result, ok, err, failure, ◌>>=◌, ◌>>◌, require, reraise}
use nexus_infra.Base.Strings.{distinct}
use nexus_infra.Json.Value.{Value, null, obj, arr, str, Items, nil, cons, Fields, get}
use nexus_infra.Json.Checks.{fields, item, identifier, digest, integer, flag, items_length}

-- A valid `workload-backup-policy`.
pub record BackupPolicy : Type 0 where
  pub workload_id : String
  pub revision_digest : String
  pub capture_interval : ℕ
  pub max_age : ℕ
  pub keep_minimum : ℕ
  pub pins : List String

abbrev policy_fields : List String
policy_fields =
    "schemaVersion" ∷ "kind" ∷ "workloadId" ∷ "revisionDigest" ∷ "captureIntervalSeconds"
    ∷ "recoveryPointMaxAgeSeconds" ∷ "keepMinimum" ∷ "protectedPointIds" ∷ []

abbrev max_interval : ℕ
max_interval = 7 * 24 * 3600

abbrev max_age_limit : ℕ
max_age_limit = 30 * 24 * 3600

invalid_policy : {A : Type 0} → Result A
invalid_policy = err (failure "invalid-policy")

object : Value → Result Fields
object (obj fs) = ok fs
object _ = invalid_policy

literal : Value → String → Result (Unit {0})
literal (str s) expected = require (str_eq s expected) (failure "invalid-policy")
literal _ expected = invalid_policy

digests : Items → Result (List String)
digests nil = ok []
digests (cons v vs) =
    let rest = digests vs in digest v "invalid-policy" >>= λ d. rest >>= λ ds. ok (d ∷ ds)

pin_list : Value → Result (List String)
pin_list (arr vs) = do
  require (leb (items_length vs) 1024) (failure "invalid-policy")
  pins ← digests vs
  require (distinct pins) (failure "invalid-policy")
  ok pins
pin_list _ = invalid_policy

-- `validate_policy`
unfoldable pub validate_policy : Value → Result BackupPolicy
unfolding invalid_policy object literal digests pin_list
validate_policy v = do
  found ← object v
  fs ← fields (obj found) policy_fields "invalid-policy-fields"
  schema ← integer (← item "schemaVersion" fs) 1 1 "invalid-policy"
  literal (← item "kind" fs) "workload-backup-policy"
  workload_id ← identifier (← item "workloadId" fs) "invalid-policy"
  revision_digest ← digest (← item "revisionDigest" fs) "invalid-policy"
  capture_interval ← integer (← item "captureIntervalSeconds" fs) 1 max_interval "invalid-policy"
  max_age ← integer (← item "recoveryPointMaxAgeSeconds" fs) 1 max_age_limit "invalid-policy"
  keep_minimum ← integer (← item "keepMinimum" fs) 0 1024 "invalid-policy"
  pins ← pin_list (← item "protectedPointIds" fs)
  ok (record {
    workload_id = workload_id;
    revision_digest = revision_digest;
    capture_interval = capture_interval;
    max_age = max_age;
    keep_minimum = keep_minimum;
    pins = pins;
  })

-- The evidence that a caller attests for a point.
pub record Evidence : Type 0 where
  pub uploaded_copies : ℕ
  pub verified : Bool

-- `_record`
unfoldable pub evidence : Value → Result Evidence
evidence v = do
  fs ← fields v ("uploadedCopies" ∷ "verified" ∷ []) "invalid-point-record"
  verified ← flag (← item "verified" fs) "invalid-point-record"
  copies ← integer (← item "uploadedCopies" fs) 0 1024 "invalid-point-record"
  ok (record { uploaded_copies = copies; verified = verified })

abbrev optional_evidence : Value → Result (Option Evidence)
optional_evidence null = ok none
optional_evidence v = do e ← evidence v; ok (some e)

-- What a manifest of a recovery point says.
pub record Manifest : Type 0 where
  pub workload_id : String
  pub started_at : ℕ
  pub completed_at : ℕ
  pub recovery_point_id : String
  pub legacy : Bool

-- `read_manifest` stands for `recovery.validate_manifest`, whatever it accepts.
module _ (read_manifest : Value → Result Manifest) where
  manifest_of : Value → Result Manifest
  manifest_of v = reraise (failure "invalid-point") (read_manifest v)

  wrapped : Fields → Result (Manifest × Option Evidence)
  unfolding manifest_of
  wrapped found = do
    fs ← fields (obj found) ("manifest" ∷ "record" ∷ []) "invalid-point"
    m ← manifest_of (← item "manifest" fs)
    e ← optional_evidence (← item "record" fs)
    ok (m, e)

  bare : Fields → Result (Manifest × Option Evidence)
  unfolding manifest_of
  bare fs = do m ← manifest_of (obj fs); ok (m, none)

  -- `_point_entry`
  unfoldable pub point_entry : Value → Result (Manifest × Option Evidence)
  unfolding wrapped bare
  point_entry (obj fs) =
      if is_some (get "manifest" fs) || is_some (get "record" fs) then wrapped fs else bare fs
  point_entry _ = err (failure "invalid-point")
