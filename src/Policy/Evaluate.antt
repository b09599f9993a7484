-- ===== src/Policy/Evaluate.antt =====
-- `evaluate` of console/policy.py.
use nexus_infra.Base.{
  ℕ, suc, ◌+◌, ◌-◌, ◌^◌, String, Bool, true, false, not, ◌&&◌, ◌||◌, List, [], ◌∷◌, ◌++◌, map,
  Option, none, some, leb, ltb, ◌==◌, str_eq, if◌then◌else◌, is_some,
}
use Prim.Native.Nat.{max}
use nexus_infra.Base.Result.{Result, ok, err, failure, ◌>>=◌, ◌>>◌, require}
use nexus_infra.Base.Strings.{length, mem, str_lt}
use nexus_infra.Base.Table.{row}
use nexus_infra.Json.Value.{Value, Items, nil, cons, arr}
use nexus_infra.Json.Checks.{items_length}
use nexus_infra.Policy.Record.{BackupPolicy, Evidence, Manifest, validate_policy, point_entry}

pub record Point : Type 0 where
  pub id : String
  pub started_at : ℕ
  pub completed_at : ℕ
  pub legacy : Bool
  pub pinned : Bool
  pub evidence : Option Evidence
  pub verified_copy : Bool

abbrev has_copy : Option Evidence → Bool
has_copy none = false
has_copy (some e) = e.verified && leb 1 e.uploaded_copies

abbrev same_evidence : Option Evidence → Option Evidence → Bool
same_evidence none none = true
same_evidence (some a) (some b) =
    a.uploaded_copies == b.uploaded_copies && (if a.verified then b.verified else not b.verified)
same_evidence _ _ = false

abbrev point_of : BackupPolicy → Manifest → Option Evidence → Point
point_of p m e = record {
  id = m.recovery_point_id;
  started_at = m.started_at;
  completed_at = m.completed_at;
  legacy = m.legacy;
  pinned = mem m.recovery_point_id p.pins;
  evidence = e;
  verified_copy = has_copy e;
}

-- The point of an entry is added to `parsed`, or is there with the same evidence.
unfoldable pub add_point : List Point → Point → Result (List Point)
add_point parsed q = elim (row (λ t. t.id) q.id parsed) [
  | none ↦ ok (parsed ++ q ∷ [])
  | some t ↦
      require (same_evidence t.evidence q.evidence) (failure "conflicting-point") >> ok parsed
]

module _ (read_manifest : Value → Result Manifest) where
  unfoldable pub read_point : BackupPolicy → ℕ → Value → List Point → Result (List Point)
  read_point p now v parsed = do
    entry ← point_entry read_manifest v
    require (str_eq entry.0.workload_id p.workload_id) (failure "foreign-workload")
    require (leb entry.0.started_at now) (failure "point-in-future")
    add_point parsed (point_of p entry.0 entry.1)

  -- The loop over `points`.
  unfoldable pub read_points : BackupPolicy → ℕ → Items → List Point → Result (List Point)
  unfolding read_point
  read_points p now nil parsed = ok parsed
  read_points p now (cons v vs) parsed =
      read_point p now v parsed >>= λ next. read_points p now vs next

  unfoldable pub point_list : BackupPolicy → ℕ → Value → Result (List Point)
  unfolding read_points
  point_list p now (arr vs) =
      require (leb (items_length vs) 10000) (failure "invalid-points") >> read_points p now vs []
  point_list p now _ = err (failure "invalid-points")

-- The order of the key `(startedAt, id)`.
abbrev pub point_le : Point → Point → Bool
point_le p q =
    ltb p.started_at q.started_at || (p.started_at == q.started_at && not (str_lt q.id p.id))

insert_point : Point → List Point → List Point
insert_point p [] = p ∷ []
insert_point p (q ∷ qs) =
    let rest = insert_point p qs in if point_le p q then p ∷ q ∷ qs else q ∷ rest

unfoldable pub sort_points : List Point → List Point
unfolding insert_point
sort_points [] = []
sort_points (p ∷ ps) = insert_point p (sort_points ps)

abbrev pub is_protected : Point → Bool
is_protected p = not p.legacy && (p.pinned || p.verified_copy)

unfoldable pub protected : List Point → List Point
protected [] = []
protected (p ∷ ps) = let rest = protected ps in if is_protected p then p ∷ rest else rest

-- `protected[-1] if protected else None`
unfoldable pub last_point : List Point → Option Point
last_point [] = none
last_point (p ∷ []) = some p
last_point (p ∷ q ∷ qs) = last_point (q ∷ qs)

-- `protected[:-1]`
unfoldable pub but_last : List Point → List Point
but_last [] = []
but_last (p ∷ []) = []
but_last (p ∷ q ∷ qs) = p ∷ but_last (q ∷ qs)

abbrev pub over_age : BackupPolicy → ℕ → Point → Bool
over_age p now q = ltb p.max_age (now - q.started_at)

-- The loop that expires points. `retained - 1 < keep_minimum` is tested without the subtraction.
unfoldable pub expire : BackupPolicy → ℕ → List Point → ℕ → List Point
expire p now [] retained = []
expire p now (q ∷ qs) retained =
    let skipped = expire p now qs retained in
    let taken = expire p now qs (retained - 1) in
    if q.pinned || not (over_age p now q)
    then skipped
    else if ltb retained (suc p.keep_minimum)
    then skipped
    else q ∷ taken

unfoldable pub expired : BackupPolicy → ℕ → List Point → List Point
expired p now ps = expire p now (but_last (protected ps)) (length (protected ps))

pub data Classification : Type 0 where
  legacy_v2 unprotected current_protected expired_eligible retained : Classification

abbrev pub is_current : Option Point → Point → Bool
is_current none q = false
is_current (some c) q = str_eq q.id c.id

unfoldable pub classify : BackupPolicy → ℕ → Option Point → List Point → Point → Classification
classify p now current gone q =
    if q.legacy
    then legacy_v2
    else if not q.pinned && not q.verified_copy
    then unprotected
    else if is_current current q
    then current_protected
    else if mem q.id (map (λ t. t.id) gone)
    then expired_eligible
    else retained

abbrev evidence_reasons : Option Evidence → Bool → List String
evidence_reasons none pinned = if pinned then [] else "evidence-missing" ∷ []
evidence_reasons (some e) pinned =
    (if e.verified then [] else "unverified" ∷ [])
    ++ (if ltb e.uploaded_copies 1 then "no-uploaded-copy" ∷ [] else [])

abbrev class_reasons : BackupPolicy → ℕ → Point → Classification → List String
class_reasons p now q c = elim c [
  | legacy_v2 ↦ "legacy-format" ∷ []
  | unprotected ↦ []
  | current_protected ↦ "newest-protected" ∷ []
  | expired_eligible ↦ "older-than-max-age" ∷ []
  | retained ↦
      if q.pinned
      then []
      else if over_age p now q
      then "keep-minimum" ∷ []
      else "within-max-age" ∷ []
]

unfoldable pub reasons_of : BackupPolicy → ℕ → Point → Classification → List String
reasons_of p now q c =
    (if q.pinned then "pinned" ∷ [] else [])
    ++ (if q.verified_copy then "verified-copy" ∷ [] else evidence_reasons q.evidence q.pinned)
    ++ class_reasons p now q c

pub record PointReport : Type 0 where
  pub id : String
  pub started_at : ℕ
  pub classification : Classification
  pub reasons : List String

unfoldable pub report_point : BackupPolicy → ℕ → Option Point → List Point → Point → PointReport
report_point p now current gone q = record {
  id = q.id;
  started_at = q.started_at;
  classification = classify p now current gone q;
  reasons = reasons_of p now q (classify p now current gone q);
}

-- The newest completed capture, of the points and of the caller.
unfoldable pub last_completed : Option ℕ → List Point → Option ℕ
last_completed last [] = last
last_completed last (q ∷ qs) = elim (last_completed last qs) [
  | none ↦ some q.completed_at
  | some t ↦ some (max q.completed_at t)
]

abbrev pub interval_over : BackupPolicy → ℕ → Option ℕ → Bool
interval_over p now none = true
interval_over p now (some t) = ltb p.capture_interval (now - t)

pub data DueReason : Type 0 where
  no_points interval_elapsed no_protected_point not_due : DueReason

unfoldable pub due_reason : BackupPolicy → ℕ → List Point → Option ℕ → Option Point → DueReason
due_reason p now [] last current = no_points
due_reason p now (q ∷ qs) last current =
    if interval_over p now last
    then interval_elapsed
    else if not (is_some current)
    then no_protected_point
    else not_due

abbrev pub is_due : DueReason → Bool
is_due not_due = false
is_due _ = true

abbrev next_due : BackupPolicy → ℕ → Option ℕ → ℕ
next_due p now none = now
next_due p now (some t) = t + p.capture_interval

abbrev pub stale : BackupPolicy → ℕ → Option Point → List String
stale p now none = "no-protected-point" ∷ []
stale p now (some c) = if over_age p now c then "protected-point-stale" ∷ [] else []

abbrev pub recent : BackupPolicy → ℕ → Option Point → Bool
recent p now none = false
recent p now (some c) = leb (now - c.started_at) p.max_age

pub record Evaluation : Type 0 where
  pub policy_digest : String
  pub workload_id : String
  pub evaluated_at : ℕ
  pub reason : DueReason
  pub overdue_by : ℕ
  pub next_due_at : ℕ
  pub points : List PointReport
  pub freshest : Option (String × ℕ)
  pub healthy : Bool
  pub status_reasons : List String

abbrev freshest_of : ℕ → Option Point → Option (String × ℕ)
freshest_of now none = none
freshest_of now (some c) = some (c.id, now - c.started_at)

-- `evaluate` after its points are read and sorted.
unfoldable pub report :
    (BackupPolicy → String) → BackupPolicy → ℕ → Option ℕ → List Point → Evaluation
report digest_of p now last ordered =
    let current = last_point (protected ordered) in
    let completed = last_completed last ordered in
    let reason = due_reason p now ordered completed current in
    record {
      policy_digest = digest_of p;
      workload_id = p.workload_id;
      evaluated_at = now;
      reason = reason;
      overdue_by = now - next_due p now completed;
      next_due_at = next_due p now completed;
      points = map (report_point p now current (expired p now ordered)) ordered;
      freshest = freshest_of now current;
      healthy = recent p now current && not (is_due reason);
      status_reasons = stale p now current ++ (if is_due reason then "capture-due" ∷ [] else []);
    }

abbrev pub last_ok : ℕ → Option ℕ → Bool
last_ok now none = true
last_ok now (some t) = leb t (2 ^ 53) && leb t now

-- `evaluate`; `digest_of` is `policy_digest` of the valid policy.
unfoldable pub evaluate :
    (Value → Result Manifest)
    → (BackupPolicy → String)
    → Value
    → Value
    → ℕ
    → Option ℕ
    → Result Evaluation
unfolding point_list
evaluate read_manifest digest_of policy points now last = do
  p ← validate_policy policy
  require (leb now (2 ^ 53)) (failure "invalid-now")
  require (last_ok now last) (failure "invalid-last-capture")
  parsed ← point_list read_manifest p now points
  ok (report digest_of p now last (sort_points parsed))
