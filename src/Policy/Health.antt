-- ===== src/Policy/Health.antt =====
-- The field `healthy` of `evaluate` of console/policy.py.
use nexus_infra.Base.{
  ℕ, ◌≤◌, ◌≡◌, refl, sym, arith, ◌+◌, ◌^◌, ◌↔◌, String, true, false, not, ◌&&◌, List, [], ◌∷◌, ◌++◌,
  Option, none, some, leb, if◌then◌else◌,
}
use nexus_infra.Base.Result.{Result, ok, require, failure, >>=-eq-ok, ok-injective}
use nexus_infra.Json.Value.{Value}
use nexus_infra.Policy.Record.{BackupPolicy, Manifest, validate_policy}
use nexus_infra.Policy.Evaluate.{
  Point, protected, last_point, last_completed, interval_over, due_reason, DueReason, is_due, stale,
  recent, Evaluation, report, evaluate, sort_points, last_ok, point_list,
}

reasons-empty :
    (p : BackupPolicy) (now : ℕ) (current : Option Point) (r : DueReason)
    → ((recent p now current && not (is_due r)) ≡ true)
      ↔ ((stale p now current ++ (if is_due r then "capture-due" ∷ [] else [])) ≡ [])
reasons-empty p now none r = (λ h. absurd (ground arith), λ h. absurd (ground arith))
reasons-empty p now (some c) r = (λ h. ground arith, λ h. ground arith)

-- An evaluation is the report on the points that were read, in their order.
evaluate-reports :
    (read : Value → Result Manifest) (digest_of : BackupPolicy → String) (policy points : Value)
    (now : ℕ) (last : Option ℕ) (e : Evaluation)
    → evaluate read digest_of policy points now last ≡ ok e
    → (p : BackupPolicy) × (ps : List Point) × (validate_policy policy ≡ ok p)
      × (point_list read p now points ≡ ok ps)
      × (e ≡ report digest_of p now last (sort_points ps))
unfolding evaluate
evaluate-reports read digest_of policy points now last e h =
    let (p, valid, h₁) = >>=-eq-ok (validate_policy policy) _ h in
    let (_, _, h₂) = >>=-eq-ok (require (leb now (2 ^ 53)) (failure "invalid-now")) _ h₁ in
    let (_, _, h₃) = >>=-eq-ok (require (last_ok now last) (failure "invalid-last-capture")) _ h₂ in
    let (ps, parsed, h₄) = >>=-eq-ok (point_list read p now points) _ h₃ in
    (p, ps, valid, parsed, sym (ok-injective h₄))

report-healthy :
    (digest_of : BackupPolicy → String) (p : BackupPolicy) (now : ℕ) (last : Option ℕ)
    (ps : List Point)
    → ((report digest_of p now last ps).healthy ≡ true)
      ↔ ((report digest_of p now last ps).status_reasons ≡ [])
unfolding report
report-healthy digest_of p now last ps = reasons-empty p now _ _

-- An evaluation calls the workload healthy exactly if it gives no reason against it.
pub healthy_iff_no_reasons :
    (read : Value → Result Manifest) (digest_of : BackupPolicy → String) (policy points : Value)
    (now : ℕ) (last : Option ℕ) (e : Evaluation)
    → evaluate read digest_of policy points now last ≡ ok e
    → (e.healthy ≡ true) ↔ (e.status_reasons ≡ [])
healthy_iff_no_reasons read digest_of policy points now last e h =
    let (p, ps, _, _, same) = evaluate-reports read digest_of policy points now last e h in
    rw same (report-healthy digest_of p now last (sort_points ps))

-- What stands behind a healthy evaluation: a newest protected point that is recent enough, and a
-- completed capture that is recent enough.
pub record Protected (p : BackupPolicy) (now : ℕ) (last : Option ℕ) (ps : List Point) : Type 0 where
  pub newest : Point
  pub is_newest : last_point (protected ps) ≡ some newest
  pub young : now ≤ newest.started_at + p.max_age
  pub capture : ℕ
  pub is_capture : last_completed last ps ≡ some capture
  pub on_time : now ≤ capture + p.capture_interval

due-free :
    (p : BackupPolicy) (now : ℕ) (ps : List Point) (last : Option ℕ) (current : Option Point)
    → is_due (due_reason p now ps last current) ≡ false
    → interval_over p now last ≡ false
unfolding due_reason
due-free p now [] last current h = cc
due-free p now (q ∷ qs) last current h = ground arith

stands :
    (p : BackupPolicy) (now : ℕ) (last : Option ℕ) (ps : List Point) (current : Option Point)
    (capture : Option ℕ)
    → last_point (protected ps) ≡ current
    → last_completed last ps ≡ capture
    → recent p now current ≡ true
    → interval_over p now capture ≡ false
    → Protected p now last ps
stands p now last ps none c e f young over = cc
stands p now last ps (some q) none e f young over = cc
stands p now last ps (some q) (some t) e f young over = record {
  newest = q;
  is_newest = e;
  young = ground arith;
  capture = t;
  is_capture = f;
  on_time = ground arith;
}

report-Protected :
    (digest_of : BackupPolicy → String) (p : BackupPolicy) (now : ℕ) (last : Option ℕ)
    (ps : List Point)
    → (report digest_of p now last ps).healthy ≡ true
    → Protected p now last ps
unfolding report
report-Protected digest_of p now last ps h =
    stands p now last ps _ _ refl refl (ground arith)
      (due-free p now ps _ (last_point (protected ps)) (ground arith))

-- An evaluation that calls the workload healthy has read the policy and the points that it was given.
-- Of these points the newest protected one started no longer ago than the policy's greatest age, and
-- the newest completed capture, of these points or of the caller, is no older than the capture
-- interval.
pub healthy-Protected :
    (read : Value → Result Manifest) (digest_of : BackupPolicy → String) (policy points : Value)
    (now : ℕ) (last : Option ℕ) (e : Evaluation)
    → evaluate read digest_of policy points now last ≡ ok e
    → e.healthy ≡ true
    → (p : BackupPolicy) × (ps : List Point) × (validate_policy policy ≡ ok p)
      × (point_list read p now points ≡ ok ps)
      × Protected p now last (sort_points ps)
healthy-Protected read digest_of policy points now last e h well =
    let (p, ps, valid, parsed, same) = evaluate-reports read digest_of policy points now last e h in
    (p, ps, valid, parsed, report-Protected digest_of p now last (sort_points ps) (rw same at well))
