-- ===== src/Registry/Valid/Reach.antt =====
-- The invariant over histories, and the check of a database that is opened.
use nexus_infra.Base.{
  ℕ, ◌+◌, String, true, false, List, [], ◌∷◌, none, ◌==◌, str_eq, eq_iff, ◌≡◌, refl, arith, sym,
  ◌∙◌, subst, ap, &&-eq-true,
}
use nexus_infra.Base.Result.{ok}
use nexus_infra.Base.Table.{any, all-any, all_mono}
use nexus_infra.Json.Value.{Value}
use nexus_infra.Registry.State.{
  Principal, Config, Placement, Instance, Operation, Db, Registry, placement, generation_of,
}
use nexus_infra.Registry.Requests.{AssignRequest}
use nexus_infra.Registry.Payload.{OperationRequest}
use nexus_infra.Registry.Journal.{
  request_row, holds_generation, insert_instance, record_request, insert_operation,
}
use nexus_infra.Registry.Assign.{assign_receipt, assign_checks, assign_writes, assign_fresh}
use nexus_infra.Registry.Assign.Effect.{assign_checks-free, assigned, next_generation}
use nexus_infra.Registry.Queue.{post_checks, post_writes, post_fresh}
use nexus_infra.Registry.Queue.Effect.{post_receipt, post_checks-free, posted_db}
use nexus_infra.Registry.Compat.{check_compat, placement_fits}
use nexus_infra.Registry.Events.{Event, step, run, Allows, step-Changes}
use nexus_infra.Registry.Valid.{placement_ok, instance_ok, operation_ok, IsValid}
use nexus_infra.Registry.Valid.Assign.{assign_body-IsValid}
use nexus_infra.Registry.Valid.Others.{
  open_session_body-IsValid, observe_body-IsValid, show_body-IsValid, fence_body-IsValid,
  post_body-IsValid, receipt_body-IsValid,
}

Allows-IsValid : Allows (λ c e db db'. IsValid c db → IsValid c db')
Allows-IsValid = record {
  still = λ c e db h. h;
  opening = open_session_body-IsValid;
  observing = observe_body-IsValid;
  assigning = assign_body-IsValid;
  showing = show_body-IsValid;
  fencing = fence_body-IsValid;
  posting = post_body-IsValid;
  reporting = receipt_body-IsValid;
}

pub step-IsValid :
    (e : Event) (r : Registry) → IsValid r.config r.db → IsValid (step e r).config (step e r).db
step-IsValid e r h =
    let (config, epoch, keeps) = step-Changes Allows-IsValid e r in
    subst (λ c. IsValid c (step e r).db) (sym config) (keeps h)

pub config-step : (e : Event) (r : Registry) → (step e r).config ≡ r.config
config-step e r = (step-Changes Allows-IsValid e r).0

pub config-run : (es : List Event) (r : Registry) → (run es r).config ≡ r.config
unfolding run
config-run [] r = refl
config-run (e ∷ es) r = config-run es (step e r) ∙ config-step e r

-- From a valid database, every sequence of calls, whether they return or raise, leaves a valid one:
-- each placement has its instance, with its workload and generation, and no instance is newer than the
-- placement of its workload; no operation has a later sequence number than the last one given, and its
-- request is journaled; and instances, operations and fences fit the configuration.
pub run-IsValid :
    (es : List Event) (r : Registry)
    → IsValid r.config r.db
    → IsValid (run es r).config (run es r).db
unfolding run
run-IsValid [] r h = h
run-IsValid (e ∷ es) r h = run-IsValid es (step e r) (step-IsValid e r h)

placement_ok-fits :
    (db : Db) (p : Placement) → placement_ok db p ≡ true → placement_fits db p ≡ true
placement_ok-fits db p h = ground arith

IsValid-compat : (c : Config) (db : Db) → IsValid c db → check_compat c db ≡ ok tt
unfolding check_compat
IsValid-compat c db v = rw (
  v.instances_fit,
  all_mono _ _ db.placements (placement_ok-fits db) v.placements_ok,
  v.operations_fit,
  v.fences_fit,
)

-- From a valid database, whatever calls arrive in whatever order, and whether they return or raise,
-- the database passes the check that is made when it is opened again under the same configuration.
pub run-check_compat :
    (es : List Event) (r : Registry)
    → IsValid r.config r.db
    → check_compat r.config (run es r).db ≡ ok tt
run-check_compat es r h =
    IsValid-compat r.config (run es r).db
      (subst (λ c. IsValid c (run es r).db) (config-run es r) (run-IsValid es r h))

newer :
    (db : Db) (w : String) (i : Instance)
    → instance_ok db i ≡ true
    → holds_generation w (generation_of (placement db w) + 1) i ≡ true
    → ⊥
newer db w i old new =
    let (a, b) =
      &&-eq-true (str_eq i.workload_id w) (i.generation == generation_of (placement db w) + 1)
        new in
    let e = ap (λ x. generation_of (placement db x)) ((eq_iff i.workload_id w).0 a) in
    ground (arith, e)

-- No instance holds a generation above that of the placement.
next-free :
    (c : Config) (db : Db) (w : String)
    → IsValid c db
    → any (holds_generation w (generation_of (placement db w) + 1)) db.instances ≡ false
next-free c db w v = all-any _ _ db.instances (newer db w) v.instances_ok

-- In a valid database an `assign` that passes its checks, with a request id that is new, succeeds:
-- neither the primary key nor UNIQUE(workload_id, generation) of the instances can stop its writes.
-- The generation that it gives is one more than the current one.
pub assign_fresh_total :
    (p : Principal) (v : Value) (q : AssignRequest) (now mono : ℕ) (r : Registry)
    → IsValid r.config r.db
    → request_row r.db q.request_id ≡ none
    → assign_checks r q now mono ≡ ok tt
    → assign_fresh r p v q now mono
      ≡ ok (assign_receipt q (next_generation r.db q), assigned r.db p v q (next_generation r.db q))
unfolding assign_fresh assign_writes insert_instance record_request
assign_fresh_total p v q now mono r valid unseen checks = rw (
  checks,
  assign_checks-free r q now mono checks,
  next-free r.config r.db q.workload_id valid,
  unseen,
)

operation-seq :
    (db : Db) (o : Operation)
    → operation_ok db o ≡ true
    → (o.seq == db.operation_sequence + 1) ≡ true
    → ⊥
operation-seq db o old new = ground arith

operation-request :
    (db : Db) (k : String) (o : Operation)
    → request_row db k ≡ none
    → operation_ok db o ≡ true
    → str_eq o.request_id k ≡ true
    → ⊥
operation-request db k o unseen old new =
    let e = ap (request_row db) ((eq_iff o.request_id k).0 new) in ground (arith, e)

-- The same of `post_operation`: no key, sequence number or request id is taken twice.
pub post_fresh_total :
    (p : Principal) (v : Value) (q : OperationRequest) (r : Registry) (i : Instance)
    → IsValid r.config r.db
    → request_row r.db q.request_id ≡ none
    → post_checks r q ≡ ok i
    → post_fresh r p v q ≡ ok (post_receipt q (r.db.operation_sequence + 1), posted_db r.db p v q)
unfolding post_fresh post_writes insert_operation record_request
post_fresh_total p v q r i valid unseen checks = rw (
  checks,
  post_checks-free r q i checks,
  all-any _ (λ o. o.seq == r.db.operation_sequence + 1) r.db.operations (operation-seq r.db)
      valid.operations_ok,
  all-any _ (λ o. str_eq o.request_id q.request_id) r.db.operations
      (λ o. operation-request r.db q.request_id o unseen) valid.operations_ok,
  unseen,
)
