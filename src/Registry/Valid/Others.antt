-- ===== src/Registry/Valid/Others.antt =====
-- The invariant under the other calls.
use nexus_infra.Base.{
  ℕ, ◌+◌, String, true, [], ◌∷◌, Option, none, some, eq_iff, eq_refl, ◌≡◌, inl, inr, arith, subst,
  sym,
}
use nexus_infra.Base.Result.{ok}
use nexus_infra.Base.Strings.{mem}
use nexus_infra.Base.Table.{row-key, row-append, all-append, all-upsert, all-row, any-row}
use nexus_infra.Json.Value.{Value, canonical}
use nexus_infra.Registry.State.{
  Principal, Placement, Instance, Operation, Session, Observation, Receipt, Db, Registry, placement,
  operation_row,
}
use nexus_infra.Registry.Requests.{PlacementRequest}
use nexus_infra.Registry.Payload.{
  FenceRequest, OperationRequest, ReceiptRequest, validate_fence, fence_evidence,
}
use nexus_infra.Registry.Session.{open_session_body, observe_body, observe_writes}
use nexus_infra.Registry.Publish.{Action, shows, show_body}
use nexus_infra.Registry.Publish.Effect.{shown, show_body-cases}
use nexus_infra.Registry.Fence.{attested, fence_body}
use nexus_infra.Registry.Fence.Effect.{Bound, Fenced, fence_body-cases}
use nexus_infra.Registry.Queue.{
  posted, post_body, receipt_body, receipt_writes, take_receipt, take_claim, take_final,
}
use nexus_infra.Registry.Queue.Effect.{
  post_receipt, posted_db, Posted, post_body-cases, receipt_body-Reported,
}
use nexus_infra.Registry.Compat.{has_generation, operation_fits, fence_fits}
use nexus_infra.Registry.Journal.{holds_generation}
use nexus_infra.Registry.Grows.Others.{shown-Grows, fence_body-Grows, posted-Grows}
use nexus_infra.Catalog.Shape.{enum}
use nexus_infra.Registry.Grows.{Grows}
use nexus_infra.Registry.Valid.{placement_ok, operation_ok, IsValid}
use nexus_infra.Registry.Valid.Kept.{IsValid-Kept}

pub open_session_body-IsValid :
    (host_id session_id : String) (r : Registry) (a : Session) (db : Db)
    → open_session_body host_id session_id r ≡ ok (a, db)
    → IsValid r.config r.db
    → IsValid r.config db
unfolding open_session_body
open_session_body-IsValid host_id session_id r a db h valid =
    let same : db ≡ record r.db { version = db.version; sessions = db.sessions } = ground arith in
    subst (IsValid r.config) (sym same) (record {
      placements_ok = valid.placements_ok;
      instances_ok = valid.instances_ok;
      operations_ok = valid.operations_ok;
      instances_fit = valid.instances_fit;
      operations_fit = valid.operations_fit;
      fences_fit = valid.fences_fit;
    })

pub observe_body-IsValid :
    (p : Principal) (o : Observation) (now mono : ℕ) (r : Registry) (a : String × ℕ) (db : Db)
    → observe_body p o now mono r ≡ ok (a, db)
    → IsValid r.config r.db
    → IsValid r.config db
unfolding observe_body observe_writes
observe_body-IsValid p o now mono r a db h valid =
    let same : db ≡ record r.db {
      version = db.version;
      sessions = db.sessions;
      observations = db.observations;
    } =
      ground arith in
    subst (IsValid r.config) (sym same) (record {
      placements_ok = valid.placements_ok;
      instances_ok = valid.instances_ok;
      operations_ok = valid.operations_ok;
      instances_fit = valid.instances_fit;
      operations_fit = valid.operations_fit;
      fences_fit = valid.fences_fit;
    })

shown-IsValid :
    (act : Action) (p : Principal) (v : Value) (q : PlacementRequest) (r : Registry) (t : Placement)
    → placement r.db q.workload_id ≡ some t
    → IsValid r.config r.db
    → IsValid r.config (shown act r.db p v q t)
shown-IsValid act p v q r t at valid =
    let kept = IsValid-Kept r.config (shown-Grows act r.db p v q t at) valid in
    record {
      placements_ok =
          all-upsert _ (λ u. u.workload_id) (record t { published = shows act }) r.db.placements
            (all-row (placement_ok r.db) (λ u. u.workload_id) q.workload_id r.db.placements
              valid.placements_ok at)
            kept.placements_ok;
      instances_ok = kept.instances_ok;
      operations_ok = kept.operations_ok;
      instances_fit = kept.instances_fit;
      operations_fit = kept.operations_fit;
      fences_fit = kept.fences_fit;
    }

pub show_body-IsValid :
    (act : Action) (p : Principal) (v : Value) (q : PlacementRequest) (now mono : ℕ) (r : Registry)
    (a : Receipt) (db : Db)
    → show_body act p v q now mono r ≡ ok (a, db)
    → IsValid r.config r.db
    → IsValid r.config db
show_body-IsValid act p v q now mono r a db h valid =
    elim (show_body-cases act p v q now mono r a db h) [
      | inl same ↦ subst (IsValid r.config) (sym same) valid
      | inr s ↦
          subst (IsValid r.config) (sym s.effect)
            (shown-IsValid act p v q r s.target s.placed_at valid)
    ]

-- In a valid database the generation that a request is bound to has its instance.
Bound-generation :
    (r : Registry) (w h : String) (g : ℕ) (i : Instance)
    → Bound r w h g i
    → IsValid r.config r.db
    → has_generation r.db w g ≡ true
Bound-generation r w h g i b valid =
    let t = b.target in
    let fits =
      all-row (placement_ok r.db) (λ u. u.workload_id) w r.db.placements valid.placements_ok
        b.placed_at in
    let key = row-key (λ u. u.workload_id) w r.db.placements b.placed_at in
    any-row (holds_generation w g) (λ u. u.instance_id) t.instance_id r.db.instances b.incumbent
      (ground (
        arith,
        fits,
        key,
        b.generation,
        b.incumbent,
        eq_iff i.workload_id t.workload_id,
        eq_iff i.workload_id w,
      ))

validate_fence-evidence :
    (v : Value) (q : FenceRequest) → validate_fence v ≡ ok q → mem q.evidence fence_evidence ≡ true
unfolding validate_fence enum
validate_fence-evidence v q h = ground arith

Fenced-IsValid :
    (p : Principal) (v : Value) (q : FenceRequest) (now : ℕ) (r : Registry) (a : Receipt) (db : Db)
    → mem q.evidence fence_evidence ≡ true
    → Grows r.db db
    → Fenced p v q now r a db
    → IsValid r.config r.db
    → IsValid r.config db
Fenced-IsValid p v q now r a db evidence grows s valid =
    let kept = IsValid-Kept r.config (subst (Grows r.db) s.effect grows) valid in
    let held = Bound-generation r q.workload_id q.host_id q.generation s.incumbent s.bound valid in
    let fits : fence_fits r.config r.db (attested p q now) ≡ true =
      rw (s.bound.known_host, held, evidence) in
    subst (IsValid r.config) (sym s.effect) (record {
      placements_ok = kept.placements_ok;
      instances_ok = kept.instances_ok;
      operations_ok = kept.operations_ok;
      instances_fit = kept.instances_fit;
      operations_fit = kept.operations_fit;
      fences_fit = elim s.attestation [
        | inl same ↦ rw same kept.fences_fit
        | inr (new, added) ↦
            rw (added, all-append _ r.db.fences (attested p q now ∷ []), kept.fences_fit, fits)
      ];
    })

pub fence_body-IsValid :
    (p : Principal) (v : Value) (q : FenceRequest) (now : ℕ) (r : Registry) (a : Receipt) (db : Db)
    → validate_fence v ≡ ok q
    → fence_body p v q now r ≡ ok (a, db)
    → IsValid r.config r.db
    → IsValid r.config db
fence_body-IsValid p v q now r a db checked h valid = elim (fence_body-cases p v q now r a db h) [
  | inl same ↦ subst (IsValid r.config) (sym same) valid
  | inr s ↦
      Fenced-IsValid p v q now r a db (validate_fence-evidence v q checked)
        (fence_body-Grows p v q now r a db h) s valid
]

new_operation_ok :
    (db : Db) (p : Principal) (v : Value) (q : OperationRequest)
    → operation_ok (posted_db db p v q) (posted p q (db.operation_sequence + 1)) ≡ true
new_operation_ok db p v q = ground (
  arith,
  row-append (λ t. t.request_id) q.request_id
      (record {
        request_id = q.request_id;
        principal = p;
        action = "operation";
        payload = canonical v;
        receipt = post_receipt q (db.operation_sequence + 1);
      })
      db.requests,
  eq_refl q.request_id,
)

Posted-IsValid :
    (p : Principal) (v : Value) (q : OperationRequest) (r : Registry) (a : Receipt) (db : Db)
    → Posted p v q r a db
    → IsValid r.config r.db
    → IsValid r.config (posted_db r.db p v q)
Posted-IsValid p v q r a db s valid =
    let kept = IsValid-Kept r.config (posted-Grows r.db p v q) valid in
    let held = Bound-generation r q.workload_id q.host_id q.generation s.incumbent s.bound valid in
    let new = posted p q (r.db.operation_sequence + 1) in
    record {
      placements_ok = kept.placements_ok;
      instances_ok = kept.instances_ok;
      operations_ok = rw (
        all-append _ r.db.operations (new ∷ []),
        kept.operations_ok,
        new_operation_ok r.db p v q,
      );
      instances_fit = kept.instances_fit;
      operations_fit =
          rw (
            all-append _ r.db.operations (new ∷ []),
            kept.operations_fit,
            s.bound.known_host,
            held,
          );
      fences_fit = kept.fences_fit;
    }

pub post_body-IsValid :
    (p : Principal) (v : Value) (q : OperationRequest) (r : Registry) (a : Receipt) (db : Db)
    → post_body p v q r ≡ ok (a, db)
    → IsValid r.config r.db
    → IsValid r.config db
post_body-IsValid p v q r a db h valid = elim (post_body-cases p v q r a db h) [
  | inl same ↦ subst (IsValid r.config) (sym same) valid
  | inr s ↦ subst (IsValid r.config) (sym s.effect) (Posted-IsValid p v q r a db s valid)
]

-- What identifies an operation.
pub record SameOperation (o n : Operation) : Type 0 where
  pub operation_id : n.operation_id ≡ o.operation_id
  pub seq : n.seq ≡ o.seq
  pub host_id : n.host_id ≡ o.host_id
  pub workload_id : n.workload_id ≡ o.workload_id
  pub generation : n.generation ≡ o.generation
  pub request_id : n.request_id ≡ o.request_id

pub take_receipt-SameOperation :
    (o n : Operation) (q : ReceiptRequest) (body : Value)
    → take_receipt o q body ≡ ok (some n)
    → SameOperation o n
unfolding take_receipt take_claim take_final
take_receipt-SameOperation o n q body h = ground arith

reported-IsValid :
    (q : ReceiptRequest) (v : Value) (r : Registry) (operation_id : String) (o : Operation)
    (next : Option Operation)
    → operation_row r.db operation_id ≡ some o
    → take_receipt o q v ≡ ok next
    → IsValid r.config r.db
    → IsValid r.config (receipt_writes r.db next)
unfolding receipt_writes
reported-IsValid q v r operation_id o none found h valid = valid
reported-IsValid q v r operation_id o (some n) found h valid =
    let same = take_receipt-SameOperation o n q v h in
    let was_ok =
      all-row (operation_ok r.db) (λ t. t.operation_id) operation_id r.db.operations
        valid.operations_ok found in
    let did_fit =
      all-row (operation_fits r.config r.db) (λ t. t.operation_id) operation_id r.db.operations
        valid.operations_fit found in
    record {
      placements_ok = valid.placements_ok;
      instances_ok = valid.instances_ok;
      operations_ok =
          all-upsert _ (λ t. t.operation_id) n r.db.operations
            (rw (same.seq, same.request_id) was_ok) valid.operations_ok;
      instances_fit = valid.instances_fit;
      operations_fit =
          all-upsert _ (λ t. t.operation_id) n r.db.operations
            (rw (same.host_id, same.workload_id, same.generation) did_fit) valid.operations_fit;
      fences_fit = valid.fences_fit;
    }

pub receipt_body-IsValid :
    (p : Principal) (operation_id : String) (v : Value) (q : ReceiptRequest) (r : Registry)
    (a : String) (db : Db)
    → receipt_body p operation_id v q r ≡ ok (a, db)
    → IsValid r.config r.db
    → IsValid r.config db
receipt_body-IsValid p operation_id v q r a db h valid =
    let s = receipt_body-Reported p operation_id v q r a db h in
    subst (IsValid r.config) (sym s.effect)
      (reported-IsValid q (canonical v) r operation_id s.target s.next s.found s.taken valid)
