-- ===== src/Registry/Grows/Others.antt =====
-- The writes of the other calls in that order.
use nexus_infra.Base.{
  ℕ, ◌≤◌, String, List, [], ◌∷◌, Option, none, some, ◌≡◌, eq_iff, arith, inl, inr, subst, sym,
}
use nexus_infra.Base.Table.{row-upsert, row-append_left, find-append_left, row-key}
use nexus_infra.Base.Result.{ok}
use nexus_infra.Json.Value.{Value}
use nexus_infra.Registry.State.{
  Principal, Placement, Fence, Operation, Session, Observation, Receipt, Db, Registry, placement,
  generation_of, fence_row, fence_at,
}
use nexus_infra.Registry.Requests.{PlacementRequest}
use nexus_infra.Registry.Payload.{FenceRequest, OperationRequest, ReceiptRequest}
use nexus_infra.Registry.Session.{open_session_body, observe_body, observe_writes}
use nexus_infra.Registry.Publish.{Action, shows, show_body}
use nexus_infra.Registry.Publish.Effect.{shown, show_body-cases}
use nexus_infra.Registry.Fence.{fence_body}
use nexus_infra.Registry.Fence.Effect.{fenced_db, fence_body-cases}
use nexus_infra.Registry.Queue.{post_body, receipt_body, receipt_writes}
use nexus_infra.Registry.Queue.Effect.{posted_db, post_body-cases, receipt_body-Reported}
use nexus_infra.Registry.Grows.{Grows, Grows-refl, Grows-trans}
use nexus_infra.Registry.Grows.Assign.{assign_body-Grows}
use nexus_infra.Registry.Events.{Event, step, run, Allows, step-Changes}
use native.Mathlib.Nat.{le_refl}

open_session_body-Grows :
    (host_id session_id : String) (r : Registry) (a : Session) (db : Db)
    → open_session_body host_id session_id r ≡ ok (a, db)
    → Grows r.db db
unfolding open_session_body
open_session_body-Grows host_id session_id r a db h =
    let same : db ≡ record r.db { version = db.version; sessions = db.sessions } = ground arith in
    let newer : r.db.version ≤ db.version = ground arith in
    subst (Grows r.db) (sym same) (record {
      instances = λ k i e. e;
      generations = λ w g e. e;
      fences = λ w g f e. e;
      requests = λ k q e. e;
      placements = λ w. le_refl _;
      sequence = le_refl _;
      version = newer;
    })

observe_body-Grows :
    (p : Principal) (o : Observation) (now mono : ℕ) (r : Registry) (a : String × ℕ) (db : Db)
    → observe_body p o now mono r ≡ ok (a, db)
    → Grows r.db db
unfolding observe_body observe_writes
observe_body-Grows p o now mono r a db h =
    let same : db ≡ record r.db {
      version = db.version;
      sessions = db.sessions;
      observations = db.observations;
    } =
      ground arith in
    let newer : r.db.version ≤ db.version = ground arith in
    subst (Grows r.db) (sym same) (record {
      instances = λ k i e. e;
      generations = λ w g e. e;
      fences = λ w g f e. e;
      requests = λ k q e. e;
      placements = λ w. le_refl _;
      sequence = le_refl _;
      version = newer;
    })

placement-shown :
    (act : Action) (db : Db) (p : Principal) (v : Value) (q : PlacementRequest) (t : Placement)
    (w : String)
    → placement db q.workload_id ≡ some t
    → generation_of (placement db w) ≤ generation_of (placement (shown act db p v q t) w)
placement-shown act db p v q t w at = ground (
  arith,
  row-upsert (λ u. u.workload_id) w (record t { published = shows act }) db.placements,
  row-key (λ u. u.workload_id) q.workload_id db.placements at,
  eq_iff t.workload_id w,
)

pub shown-Grows :
    (act : Action) (db : Db) (p : Principal) (v : Value) (q : PlacementRequest) (t : Placement)
    → placement db q.workload_id ≡ some t
    → Grows db (shown act db p v q t)
shown-Grows act db p v q t at = record {
  instances = λ k i e. e;
  generations = λ w g e. e;
  fences = λ w g f e. e;
  requests = λ k u e. row-append_left (λ s. s.request_id) k db.requests _ e;
  placements = λ w. placement-shown act db p v q t w at;
  sequence = le_refl _;
  version = omega arith;
}

show_body-Grows :
    (act : Action) (p : Principal) (v : Value) (q : PlacementRequest) (now mono : ℕ) (r : Registry)
    (a : Receipt) (db : Db)
    → show_body act p v q now mono r ≡ ok (a, db)
    → Grows r.db db
show_body-Grows act p v q now mono r a db h = elim (show_body-cases act p v q now mono r a db h) [
  | inl same ↦ subst (Grows r.db) (sym same) (Grows-refl r.db)
  | inr s ↦ subst (Grows r.db) (sym s.effect) (shown-Grows act r.db p v q s.target s.placed_at)
]

fenced-Grows :
    (db : Db) (p : Principal) (v : Value) (q : FenceRequest) (fences : List Fence)
    → ((w : String) (g : ℕ) (f : Fence)
        → fence_row db w g ≡ some f
        → fence_row (fenced_db db p v q fences) w g ≡ some f)
    → Grows db (fenced_db db p v q fences)
fenced-Grows db p v q fences kept = record {
  instances = λ k i e. e;
  generations = λ w g e. e;
  fences = kept;
  requests = λ k u e. row-append_left (λ s. s.request_id) k db.requests _ e;
  placements = λ w. le_refl _;
  sequence = le_refl _;
  version = omega arith;
}

pub fence_body-Grows :
    (p : Principal) (v : Value) (q : FenceRequest) (now : ℕ) (r : Registry) (a : Receipt) (db : Db)
    → fence_body p v q now r ≡ ok (a, db)
    → Grows r.db db
fence_body-Grows p v q now r a db h = elim (fence_body-cases p v q now r a db h) [
  | inl same ↦ subst (Grows r.db) (sym same) (Grows-refl r.db)
  | inr s ↦ subst (Grows r.db) (sym s.effect) (
      fenced-Grows r.db p v q s.fences λ w g f e. elim s.attestation [
        | inl kept ↦ rw kept e
        | inr (new, added) ↦ rw added (find-append_left (fence_at w g) r.db.fences _ e)
      ])
]

pub posted-Grows :
    (db : Db) (p : Principal) (v : Value) (q : OperationRequest) → Grows db (posted_db db p v q)
posted-Grows db p v q = record {
  instances = λ k i e. e;
  generations = λ w g e. e;
  fences = λ w g f e. e;
  requests = λ k u e. row-append_left (λ s. s.request_id) k db.requests _ e;
  placements = λ w. le_refl _;
  sequence = omega arith;
  version = omega arith;
}

post_body-Grows :
    (p : Principal) (v : Value) (q : OperationRequest) (r : Registry) (a : Receipt) (db : Db)
    → post_body p v q r ≡ ok (a, db)
    → Grows r.db db
post_body-Grows p v q r a db h = elim (post_body-cases p v q r a db h) [
  | inl same ↦ subst (Grows r.db) (sym same) (Grows-refl r.db)
  | inr s ↦ subst (Grows r.db) (sym s.effect) (posted-Grows r.db p v q)
]

pub receipt_writes-Grows : (db : Db) (next : Option Operation) → Grows db (receipt_writes db next)
unfolding receipt_writes
receipt_writes-Grows db none = Grows-refl db
receipt_writes-Grows db (some o) = record {
  instances = λ k i e. e;
  generations = λ w g e. e;
  fences = λ w g f e. e;
  requests = λ k u e. e;
  placements = λ w. le_refl _;
  sequence = le_refl _;
  version = omega arith;
}

receipt_body-Grows :
    (p : Principal) (operation_id : String) (v : Value) (q : ReceiptRequest) (r : Registry)
    (a : String) (db : Db)
    → receipt_body p operation_id v q r ≡ ok (a, db)
    → Grows r.db db
receipt_body-Grows p operation_id v q r a db h =
    let s = receipt_body-Reported p operation_id v q r a db h in
    subst (Grows r.db) (sym s.effect) (receipt_writes-Grows r.db s.next)

Allows-Grows : Allows (λ c e. Grows)
Allows-Grows = record {
  still = λ c e db. Grows-refl db;
  opening = open_session_body-Grows;
  observing = observe_body-Grows;
  assigning = assign_body-Grows;
  showing = show_body-Grows;
  fencing = λ p v q now r a db valid. fence_body-Grows p v q now r a db;
  posting = post_body-Grows;
  reporting = receipt_body-Grows;
}

pub step-Grows : (e : Event) (r : Registry) → Grows r.db (step e r).db
step-Grows e r = (step-Changes Allows-Grows e r).2

-- After any sequence of calls every instance, every taken generation of a workload, every fence and
-- every journaled request is still there as it was, and no placement's generation, nor the sequence
-- of the operations, nor the version has become smaller.
pub run-Grows : (es : List Event) (r : Registry) → Grows r.db (run es r).db
unfolding run
run-Grows [] r = Grows-refl r.db
run-Grows (e ∷ es) r = Grows-trans (step-Grows e r) (run-Grows es (step e r))
