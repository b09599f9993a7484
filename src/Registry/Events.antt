-- ===== src/Registry/Events.antt =====
-- Histories of the registry: the calls that write, as they arrive, each with what its clocks read.
use nexus_infra.Base.{ℕ, String, List, [], ◌∷◌, ◌≡◌}
use nexus_infra.Base.Result.{ok}
use nexus_infra.Json.Value.{Value}
use nexus_infra.Registry.State.{Principal, Receipt, Session, Observation, Db, Registry}
use nexus_infra.Registry.Requests.{AssignRequest, PlacementRequest}
use nexus_infra.Registry.Payload.{OperationRequest, FenceRequest, ReceiptRequest, validate_fence}
use nexus_infra.Registry.Clock.{Clock}
use nexus_infra.Registry.Session.{open_session, open_session_body, observe, observe_body}
use nexus_infra.Registry.Assign.{assign, assign_body}
use nexus_infra.Registry.Publish.{Action, publish_withdraw, show_body}
use nexus_infra.Registry.Fence.{fence, fence_body}
use nexus_infra.Registry.Queue.{post_operation, post_body, operation_receipt, receipt_body}
use nexus_infra.Registry.Keeps.{
  Change, Changes, Reflexive, Follows, Follows-after, Follows-now, Follows-mono, Follows-principal,
  Follows-transaction,
}

pub data Event : Type 0 where
  opens : String → Principal → Value → Event
  observes : Clock → Principal → Value → Event
  assigns : Clock → Principal → Value → Event
  shows : Action → Clock → Principal → Value → Event
  fences : Clock → Principal → Value → Event
  posts : Principal → Value → Event
  reports : Principal → String → Value → Event

-- The registry after the call, whether it returned or raised.
unfoldable pub step : Event → Registry → Registry
step (opens session_id p v) r = (open_session session_id p v r).1
step (observes clock p v) r = (observe clock p v r).1
step (assigns clock p v) r = (assign clock p v r).1
step (shows a clock p v) r = (publish_withdraw a clock p v r).1
step (fences clock p v) r = (fence clock p v r).1
step (posts p v) r = (post_operation p v r).1
step (reports p operation_id v) r = (operation_receipt p operation_id v r).1

unfoldable pub run : List Event → Registry → Registry
run [] r = r
run (e ∷ es) r = run es (step e r)

module _ {R : Change} (still : Reflexive R) where
  pub open_session-Follows :
      (i : String) (p : Principal) (v : Value)
      → ((h : String) (r : Registry) (a : Session) (db : Db)
          → open_session_body h i r ≡ ok (a, db)
          → R r.config r.epoch r.db db)
      → Follows R (open_session i p v)
  unfolding open_session
  open_session-Follows i p v opening = Follows-principal R still _ _ _ (
      Follows-after R still _ _ λ host_id _.
        Follows-after R still _ _ λ _ _. Follows-transaction R still _ (opening host_id))

  pub observe-Follows :
      (c : Clock) (p : Principal) (v : Value)
      → ((o : Observation) (now mono : ℕ) (r : Registry) (a : String × ℕ) (db : Db)
          → observe_body p o now mono r ≡ ok (a, db)
          → R r.config r.epoch r.db db)
      → Follows R (observe c p v)
  unfolding observe
  observe-Follows c p v observing = Follows-principal R still _ _ _ (
      Follows-now R still c _ λ now. Follows-mono R still c _ λ mono.
        Follows-after R still _ _ λ o _. Follows-transaction R still _ (observing o now mono))

  assign-Follows :
      (c : Clock) (p : Principal) (v : Value)
      → ((q : AssignRequest) (now mono : ℕ) (r : Registry) (a : Receipt) (db : Db)
          → assign_body p v q now mono r ≡ ok (a, db)
          → R r.config r.epoch r.db db)
      → Follows R (assign c p v)
  unfolding assign
  assign-Follows c p v assigning = Follows-principal R still _ _ _ (
      Follows-after R still _ _ λ q _. Follows-now R still c _ λ now.
        Follows-mono R still c _ λ mono. Follows-transaction R still _ (assigning q now mono))

  publish_withdraw-Follows :
      (act : Action) (c : Clock) (p : Principal) (v : Value)
      → ((q : PlacementRequest) (now mono : ℕ) (r : Registry) (a : Receipt) (db : Db)
          → show_body act p v q now mono r ≡ ok (a, db)
          → R r.config r.epoch r.db db)
      → Follows R (publish_withdraw act c p v)
  unfolding publish_withdraw
  publish_withdraw-Follows act c p v showing = Follows-principal R still _ _ _ (
      Follows-after R still _ _ λ q _.
        Follows-now R still c _ λ now.
          Follows-mono R still c _ λ mono. Follows-transaction R still _ (showing q now mono))

  pub fence-Follows :
      (c : Clock) (p : Principal) (v : Value)
      → ((q : FenceRequest) (now : ℕ) (r : Registry) (a : Receipt) (db : Db)
          → validate_fence v ≡ ok q
          → fence_body p v q now r ≡ ok (a, db)
          → R r.config r.epoch r.db db)
      → Follows R (fence c p v)
  unfolding fence
  fence-Follows c p v fencing = Follows-principal R still _ _ _ (
      Follows-after R still _ _ λ q valid.
        Follows-now R still c _
          λ now. Follows-transaction R still _ (λ s a db. fencing q now s a db valid))

  pub post_operation-Follows :
      (p : Principal) (v : Value)
      → ((q : OperationRequest) (r : Registry) (a : Receipt) (db : Db)
          → post_body p v q r ≡ ok (a, db)
          → R r.config r.epoch r.db db)
      → Follows R (post_operation p v)
  unfolding post_operation
  post_operation-Follows p v posting =
      Follows-principal R still _ _ _
        (Follows-after R still _ _ λ q _. Follows-transaction R still _ (posting q))

  pub operation_receipt-Follows :
      (p : Principal) (i : String) (v : Value)
      → ((q : ReceiptRequest) (r : Registry) (a : String) (db : Db)
          → receipt_body p i v q r ≡ ok (a, db)
          → R r.config r.epoch r.db db)
      → Follows R (operation_receipt p i v)
  unfolding operation_receipt
  operation_receipt-Follows p i v reporting = Follows-principal R still _ _ _ (
      Follows-after R still _ _
        λ _ _. Follows-after R still _ _ λ q _. Follows-transaction R still _ (reporting q))

-- What the bodies of the transactions have to show for a change of the database.
pub record Allows (R : Change) : Type 0 where
  pub still : Reflexive R
  pub opening :
      (host_id session_id : String) (r : Registry) (a : Session) (db : Db)
      → open_session_body host_id session_id r ≡ ok (a, db)
      → R r.config r.epoch r.db db
  pub observing :
      (p : Principal) (o : Observation) (now mono : ℕ) (r : Registry) (a : String × ℕ) (db : Db)
      → observe_body p o now mono r ≡ ok (a, db)
      → R r.config r.epoch r.db db
  pub assigning :
      (p : Principal) (v : Value) (q : AssignRequest) (now mono : ℕ) (r : Registry) (a : Receipt)
      (db : Db)
      → assign_body p v q now mono r ≡ ok (a, db)
      → R r.config r.epoch r.db db
  pub showing :
      (act : Action) (p : Principal) (v : Value) (q : PlacementRequest) (now mono : ℕ)
      (r : Registry) (a : Receipt) (db : Db)
      → show_body act p v q now mono r ≡ ok (a, db)
      → R r.config r.epoch r.db db
  pub fencing :
      (p : Principal) (v : Value) (q : FenceRequest) (now : ℕ) (r : Registry) (a : Receipt)
      (db : Db)
      → validate_fence v ≡ ok q
      → fence_body p v q now r ≡ ok (a, db)
      → R r.config r.epoch r.db db
  pub posting :
      (p : Principal) (v : Value) (q : OperationRequest) (r : Registry) (a : Receipt) (db : Db)
      → post_body p v q r ≡ ok (a, db)
      → R r.config r.epoch r.db db
  pub reporting :
      (p : Principal) (operation_id : String) (v : Value) (q : ReceiptRequest) (r : Registry)
      (a : String) (db : Db)
      → receipt_body p operation_id v q r ≡ ok (a, db)
      → R r.config r.epoch r.db db

module _ {R : Change} (allows : Allows R) where
  open allows use {still, opening, observing, assigning, showing, fencing, posting, reporting}

  -- Every call, whatever it is given, makes a change that the relation allows.
  pub step-Changes : (e : Event) (r : Registry) → Changes R r (step e r)
  unfolding step
  step-Changes (opens i p v) r =
      (open_session-Follows still i p v (λ h s a db. opening h i s a db)).at r
  step-Changes (observes c p v) r = (observe-Follows still c p v (observing p)).at r
  step-Changes (assigns c p v) r = (assign-Follows still c p v (assigning p v)).at r
  step-Changes (shows a c p v) r = (publish_withdraw-Follows still a c p v (showing a p v)).at r
  step-Changes (fences c p v) r = (fence-Follows still c p v (fencing p v)).at r
  step-Changes (posts p v) r = (post_operation-Follows still p v (posting p v)).at r
  step-Changes (reports p i v) r = (operation_receipt-Follows still p i v (reporting p i v)).at r
