-- ===== src/Registry/Succession/Untouched.antt =====
-- The placements under the other calls of console/registry.py.
use nexus_infra.Base.{ℕ, String, Option, none, some, ◌≡◌, refl, inl, inr, arith, ap, ◌∙◌}
use nexus_infra.Base.Result.{ok}
use nexus_infra.Json.Value.{Value}
use nexus_infra.Registry.State.{Principal, Operation, Session, Observation, Receipt, Db, Registry}
use nexus_infra.Registry.Payload.{FenceRequest, OperationRequest, ReceiptRequest}
use nexus_infra.Registry.Session.{open_session_body, observe_body, observe_writes}
use nexus_infra.Registry.Fence.{fence_body}
use nexus_infra.Registry.Fence.Effect.{fence_body-cases}
use nexus_infra.Registry.Queue.{post_body, receipt_body, receipt_writes}
use nexus_infra.Registry.Queue.Effect.{post_body-cases, receipt_body-Reported}
use nexus_infra.Registry.Events.{step}
use nexus_infra.Registry.Events.{
  opens, observes, fences, posts, reports, open_session-Follows, observe-Follows, fence-Follows,
  post_operation-Follows, operation_receipt-Follows,
}
use nexus_infra.Registry.Keeps.{Change, Reflexive}
use nexus_infra.Registry.Clock.{Clock}

open_session_body-placements :
    (host_id session_id : String) (r : Registry) (a : Session) (db : Db)
    → open_session_body host_id session_id r ≡ ok (a, db)
    → db.placements ≡ r.db.placements
unfolding open_session_body
open_session_body-placements host_id session_id r a db h = ground arith

observe_body-placements :
    (p : Principal) (o : Observation) (now mono : ℕ) (r : Registry) (a : String × ℕ) (db : Db)
    → observe_body p o now mono r ≡ ok (a, db)
    → db.placements ≡ r.db.placements
unfolding observe_body observe_writes
observe_body-placements p o now mono r a db h = ground arith

fence_body-placements :
    (p : Principal) (v : Value) (q : FenceRequest) (now : ℕ) (r : Registry) (a : Receipt) (db : Db)
    → fence_body p v q now r ≡ ok (a, db)
    → db.placements ≡ r.db.placements
fence_body-placements p v q now r a db h = elim (fence_body-cases p v q now r a db h) [
  | inl same ↦ ap (λ d. d.placements) same
  | inr s ↦ ap (λ d. d.placements) s.effect
]

post_body-placements :
    (p : Principal) (v : Value) (q : OperationRequest) (r : Registry) (a : Receipt) (db : Db)
    → post_body p v q r ≡ ok (a, db)
    → db.placements ≡ r.db.placements
post_body-placements p v q r a db h = elim (post_body-cases p v q r a db h) [
  | inl same ↦ ap (λ d. d.placements) same
  | inr s ↦ ap (λ d. d.placements) s.effect
]

receipt_writes-placements :
    (db : Db) (next : Option Operation) → (receipt_writes db next).placements ≡ db.placements
unfolding receipt_writes
receipt_writes-placements db none = refl
receipt_writes-placements db (some o) = refl

receipt_body-placements :
    (p : Principal) (i : String) (v : Value) (q : ReceiptRequest) (r : Registry) (a : String)
    (db : Db)
    → receipt_body p i v q r ≡ ok (a, db)
    → db.placements ≡ r.db.placements
receipt_body-placements p i v q r a db h =
    let s = receipt_body-Reported p i v q r a db h in
    ap (λ d. d.placements) s.effect ∙ receipt_writes-placements r.db s.next

-- The placements are the same.
abbrev Untouched : Change
Untouched c e db db' = db'.placements ≡ db.placements

Untouched-refl : Reflexive Untouched
Untouched-refl c e db = refl

module _ (r : Registry) where
  pub opens-placements :
      (i : String) (p : Principal) (v : Value)
      → (step (opens i p v) r).db.placements ≡ r.db.placements
  unfolding step
  opens-placements i p v =
      ((open_session-Follows Untouched-refl i p v (λ h. open_session_body-placements h i)).at r).2

  pub observes-placements :
      (c : Clock) (p : Principal) (v : Value)
      → (step (observes c p v) r).db.placements ≡ r.db.placements
  unfolding step
  observes-placements c p v =
      ((observe-Follows Untouched-refl c p v (observe_body-placements p)).at r).2

  pub fences-placements :
      (c : Clock) (p : Principal) (v : Value)
      → (step (fences c p v) r).db.placements ≡ r.db.placements
  unfolding step
  fences-placements c p v =
      ((fence-Follows Untouched-refl c p v
          (λ q n s a db _. fence_body-placements p v q n s a db)).at
        r).2

  pub posts-placements :
      (p : Principal) (v : Value) → (step (posts p v) r).db.placements ≡ r.db.placements
  unfolding step
  posts-placements p v =
      ((post_operation-Follows Untouched-refl p v (post_body-placements p v)).at r).2

  pub reports-placements :
      (p : Principal) (i : String) (v : Value)
      → (step (reports p i v) r).db.placements ≡ r.db.placements
  unfolding step
  reports-placements p i v =
      ((operation_receipt-Follows Untouched-refl p i v (receipt_body-placements p i v)).at r).2
