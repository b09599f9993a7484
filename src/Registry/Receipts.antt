-- ===== src/Registry/Receipts.antt =====
-- The rows of `operations` in console/registry.py over histories.
use nexus_infra.Base.{
  ℕ, String, Bool, true, ◌&&◌, List, [], ◌∷◌, ◌++◌, Option, none, some, is_some, str_eq, eq_iff,
  ◌≡◌, refl, ◌⊎◌, inl, inr, arith, sym, ap, ◌∙◌, subst, not, Bool-cases,
}
use nexus_infra.Base.Result.{ok}
use nexus_infra.Base.Table.{
  all, all-row, all-append, all-upsert, row-upsert, row-append_left, row-key,
}
use nexus_infra.Json.Value.{Value, canonical}
use nexus_infra.Registry.State.{
  Principal, Operation, Status, pending, claimed, completed, failed, Session, Observation, Receipt,
  Db, Registry, operation_row,
}
use nexus_infra.Registry.Requests.{AssignRequest, PlacementRequest}
use nexus_infra.Registry.Payload.{
  FenceRequest, OperationRequest, ReceiptRequest, Outcome, claim, complete, fail,
}
use nexus_infra.Registry.Session.{open_session_body, observe_body, observe_writes}
use nexus_infra.Registry.Assign.{assign_body}
use nexus_infra.Registry.Assign.Effect.{assign_body-cases}
use nexus_infra.Registry.Publish.{Action, show_body}
use nexus_infra.Registry.Publish.Effect.{show_body-cases}
use nexus_infra.Registry.Fence.{fence_body}
use nexus_infra.Registry.Fence.Effect.{fence_body-cases}
use nexus_infra.Registry.Queue.{
  posted, post_body, receipt_body, receipt_writes, take_receipt, take_claim, take_final,
}
use nexus_infra.Registry.Queue.Effect.{post_body-cases, receipt_body-Reported}
use nexus_infra.Registry.Events.{Event, step, run, Allows, step-Changes}
use nexus_infra.Registry.Valid.Others.{SameOperation, take_receipt-SameOperation}

-- The columns that a status fills.
abbrev pub shaped : Operation → Bool
shaped o = elim o.status [
  | pending ↦ not (is_some o.claim) && not (is_some o.final)
  | claimed ↦ is_some o.claim && not (is_some o.final)
  | _ ↦ is_some o.claim && is_some o.final
]

abbrev pub AllShaped : Db → Type 0
AllShaped db = all shaped db.operations ≡ true

-- What may become of an operation.
pub data Progress (o n : Operation) : Type 0 where
  same_row : n ≡ o → Progress o n
  claims :
      o.status ≡ pending
      → n.status ≡ claimed
      → is_some n.claim ≡ true
      → n.final ≡ none
      → Progress o n
  finishes :
      o.status ≡ claimed
      → (n.status ≡ completed) ⊎ (n.status ≡ failed)
      → n.claim ≡ o.claim
      → is_some n.final ≡ true
      → Progress o n

pub record Advanced (o n : Operation) : Type 0 where
  pub identity : SameOperation o n
  pub progress : Progress o n

take_claim-Progress :
    (o n : Operation) (i : String) (b : Value)
    → shaped o ≡ true
    → take_claim o i b ≡ ok (some n)
    → Progress o n
unfolding take_claim
take_claim-Progress o n i b s h = claims (ground arith) (ground arith) (ground arith) (ground arith)

take_final-Progress :
    (o n : Operation) (status : Status) (i : String) (b : Value)
    → (status ≡ completed) ⊎ (status ≡ failed)
    → shaped o ≡ true
    → take_final o status i b ≡ ok (some n)
    → Progress o n
unfolding take_final
take_final-Progress o n status i b f s h =
    finishes (ground arith) (ground arith) (ground arith) (ground arith)

pub take_receipt-Progress :
    (o n : Operation) (q : ReceiptRequest) (b : Value)
    → shaped o ≡ true
    → take_receipt o q b ≡ ok (some n)
    → Progress o n
unfolding take_receipt
take_receipt-Progress o n q b s h = by_outcome q.outcome h
  where
    by_outcome :
        (c : Outcome)
        → (elim c [
          | claim ↦ take_claim o q.request_id b
          | complete v ↦ take_final o completed q.request_id b
          | fail code ↦ take_final o failed q.request_id b
        ])
          ≡ ok (some n)
        → Progress o n
    by_outcome claim e = take_claim-Progress o n q.request_id b s e
    by_outcome (complete v) e = take_final-Progress o n completed q.request_id b (inl refl) s e
    by_outcome (fail code) e = take_final-Progress o n failed q.request_id b (inr refl) s e

take_receipt-shaped :
    (o n : Operation) (q : ReceiptRequest) (b : Value)
    → shaped o ≡ true
    → take_receipt o q b ≡ ok (some n)
    → shaped n ≡ true
unfolding take_receipt take_claim take_final
take_receipt-shaped o n q b s h = ground arith

Advanced-refl : (o : Operation) → Advanced o o
Advanced-refl o = record {
  identity = record {
    operation_id = refl;
    seq = refl;
    host_id = refl;
    workload_id = refl;
    generation = refl;
    request_id = refl;
  };
  progress = same_row refl;
}

-- A database after a call: its rows are shaped, and each old row has advanced.
pub record Onward (db db' : Db) : Type 0 where
  pub shaped_rows : AllShaped db'
  pub advanced :
      (k : String) (o : Operation)
      → operation_row db k ≡ some o
      → (n : Operation) × (operation_row db' k ≡ some n) × Advanced o n

same-Onward : (db db' : Db) → db'.operations ≡ db.operations → AllShaped db → Onward db db'
same-Onward db db' same h = record {
  shaped_rows = rw same h;
  advanced = λ k o found. (o, rw same found, Advanced-refl o);
}

posted-Onward :
    (db db' : Db) (p : Principal) (q : OperationRequest) (seq : ℕ)
    → db'.operations ≡ db.operations ++ posted p q seq ∷ []
    → AllShaped db
    → Onward db db'
posted-Onward db db' p q seq added h = record {
  shaped_rows = rw (added, all-append shaped db.operations (posted p q seq ∷ []), h);
  advanced = λ k o found. (
    o,
    rw added (row-append_left (λ t. t.operation_id) k db.operations _ found),
    Advanced-refl o,
  );
}

-- The row that a receipt rewrites is the row that was found.
written-row :
    (db : Db) (i k : String) (o n t : Operation)
    → operation_row db i ≡ some o
    → Advanced o n
    → operation_row db k ≡ some t
    → (u : Operation) × (operation_row (receipt_writes db (some n)) k ≡ some u) × Advanced t u
unfolding receipt_writes
written-row db i k o n t found moved at =
    let law = row-upsert (λ s. s.operation_id) k n db.operations in
    let key = moved.identity.operation_id ∙ row-key (λ s. s.operation_id) i db.operations found in
    elim (Bool-cases (str_eq n.operation_id k)) [
      | inl here ↦
          let e : o ≡ t =
            cc (found, at, ap (operation_row db) (sym key ∙ (eq_iff n.operation_id k).0 here)) in
          (n, rw here at law, subst (λ x. Advanced x n) e moved)
      | inr other ↦ (t, rw other at law ∙ at, Advanced-refl t)
    ]

written-Onward :
    (db : Db) (i : String) (o : Operation) (q : ReceiptRequest) (b : Value)
    (next : Option Operation)
    → operation_row db i ≡ some o
    → take_receipt o q b ≡ ok next
    → AllShaped db
    → Onward db (receipt_writes db next)
unfolding receipt_writes
written-Onward db i o q b none found taken h = same-Onward db db refl h
written-Onward db i o q b (some n) found taken h =
    let s = all-row shaped (λ t. t.operation_id) i db.operations h found in
    let moved : Advanced o n = record {
      identity = take_receipt-SameOperation o n q b taken;
      progress = take_receipt-Progress o n q b s taken;
    } in
    record {
      shaped_rows =
          all-upsert shaped (λ t. t.operation_id) n db.operations
            (take_receipt-shaped o n q b s taken) h;
      advanced = λ k t at. written-row db i k o n t found moved at;
    }

pub open_session_body-operations :
    (h i : String) (r : Registry) (a : Session) (db : Db)
    → open_session_body h i r ≡ ok (a, db)
    → db.operations ≡ r.db.operations
unfolding open_session_body
open_session_body-operations h i r a db e = ground arith

pub observe_body-operations :
    (p : Principal) (o : Observation) (now mono : ℕ) (r : Registry) (a : String × ℕ) (db : Db)
    → observe_body p o now mono r ≡ ok (a, db)
    → db.operations ≡ r.db.operations
unfolding observe_body observe_writes
observe_body-operations p o now mono r a db e = ground arith

pub assign_body-operations :
    (p : Principal) (v : Value) (q : AssignRequest) (now mono : ℕ) (r : Registry) (a : Receipt)
    (db : Db)
    → assign_body p v q now mono r ≡ ok (a, db)
    → db.operations ≡ r.db.operations
assign_body-operations p v q now mono r a db h = elim (assign_body-cases p v q now mono r a db h) [
  | inl same ↦ ap (λ d. d.operations) same
  | inr s ↦ ap (λ d. d.operations) s.effect
]

pub show_body-operations :
    (act : Action) (p : Principal) (v : Value) (q : PlacementRequest) (now mono : ℕ) (r : Registry)
    (a : Receipt) (db : Db)
    → show_body act p v q now mono r ≡ ok (a, db)
    → db.operations ≡ r.db.operations
show_body-operations act p v q now mono r a db h =
    elim (show_body-cases act p v q now mono r a db h) [
      | inl same ↦ ap (λ d. d.operations) same
      | inr s ↦ ap (λ d. d.operations) s.effect
    ]

pub fence_body-operations :
    (p : Principal) (v : Value) (q : FenceRequest) (now : ℕ) (r : Registry) (a : Receipt) (db : Db)
    → fence_body p v q now r ≡ ok (a, db)
    → db.operations ≡ r.db.operations
fence_body-operations p v q now r a db h = elim (fence_body-cases p v q now r a db h) [
  | inl same ↦ ap (λ d. d.operations) same
  | inr s ↦ ap (λ d. d.operations) s.effect
]

post_body-Onward :
    (p : Principal) (v : Value) (q : OperationRequest) (r : Registry) (a : Receipt) (db : Db)
    → post_body p v q r ≡ ok (a, db)
    → AllShaped r.db
    → Onward r.db db
post_body-Onward p v q r a db h = elim (post_body-cases p v q r a db h) [
  | inl same ↦ same-Onward r.db db (ap (λ d. d.operations) same)
  | inr s ↦ posted-Onward r.db db p q _ (ap (λ d. d.operations) s.effect)
]

receipt_body-Onward :
    (p : Principal) (i : String) (v : Value) (q : ReceiptRequest) (r : Registry) (a : String)
    (db : Db)
    → receipt_body p i v q r ≡ ok (a, db)
    → AllShaped r.db
    → Onward r.db db
receipt_body-Onward p i v q r a db h shape =
    let s = receipt_body-Reported p i v q r a db h in
    subst (Onward r.db) (sym s.effect)
      (written-Onward r.db i s.target q (canonical v) s.next s.found s.taken shape)

Allows-Onward : Allows (λ c e db db'. AllShaped db → Onward db db')
Allows-Onward = record {
  still = λ c e db. same-Onward db db refl;
  opening = λ h i r a db e. same-Onward r.db db (open_session_body-operations h i r a db e);
  observing = λ p o n m r a db e. same-Onward r.db db (observe_body-operations p o n m r a db e);
  assigning = λ p v q n m r a db e. same-Onward r.db db (assign_body-operations p v q n m r a db e);
  showing =
      λ act p v q n m r a db e. same-Onward r.db db (show_body-operations act p v q n m r a db e);
  fencing = λ p v q n r a db _ e. same-Onward r.db db (fence_body-operations p v q n r a db e);
  posting = post_body-Onward;
  reporting = receipt_body-Onward;
}

-- A row with an outcome does not move.
unmoved : (o n : Operation) → shaped o ≡ true → is_some o.final ≡ true → Progress o n → n ≡ o
unmoved o n s done (same_row e) = e
unmoved o n s done (claims was _ _ _) = absurd (ground arith)
unmoved o n s done (finishes was _ _ _) = absurd (ground arith)

-- While the operations are shaped as their statuses say, every call keeps them so, and keeps every
-- operation with its identity. An operation either is unchanged; or goes from pending to claimed,
-- with a claim and no outcome; or goes from claimed to completed or failed, with the same claim and
-- an outcome. So a claim and an outcome are each recorded once and never change again.
pub step-Onward : (e : Event) (r : Registry) → AllShaped r.db → Onward r.db (step e r).db
step-Onward e r = (step-Changes Allows-Onward e r).2

-- From operations that are shaped as their statuses say, one that has an outcome keeps its whole row
-- through any history.
pub run-finished :
    (es : List Event) (r : Registry) (k : String) (o : Operation)
    → AllShaped r.db
    → operation_row r.db k ≡ some o
    → is_some o.final ≡ true
    → operation_row (run es r).db k ≡ some o
unfolding run
run-finished [] r k o h found done = found
run-finished (e ∷ es) r k o h found done =
    let onward = step-Onward e r h in
    let (n, at, moved) = onward.advanced k o found in
    let shape = all-row shaped (λ t. t.operation_id) k r.db.operations h found in
    run-finished es (step e r) k o onward.shaped_rows
      (at ∙ ap some (unmoved o n shape done moved.progress)) done
