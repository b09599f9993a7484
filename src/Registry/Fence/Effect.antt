-- ===== src/Registry/Fence/Effect.antt =====
-- `fence` of console/registry.py where it succeeds.
use nexus_infra.Base.{
  ℕ, ◌+◌, String, true, List, [], ◌∷◌, ◌++◌, none, some, eq_iff, ◌≡◌, ◌⊎◌, inl, inr, arith,
  Option-cases, is_some,
}
use nexus_infra.Base.Result.{ok, >>=-eq-ok}
use nexus_infra.Json.Value.{Value, canonical}
use nexus_infra.Registry.State.{
  Principal, Placement, Instance, Fence, Receipt, Db, Registry, placement, instance_row, fence_row,
  host_row,
}
use nexus_infra.Registry.Payload.{FenceRequest}
use nexus_infra.Registry.Journal.{request_row, once-cases, record_request, insert_fence}
use nexus_infra.Registry.Fence.{
  bound_to, attested, fence_rows, fence_receipt, fence_writes, fence_fresh, fence_body,
}

-- The database after the writes of `fence`, with the fences that it leaves.
abbrev pub fenced_db : Db → Principal → Value → FenceRequest → List Fence → Db
fenced_db db p v q fences = record db {
  version = db.version + 1;
  fences = fences;
  requests =
      db.requests
      ++ record {
        request_id = q.request_id;
        principal = p;
        action = "fence";
        payload = canonical v;
        receipt = fence_receipt q;
      }
        ∷ [];
}

-- The current placement of the workload, at the generation and on the host that are named.
pub record Bound (r : Registry) (w h : String) (g : ℕ) (i : Instance) : Type 0 where
  pub known_host : is_some (host_row r.config h) ≡ true
  pub target : Placement
  pub placed_at : placement r.db w ≡ some target
  pub generation : target.generation ≡ g
  pub incumbent : instance_row r.db target.instance_id ≡ some i
  pub host : i.host_id ≡ h

bound-host :
    (r : Registry) (w h : String) (g : ℕ) (i : Instance)
    → bound_to r w h g ≡ ok i
    → (is_some (host_row r.config h) ≡ true) × (i.host_id ≡ h)
unfolding bound_to
bound-host r w h g i e = ground (arith, eq_iff i.host_id h)

bound-at :
    (r : Registry) (w h : String) (g : ℕ) (i : Instance) (t : Placement)
    → placement r.db w ≡ some t
    → bound_to r w h g ≡ ok i
    → (t.generation ≡ g) × (instance_row r.db t.instance_id ≡ some i)
unfolding bound_to
bound-at r w h g i t at e = ground arith

bound-none :
    (r : Registry) (w h : String) (g : ℕ) (i : Instance)
    → placement r.db w ≡ none
    → bound_to r w h g ≡ ok i
    → ⊥
unfolding bound_to
bound-none r w h g i at e = ground arith

pub bound_to-Bound :
    (r : Registry) (w h : String) (g : ℕ) (i : Instance) → bound_to r w h g ≡ ok i → Bound r w h g i
bound_to-Bound r w h g i e = elim (Option-cases (placement r.db w)) [
  | inl gone ↦ absurd (bound-none r w h g i gone e)
  | inr (t, at) ↦
      let (known, host) = bound-host r w h g i e in
      let (generation, incumbent) = bound-at r w h g i t at e in
      record {
        known_host = known;
        target = t;
        placed_at = at;
        generation = generation;
        incumbent = incumbent;
        host = host;
      }
]

pub record Fenced (p : Principal) (v : Value) (q : FenceRequest) (now : ℕ) (r : Registry)
    (a : Receipt) (db : Db) : Type 0 where
  pub unseen : request_row r.db q.request_id ≡ none
  pub incumbent : Instance
  pub bound : Bound r q.workload_id q.host_id q.generation incumbent
  pub fences : List Fence
  pub attestation :
      (fences ≡ r.db.fences)
      ⊎ ((fence_row r.db q.workload_id q.generation ≡ none)
          × (fences ≡ r.db.fences ++ attested p q now ∷ []))
  pub receipt : a ≡ fence_receipt q
  pub effect : db ≡ fenced_db r.db p v q fences

rows-cases :
    (db : Db) (p : Principal) (q : FenceRequest) (now : ℕ) (fences : List Fence)
    → fence_rows db p q now ≡ ok fences
    → (fences ≡ db.fences)
      ⊎ ((fence_row db q.workload_id q.generation ≡ none)
          × (fences ≡ db.fences ++ attested p q now ∷ []))
unfolding fence_rows insert_fence
rows-cases db p q now fences h = elim (Option-cases (fence_row db q.workload_id q.generation)) [
  | inl new ↦ inr (new, ground arith)
  | inr (f, old) ↦ inl (ground arith)
]

record-eq :
    (db : Db) (p : Principal) (v : Value) (q : FenceRequest) (now : ℕ) (a : Receipt) (db' : Db)
    → fence_writes db p v q now ≡ ok (a, db')
    → (fences : List Fence) × (fence_rows db p q now ≡ ok fences)
      × (a ≡ fence_receipt q)
      × (db' ≡ fenced_db db p v q fences)
unfolding fence_writes record_request
record-eq db p v q now a db' h =
    let (fences, e, rest) = >>=-eq-ok (fence_rows db p q now) (λ _. _) h in
    (fences, e, ground arith, ground arith)

pub fence_body-cases :
    (p : Principal) (v : Value) (q : FenceRequest) (now : ℕ) (r : Registry) (a : Receipt) (db : Db)
    → fence_body p v q now r ≡ ok (a, db)
    → (db ≡ r.db) ⊎ Fenced p v q now r a db
unfolding fence_body fence_fresh
fence_body-cases p v q now r a db h =
    elim (once-cases r.db p "fence" q.request_id v (fence_fresh r p v q now) a db h) [
      | inl same ↦ inl same
      | inr (unseen, made) ↦
          let (i, bound, wrote) =
            >>=-eq-ok (bound_to r q.workload_id q.host_id q.generation) (λ _. _) made in
          let (fences, rows, receipt, effect) = record-eq r.db p v q now a db wrote in
          inr (record {
            unseen = unseen;
            incumbent = i;
            bound = bound_to-Bound r q.workload_id q.host_id q.generation i bound;
            fences = fences;
            attestation = rows-cases r.db p q now fences rows;
            receipt = receipt;
            effect = effect;
          })
    ]
