-- ===== src/Registry/Publish/Effect.antt =====
-- `publish` and `withdraw` of console/registry.py where they succeed.
use nexus_infra.Base.{ℕ, ◌+◌, [], ◌∷◌, ◌++◌, none, some, ◌≡◌, ◌⊎◌, inl, inr, arith}
use nexus_infra.Base.Result.{ok, >>=-eq-ok}
use nexus_infra.Base.Table.{upsert}
use nexus_infra.Json.Value.{Value, canonical}
use nexus_infra.Registry.State.{Principal, Placement, Receipt, placed, Db, Registry, placement}
use nexus_infra.Registry.Requests.{PlacementRequest}
use nexus_infra.Registry.Journal.{request_row, once-cases, record_request}
use nexus_infra.Registry.Publish.{
  Action, action_name, shows, may_show, show_checks, show_writes, show_fresh, show_body,
}

abbrev pub show_receipt : Action → PlacementRequest → Placement → Receipt
show_receipt act q t = placed (action_name act) q.request_id q.workload_id t.generation

-- The database after the writes of `_publish_withdraw`.
abbrev pub shown : Action → Db → Principal → Value → PlacementRequest → Placement → Db
shown act db p v q t = record db {
  version = db.version + 1;
  placements = upsert (λ u. u.workload_id) (record t { published = shows act }) db.placements;
  requests =
      db.requests
      ++ record {
        request_id = q.request_id;
        principal = p;
        action = action_name act;
        payload = canonical v;
        receipt = show_receipt act q t;
      }
        ∷ [];
}

pub record Showed (act : Action) (p : Principal) (v : Value) (q : PlacementRequest) (now mono : ℕ)
    (r : Registry) (a : Receipt) (db : Db) : Type 0 where
  pub unseen : request_row r.db q.request_id ≡ none
  pub target : Placement
  pub placed_at : placement r.db q.workload_id ≡ some target
  pub expected : q.expected_generation ≡ target.generation
  pub allowed : may_show act r target now mono ≡ ok tt
  pub receipt : a ≡ show_receipt act q target
  pub effect : db ≡ shown act r.db p v q target

checks-eq :
    (act : Action) (r : Registry) (q : PlacementRequest) (now mono : ℕ) (t : Placement)
    → show_checks act r q now mono ≡ ok t
    → (placement r.db q.workload_id ≡ some t)
      × (q.expected_generation ≡ t.generation)
      × (may_show act r t now mono ≡ ok tt)
unfolding show_checks
checks-eq act r q now mono t h = ground arith

writes-eq :
    (act : Action) (db : Db) (p : Principal) (v : Value) (q : PlacementRequest) (t : Placement)
    (a : Receipt) (db' : Db)
    → show_writes act db p v q t ≡ ok (a, db')
    → (a ≡ show_receipt act q t) × (db' ≡ shown act db p v q t)
unfolding show_writes record_request
writes-eq act db p v q t a db' h = ground arith

pub show_body-cases :
    (act : Action) (p : Principal) (v : Value) (q : PlacementRequest) (now mono : ℕ) (r : Registry)
    (a : Receipt) (db : Db)
    → show_body act p v q now mono r ≡ ok (a, db)
    → (db ≡ r.db) ⊎ Showed act p v q now mono r a db
unfolding show_body show_fresh
show_body-cases act p v q now mono r a db h =
    elim (once-cases r.db p (action_name act) q.request_id v (show_fresh act r p v q now mono) a db
      h) [
        | inl same ↦ inl same
        | inr (unseen, made) ↦
            let (t, checks, wrote) = >>=-eq-ok (show_checks act r q now mono) (λ _. _) made in
            let (at, expected, allowed) = checks-eq act r q now mono t checks in
            let (receipt, effect) = writes-eq act r.db p v q t a db wrote in
            inr (record {
              unseen = unseen;
              target = t;
              placed_at = at;
              expected = expected;
              allowed = allowed;
              receipt = receipt;
              effect = effect;
            })
      ]
