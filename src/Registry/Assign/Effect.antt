-- ===== src/Registry/Assign/Effect.antt =====
-- `assign` of console/registry.py where it succeeds.
use nexus_infra.Base.{ℕ, ◌+◌, [], ◌∷◌, ◌++◌, none, ◌≡◌, ◌⊎◌, inl, inr, arith}
use nexus_infra.Base.Result.{ok, >>=-eq-ok}
use nexus_infra.Base.Table.{upsert}
use nexus_infra.Json.Value.{Value, canonical}
use nexus_infra.Registry.State.{
  Principal, Receipt, Db, Registry, placement, instance_row, generation_of,
}
use nexus_infra.Registry.Requests.{AssignRequest}
use nexus_infra.Registry.Journal.{request_row, once-cases, record_request, insert_instance}
use nexus_infra.Registry.Assign.{
  assigned_instance, assigned_placement, assign_receipt, assign_checks, assign_writes, assign_fresh,
  assign_body,
}

-- The database after the writes of `assign`.
abbrev pub assigned : Db → Principal → Value → AssignRequest → ℕ → Db
assigned db p v q generation = record db {
  version = db.version + 1;
  instances = db.instances ++ assigned_instance q generation ∷ [];
  placements = upsert (λ t. t.workload_id) (assigned_placement q generation) db.placements;
  requests =
      db.requests
      ++ record {
        request_id = q.request_id;
        principal = p;
        action = "assign";
        payload = canonical v;
        receipt = assign_receipt q generation;
      }
        ∷ [];
}

abbrev pub next_generation : Db → AssignRequest → ℕ
next_generation db q = generation_of (placement db q.workload_id) + 1

pub record Wrote (p : Principal) (v : Value) (q : AssignRequest) (now mono : ℕ) (r : Registry)
    (a : Receipt) (db : Db) : Type 0 where
  pub unseen : request_row r.db q.request_id ≡ none
  pub checks : assign_checks r q now mono ≡ ok tt
  pub new_instance : instance_row r.db q.instance_id ≡ none
  pub receipt : a ≡ assign_receipt q (next_generation r.db q)
  pub effect : db ≡ assigned r.db p v q (next_generation r.db q)

writes-eq :
    (db : Db) (p : Principal) (v : Value) (q : AssignRequest) (g : ℕ) (a : Receipt) (db' : Db)
    → assign_writes db p v q g ≡ ok (a, db')
    → (instance_row db q.instance_id ≡ none)
      × (a ≡ assign_receipt q g)
      × (db' ≡ assigned db p v q g)
unfolding assign_writes insert_instance record_request
writes-eq db p v q g a db' h = ground arith

pub assign_fresh-Wrote :
    (p : Principal) (v : Value) (q : AssignRequest) (now mono : ℕ) (r : Registry) (a : Receipt)
    (db : Db)
    → request_row r.db q.request_id ≡ none
    → assign_fresh r p v q now mono ≡ ok (a, db)
    → Wrote p v q now mono r a db
unfolding assign_fresh
assign_fresh-Wrote p v q now mono r a db unseen made =
    let (u, checks, wrote) = >>=-eq-ok (assign_checks r q now mono) (λ _. _) made in
    let (free, receipt, effect) = writes-eq r.db p v q _ a db wrote in
    record {
      unseen = unseen;
      checks = checks;
      new_instance = free;
      receipt = receipt;
      effect = effect;
    }

-- A success is a replay that changes nothing, or the whole of the checks and the writes.
pub assign_body-cases :
    (p : Principal) (v : Value) (q : AssignRequest) (now mono : ℕ) (r : Registry) (a : Receipt)
    (db : Db)
    → assign_body p v q now mono r ≡ ok (a, db)
    → (db ≡ r.db) ⊎ Wrote p v q now mono r a db
unfolding assign_body
assign_body-cases p v q now mono r a db h =
    elim (once-cases r.db p "assign" q.request_id v (assign_fresh r p v q now mono) a db h) [
      | inl same_db ↦ inl same_db
      | inr (unseen, made) ↦ inr (assign_fresh-Wrote p v q now mono r a db unseen made)
    ]

-- The last check of `assign`.
pub assign_checks-free :
    (r : Registry) (q : AssignRequest) (now mono : ℕ)
    → assign_checks r q now mono ≡ ok tt
    → instance_row r.db q.instance_id ≡ none
unfolding assign_checks
assign_checks-free r q now mono h = ground arith
