-- ===== src/Registry/Replay.antt =====
-- Repeated requests to console/registry.py and the journal that answers them.
use nexus_infra.Base.{
  ℕ, String, true, List, [], ◌∷◌, ◌++◌, Option, none, some, str_eq, eq_refl, ◌≡◌, refl, inl, inr,
  arith, sym, ap, ◌∙◌, subst, Option-cases,
}
use nexus_infra.Base.Result.{Result, ok}
use nexus_infra.Base.Table.{row-append}
use nexus_infra.Json.Value.{Value, canonical}
use nexus_infra.Json.Equality.{same, same_refl}
use nexus_infra.Registry.State.{Principal, Receipt, RequestRow, Db, Registry}
use nexus_infra.Registry.Requests.{AssignRequest, validate_assign}
use nexus_infra.Registry.Clock.{
  Clock, transaction, with_now, with_mono, with_principal, principal, read_clock,
}
use nexus_infra.Registry.Journal.{
  request_row, replay_of, same_principal, once, once-unseen, once-seen,
}
use nexus_infra.Registry.Assign.{assign, assign_body, assign_fresh}
use nexus_infra.Registry.Assign.Effect.{assign_fresh-Wrote}
use nexus_infra.Registry.Events.{Event, assigns, step, run}
use nexus_infra.Registry.Returns.{
  at_wall, at_mono, after-returns, with_now-returns, with_mono-returns, with_principal-returns,
  transaction-returns,
}
use nexus_infra.Registry.Valid.Reach.{config-step, config-run}
use nexus_infra.Registry.Grows.{Grows}
use nexus_infra.Registry.Grows.Others.{run-Grows}

-- The journal holds a row that answers this request of this caller by this receipt.
pub record Answers (db : Db) (p : Principal) (action k : String) (v : Value) (a : Receipt)
    : Type 0 where
  pub entry : RequestRow
  pub at : request_row db k ≡ some entry
  pub caller : same_principal entry.principal p ≡ true
  pub action_kept : str_eq entry.action action ≡ true
  pub payload : same entry.payload (canonical v) ≡ true
  pub receipt : entry.receipt ≡ a

-- Such a row answers every replay, whatever the rest of the transaction would do.
pub once-Answers :
    (db : Db) (p : Principal) (action k : String) (v : Value) (a : Receipt)
    (fresh : Result (Receipt × Db))
    → Answers db p action k v a
    → once db p action k v fresh ≡ ok (a, db)
unfolding once
once-Answers db p action k v a fresh h = rw (h.at, h.caller, h.action_kept, h.payload, h.receipt)

pub Answers-Grows :
    {db db' : Db} {p : Principal} {action k : String} {v : Value} {a : Receipt}
    → Grows db db'
    → Answers db p action k v a
    → Answers db' p action k v a
Answers-Grows {k = k} g h = record {
  entry = h.entry;
  at = g.requests k h.entry h.at;
  caller = h.caller;
  action_kept = h.action_kept;
  payload = h.payload;
  receipt = h.receipt;
}

-- A replay that was answered had such a row.
replay-Answers :
    (db : Db) (p : Principal) (action k : String) (v : Value) (a : Receipt) (entry : RequestRow)
    → request_row db k ≡ some entry
    → replay_of (some entry) p action v ≡ ok (some a)
    → Answers db p action k v a
unfolding replay_of
replay-Answers db p action k v a entry at h = record {
  entry = entry;
  at = at;
  caller = ground arith;
  action_kept = ground arith;
  payload = ground arith;
  receipt = ground arith;
}

same_principal_refl : (p : Principal) → same_principal p p ≡ true
unfolding same_principal
same_principal_refl p = by_host p.host_id refl
  where
    by_host : (h : Option String) → p.host_id ≡ h → same_principal p p ≡ true
    by_host none e = rw (eq_refl p.identity, eq_refl p.role, e)
    by_host (some h) e = rw (eq_refl p.identity, eq_refl p.role, e, eq_refl h)

-- The row that a new request leaves.
entry-Answers :
    (db db' : Db) (p : Principal) (action k : String) (v : Value) (a : Receipt)
    → request_row db k ≡ none
    → db'.requests
      ≡ db.requests
        ++ record {
          request_id = k;
          principal = p;
          action = action;
          payload = canonical v;
          receipt = a;
        }
          ∷ []
    → Answers db' p action k v a
entry-Answers db db' p action k v a unseen added = record {
  entry = record {
    request_id = k;
    principal = p;
    action = action;
    payload = canonical v;
    receipt = a;
  };
  at = rw (added, row-append (λ t. t.request_id) k _ db.requests, unseen, eq_refl k);
  caller = same_principal_refl p;
  action_kept = eq_refl action;
  payload = same_refl (canonical v);
  receipt = refl;
}

assign_body-Answers :
    (p : Principal) (v : Value) (q : AssignRequest) (now mono : ℕ) (r : Registry) (a : Receipt)
    (db : Db)
    → assign_body p v q now mono r ≡ ok (a, db)
    → Answers db p "assign" q.request_id v a
unfolding assign_body
assign_body-Answers p v q now mono r a db h =
    let fresh = assign_fresh r p v q now mono in
    elim (Option-cases (request_row r.db q.request_id)) [
      | inl unseen ↦
          let made = sym (once-unseen r.db p "assign" q.request_id v fresh unseen) ∙ h in
          let s = assign_fresh-Wrote p v q now mono r a db unseen made in
          entry-Answers r.db db p "assign" q.request_id v a unseen
            (rw s.receipt (ap (λ d. d.requests) s.effect))
      | inr (entry, at) ↦
          let (same, answered) = once-seen r.db p "assign" q.request_id v fresh a db entry at h in
          subst (λ d. Answers d p "assign" q.request_id v a) (sym same)
            (replay-Answers r.db p "assign" q.request_id v a entry at answered)
    ]

-- How a call of `assign` that returns has come about.
record Returned (clock : Clock) (p : Principal) (v : Value) (r : Registry) (a : Receipt)
    : Type 0 where
  caller : principal r.config p ("controller" ∷ []) ≡ ok tt
  request : AssignRequest
  valid : validate_assign v ≡ ok request
  answers : Answers (assign clock p v r).1.db p "assign" request.request_id v a

assign-Returned :
    (clock : Clock) (p : Principal) (v : Value) (r : Registry) (a : Receipt)
    → (assign clock p v r).0 ≡ ok a
    → Returned clock p v r a
unfolding assign
assign-Returned clock p v r a h =
    let (caller, h₁, e₁) = with_principal-returns p ("controller" ∷ []) _ r a h in
    let (q, valid, h₂, e₂) = after-returns (validate_assign v) _ r a h₁ in
    let (now, _, h₃, e₃) = with_now-returns clock _ r a h₂ in
    let (mono, _, h₄, e₄) = with_mono-returns clock _ (at_wall r now) a h₃ in
    let s = at_mono (at_wall r now) mono in
    let (db, made, e₅) = transaction-returns (assign_body p v q now mono) s a h₄ in
    let same : (assign clock p v r).1.db ≡ db = ap (λ x. x.db) (e₁ ∙ e₂ ∙ e₃ ∙ e₄) ∙ e₅ in
    record {
      caller = caller;
      request = q;
      valid = valid;
      answers =
          subst (λ d. Answers d p "assign" q.request_id v a) (sym same)
            (assign_body-Answers p v q now mono s a db made);
    }

-- A repeated call, where the clocks can be read.
assign-again :
    (clock : Clock) (p : Principal) (v : Value) (q : AssignRequest) (r : Registry) (a : Receipt)
    (now mono : ℕ)
    → principal r.config p ("controller" ∷ []) ≡ ok tt
    → validate_assign v ≡ ok q
    → Answers r.db p "assign" q.request_id v a
    → read_clock clock.wall r.last_wall ≡ ok now
    → read_clock clock.mono r.last_mono ≡ ok mono
    → assign clock p v r ≡ (ok a, at_mono (at_wall r now) mono)
unfolding assign with_principal with_now with_mono transaction assign_body
assign-again clock p v q r a now mono caller valid answers wall elapsed =
    rw (caller, valid, wall, elapsed, once-Answers r.db p "assign" q.request_id v a _ answers)

-- The registry after an `assign` and further calls.
abbrev pub resumed : Clock → Principal → Value → Registry → List Event → Registry
resumed clock p v r es = run es (step (assigns clock p v) r)

-- An `assign` that returned a receipt returns the same receipt when the same caller repeats it after
-- any further calls, if the clocks can be read then, and the repeated call changes no table.
pub assign_replay :
    (clock later : Clock) (p : Principal) (v : Value) (r : Registry) (a : Receipt) (es : List Event)
    (now mono : ℕ)
    → (assign clock p v r).0 ≡ ok a
    → read_clock later.wall (resumed clock p v r es).last_wall ≡ ok now
    → read_clock later.mono (resumed clock p v r es).last_mono ≡ ok mono
    → ((assign later p v (resumed clock p v r es)).0 ≡ ok a)
      × ((assign later p v (resumed clock p v r es)).1.db ≡ (resumed clock p v r es).db)
unfolding step
assign_replay clock later p v r a es now mono h wall elapsed =
    let c = assign-Returned clock p v r a h in
    let same = config-run es (assign clock p v r).1 ∙ config-step (assigns clock p v) r in
    let again =
      assign-again later p v c.request (resumed clock p v r es) a now mono (rw same c.caller)
        c.valid (Answers-Grows (run-Grows es (assign clock p v r).1) c.answers) wall elapsed in
    (ap (λ x. x.0) again, ap (λ x. x.1.db) again)
