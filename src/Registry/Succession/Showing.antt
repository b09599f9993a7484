-- ===== src/Registry/Succession/Showing.antt =====
-- The placement of a workload under `publish` and `withdraw`.
use nexus_infra.Base.{
  ℕ, String, true, false, some, str_eq, eq_iff, ◌≡◌, refl, inl, inr, arith, subst, sym, ap, ◌∙◌,
  Bool-cases, Option-cases,
}
use nexus_infra.Base.Result.{ok}
use nexus_infra.Base.Table.{row-upsert, row-key}
use nexus_infra.Json.Value.{Value}
use nexus_infra.Registry.State.{Principal, Placement, Db, Registry, placement, instance_row}
use nexus_infra.Registry.Requests.{PlacementRequest}
use nexus_infra.Registry.Evidence.{ready, dependencies_ready}
use nexus_infra.Registry.Publish.{Action, publishing, withdrawing, shows, may_show, show_body}
use nexus_infra.Registry.Publish.Effect.{shown, Showed, show_body-cases}
use nexus_infra.Registry.Events.{Event, step, Allows, step-Changes}
use nexus_infra.Registry.Events as Events
use nexus_infra.Registry.Events.{opens, observes, assigns, fences, posts, reports}
use nexus_infra.Registry.Clock.{Clock}
use nexus_infra.Registry.Returns.{Timed}
use nexus_infra.Registry.Requests.{validate_placement_request}
use nexus_infra.Registry.Succession.Reading.{timed_at, dependencies_ready-timed, ready-timed}
use nexus_infra.Registry.State.{Instance, observation_row}
use nexus_infra.Registry.Succession.Placing.{
  Publishes, Withdraws, Moves, stays, published, withdrawn,
}

may_publish :
    (r : Registry) (t : Placement) (now mono : ℕ)
    → may_show publishing r t now mono ≡ ok tt
    → (i : Instance) × (instance_row r.db t.instance_id ≡ some i)
      × (ready r (observation_row r.db t.instance_id) i.host_id t.workload_id now mono ≡ true)
      × (dependencies_ready r t.workload_id i.revision_digest now mono ≡ ok tt)
unfolding may_show
may_publish r t now mono h = elim (Option-cases (instance_row r.db t.instance_id)) [
  | inl gone ↦ absurd (ground arith)
  | inr (i, found) ↦ (i, found, ground arith, ground arith)
]

-- What the writes of `_publish_withdraw` leave at a workload.
module _ (act : Action) (db : Db) (p : Principal) (v : Value) (q : PlacementRequest)
    (t : Placement) where
  shown-placement :
      t.workload_id ≡ q.workload_id
      → placement (shown act db p v q t) q.workload_id ≡ some (record t { published = shows act })
  shown-placement own = ground (
    arith,
    row-upsert (λ u. u.workload_id) q.workload_id (record t { published = shows act })
        db.placements,
    eq_iff t.workload_id q.workload_id,
  )

  shown-other :
      (w : String)
      → t.workload_id ≡ q.workload_id
      → str_eq q.workload_id w ≡ false
      → placement (shown act db p v q t) w ≡ placement db w
  shown-other w own other = ground (
    arith,
    row-upsert (λ u. u.workload_id) w (record t { published = shows act }) db.placements,
    eq_iff t.workload_id w,
    eq_iff q.workload_id w,
  )

module _ (clock : Clock) (p : Principal) (v : Value) (r : Registry) (db : Db) where
  abbrev Told : Action → Type 0
  Told act = Timed (validate_placement_request v) clock (show_body act p v) r db

  abbrev Shows : (act : Action) → Told act → Type 0
  Shows act t = Showed act p v t.request t.now t.mono (timed_at r t.now t.mono) t.answer db

  own_target :
      (act : Action) (t : Told act) (s : Shows act t) → s.target.workload_id ≡ t.request.workload_id
  own_target act t s =
      row-key (λ u. u.workload_id) t.request.workload_id r.db.placements s.placed_at

  published-Publishes :
      (t : Told publishing) → Shows publishing t → Publishes clock v r db t.request.workload_id
  published-Publishes t s =
      let own = own_target publishing t s in
      let (i, found, well, deps) =
        may_publish (timed_at r t.now t.mono) s.target t.now t.mono s.allowed in
      record {
        request = t.request;
        valid = t.valid;
        names = refl;
        now = t.now;
        wall_read = t.wall_read;
        mono = t.mono;
        mono_read = t.mono_read;
        target = s.target;
        was = s.placed_at;
        expected = s.expected;
        placed_shown =
            ap (λ d. placement d t.request.workload_id) s.effect
            ∙ shown-placement publishing r.db p v t.request s.target own;
        instance_ = i;
        found = found;
        is_ready =
            subst
              (λ w.
                ready r (observation_row r.db s.target.instance_id) i.host_id w t.now t.mono ≡ true)
              own
              (sym (
                  ready-timed r t.now t.mono (observation_row r.db s.target.instance_id) i.host_id
                    s.target.workload_id)
                ∙ well);
        ready_dependencies =
            subst (λ w. dependencies_ready r w i.revision_digest t.now t.mono ≡ ok tt) own
              (sym (dependencies_ready-timed r t.now t.mono s.target.workload_id i.revision_digest)
                ∙ deps);
      }

  withdrawn-Withdraws :
      (t : Told withdrawing) → Shows withdrawing t → Withdraws v r db t.request.workload_id
  withdrawn-Withdraws t s = record {
    request = t.request;
    valid = t.valid;
    names = refl;
    target = s.target;
    was = s.placed_at;
    expected = s.expected;
    placed_hidden =
        ap (λ d. placement d t.request.workload_id) s.effect
        ∙ shown-placement withdrawing r.db p v t.request s.target (own_target withdrawing t s);
  }

  named-Moves :
      (act : Action) (t : Told act)
      → Shows act t
      → Moves r db t.request.workload_id (Events.shows act clock p v)
  named-Moves publishing t s = published (published-Publishes t s)
  named-Moves withdrawing t s = withdrawn (withdrawn-Withdraws t s)

  pub show-Moves :
      (act : Action) (w : String) → Told act → Moves r db w (Events.shows act clock p v)
  show-Moves act w t =
      elim (show_body-cases act p v t.request t.now t.mono (timed_at r t.now t.mono) t.answer db
        t.made) [
          | inl same ↦ stays (ap (λ d. placement d w) same)
          | inr s ↦ elim (Bool-cases (str_eq t.request.workload_id w)) [
            | inl own ↦
                subst (λ x. Moves r db x (Events.shows act clock p v))
                  ((eq_iff t.request.workload_id w).0 own) (named-Moves act t s)
            | inr other ↦ stays (
                ap (λ d. placement d w) s.effect
                ∙ shown-other act r.db p v t.request s.target w (own_target act t s) other)
          ]
        ]
