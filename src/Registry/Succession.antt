-- ===== src/Registry/Succession.antt =====
-- The placement of a workload under one call of console/registry.py.
pub mod Reading
pub mod Untouched
pub mod Placing
pub mod Assigning
pub mod Showing
use nexus_infra.Base.{
  ℕ, ◌+◌, String, true, false, List, Option, none, some, str_eq, eq_iff, eq_refl, ◌≡◌, refl, inl,
  inr, arith, subst, sym, ap, ◌∙◌, Bool-cases, Option-cases, [], ◌∷◌,
}
use nexus_infra.Base.Result.{ok, ◌>>◌}
use nexus_infra.Base.Table.{row, row-upsert, row-append, row-key}
use nexus_infra.Json.Value.{Value}
use nexus_infra.Registry.State.{
  Principal, Config, Placement, Operation, Session, Observation, Receipt, Db, Registry, placement,
  instance_row, definition_of, generation_of,
}
use nexus_infra.Registry.Requests.{AssignRequest, PlacementRequest}
use nexus_infra.Registry.Payload.{FenceRequest, OperationRequest, ReceiptRequest}
use nexus_infra.Registry.Evidence.{
  fresh, retired_drained, ready, dependency_ready, all_ready, dependencies_ready,
}
use nexus_infra.Registry.Session.{open_session_body, observe_body, observe_writes}
use nexus_infra.Registry.Assign.{incumbent_released, assigned_placement, assign_checks, assign_body}
use nexus_infra.Registry.Assign.Effect.{
  assigned, next_generation, Wrote, assign_body-cases, assign_checks-free,
}
use nexus_infra.Registry.Publish.{
  Action, publishing, withdrawing, shows, may_show, show_body, publish_withdraw,
}
use nexus_infra.Registry.Publish.Effect.{shown, Showed, show_body-cases}
use nexus_infra.Registry.Fence.{fence_body}
use nexus_infra.Registry.Fence.Effect.{fence_body-cases}
use nexus_infra.Registry.Queue.{post_body, receipt_body, receipt_writes}
use nexus_infra.Registry.Queue.Effect.{post_body-cases, receipt_body-Reported}
use nexus_infra.Registry.Events.{Event, step, Allows, step-Changes}
use nexus_infra.Registry.Events as Events
use nexus_infra.Registry.Events.{opens, observes, assigns, fences, posts, reports}
use nexus_infra.Registry.Publish as Publish
use nexus_infra.Registry.Clock.{Clock, read_clock}
use nexus_infra.Registry.Returns.{Timed, timed, timed-cases}
use nexus_infra.Registry.Requests.{validate_assign, validate_placement_request}
use nexus_infra.Registry.Assign.{assigned_instance, assign}
use nexus_infra.Registry.Succession.Reading.{
  timed_at, released-timed, all_ready-timed, dependencies_ready-timed, ready-timed,
}
use nexus_infra.Registry.Succession.Untouched.{
  opens-placements, observes-placements, fences-placements, posts-placements, reports-placements,
}
use nexus_infra.Catalog.Definition.{Definition}
use nexus_infra.Registry.State.{Instance, observation_row}
use nexus_infra.Registry.Succession.Placing.{
  Succeeds, Publishes, Withdraws, Moves, stays, succeeds, published, withdrawn,
}
use nexus_infra.Registry.Succession.Assigning.{assign-Moves}
use nexus_infra.Registry.Succession.Showing.{show-Moves}

untouched-Moves :
    (r : Registry) (db : Db) (w : String) (e : Event)
    → db.placements ≡ r.db.placements
    → Moves r db w e
untouched-Moves r db w e same = stays (ap (row (λ p. p.workload_id) w) same)

assigns-Moves :
    (c : Clock) (p : Principal) (v : Value) (r : Registry) (w : String)
    → Moves r (step (assigns c p v) r).db w (assigns c p v)
unfolding step assign
assigns-Moves c p v r w =
    elim (timed-cases (validate_assign v) c (assign_body p v) r p ("controller" ∷ [])) [
      | inl same ↦ stays (ap (λ d. placement d w) same)
      | inr t ↦ assign-Moves c p v r _ w t
    ]

shows-Moves :
    (a : Action) (c : Clock) (p : Principal) (v : Value) (r : Registry) (w : String)
    → Moves r (step (Events.shows a c p v) r).db w (Events.shows a c p v)
unfolding step publish_withdraw
shows-Moves a c p v r w =
    elim (timed-cases (validate_placement_request v) c (show_body a p v) r p ("controller" ∷ [])) [
      | inl same ↦ stays (ap (λ d. placement d w) same)
      | inr t ↦ show-Moves c p v r _ a w t
    ]

-- Whatever call arrives, and whether it returns or raises, the placement of a workload stays as it is,
-- except in three cases. The call is an `assign` of the workload; then the placement goes, unpublished,
-- to the request's new instance at exactly the next generation, which is inserted with the request's
-- revision and host, and at the times that the call read the incumbent, if there was one, was proved
-- retired and drained or was fenced, and every dependency of that revision was ready. Or it is a
-- `publish` of the workload at its generation; then the placement is published, and at the times that
-- the call read its instance was ready, and so were the dependencies of the instance's revision. Or it
-- is a `withdraw` of the workload at its generation; then the placement is not published any more.
pub step-Moves : (e : Event) (r : Registry) (w : String) → Moves r (step e r).db w e
step-Moves (opens i p v) r w = untouched-Moves r _ w _ (opens-placements r i p v)
step-Moves (observes c p v) r w = untouched-Moves r _ w _ (observes-placements r c p v)
step-Moves (assigns c p v) r w = assigns-Moves c p v r w
step-Moves (Events.shows a c p v) r w = shows-Moves a c p v r w
step-Moves (fences c p v) r w = untouched-Moves r _ w _ (fences-placements r c p v)
step-Moves (posts p v) r w = untouched-Moves r _ w _ (posts-placements r p v)
step-Moves (reports p i v) r w = untouched-Moves r _ w _ (reports-placements r p i v)
