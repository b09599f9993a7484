-- ===== src/Registry/Tests.antt =====
-- The theorems at a registry with one workload and two hosts.
use nexus_infra.Base.{
  ℕ, ◌+◌, ◌*◌, true, false, List, [], ◌∷◌, some, ◌≡◌, refl, arith, ◌↔◌, ◌≤◌, ap, str_eq,
}
use nexus_infra.Base.Result.{ok}
use nexus_infra.Base.Strings.{is_hex32, is_identifier, is_digest}
use nexus_infra.Base.Table.{upsert}
use nexus_infra.Json.Value.{null, str}
use nexus_infra.Json.Checks.{fields, item, hex32, identifier, digest, integer}
use nexus_infra.Registry.State.{placed, operation_row}
use nexus_infra.Registry.Requests.{second, validate_assign, bounded_time}
use nexus_infra.Registry.Clock.{
  read_clock, after, with_now, with_mono, with_principal, principal, transaction, settle,
}
use nexus_infra.Registry.Journal.{once, request_replay, replay_of, record_request, insert_instance}
use nexus_infra.Registry.Evidence.{
  fresh, retired_drained, ready, ready_for, route_services, executable, dependencies_ready,
  all_ready,
}
use nexus_infra.Registry.Session.{open_session_body, opened}
use nexus_infra.Registry.Assign.{
  assign, assign_body, assign_checks, assign_fresh, assign_writes, incumbent_released,
  assign_receipt,
}
use nexus_infra.Registry.Assign.Effect.{assigned, next_generation}
use nexus_infra.Registry.Fence.{bound_to}
use nexus_infra.Registry.Queue.{queue_length, post_checks, post_fresh}
use nexus_infra.Registry.Compat.{check_compat}
use nexus_infra.Registry.Events.{Event, opens, assigns, reports, step, run}
use nexus_infra.Registry.Valid.{IsValid}
use nexus_infra.Registry.Valid.Reach.{
  run-check_compat, run-IsValid, assign_fresh_total, post_fresh_total,
}
use nexus_infra.Registry.Queue.Effect.{post_receipt, posted_db}
use nexus_infra.Registry.Succession.Placing.{Moves}
use nexus_infra.Registry.Succession.{step-Moves}
use nexus_infra.Registry.Receipts.{AllShaped, Onward, step-Onward, run-finished}
use nexus_infra.Registry.Replay.{resumed, assign_replay}
use nexus_infra.Registry.Grows.{Grows}
use nexus_infra.Registry.Grows.Others.{run-Grows}
use nexus_infra.Registry.QueueBound.{Bounded, run-Bounded}
use nexus_infra.Registry.Returns.{at_wall, at_mono}
use nexus_infra.Registry.Views.{
  Table, Served, expiry_of, serve, backend_of, route_loop, route_ttl, routes, running, retired,
  observed_state,
}
use nexus_infra.Registry.Routing.{AllRows, routes_backed}
use nexus_infra.Registry.Agreement.{
  names_ready, ready_iff_running, retired_drained-shown, open_session_stales,
}
use nexus_infra.Registry.World.{
  hex, hex_b, hex_c, digest_text, start, busy, controller, alpha, clock_at, assign_web, assign_beta,
  assign_request, post_request, open_alpha, web_instance, serving_now, gone_now, row_of, done,
}

-- The controller assigns the workload, its host opens a session, and the controller tries to move the
-- workload to the other host, which the registry refuses.
abbrev history : List Event
history =
    assigns (clock_at 100) controller assign_web
    ∷ opens hex_b alpha open_alpha
    ∷ assigns (clock_at 101) controller assign_beta
    ∷ []

start-IsValid : IsValid start.config start.db
start-IsValid = record {
  placements_ok = refl;
  instances_ok = refl;
  operations_ok = refl;
  instances_fit = refl;
  operations_fit = refl;
  fences_fit = refl;
}

busy-IsValid : IsValid busy.config busy.db
busy-IsValid = record {
  placements_ok = refl;
  instances_ok = refl;
  operations_ok = refl;
  instances_fit = refl;
  operations_fit = refl;
  fences_fit = refl;
}

busy-shaped : AllShaped busy.db
busy-shaped = refl

busy-Bounded : Bounded busy.db
unfolding queue_length
busy-Bounded h = ground arith

step-Moves_example :
    Moves start
      (step (assigns (clock_at 100) controller assign_web) start).db
      "web"
      (assigns (clock_at 100) controller assign_web)
step-Moves_example = step-Moves (assigns (clock_at 100) controller assign_web) start "web"

run-check_compat_example : check_compat start.config (run history start).db ≡ ok tt
run-check_compat_example = run-check_compat history start start-IsValid

run-IsValid_example : IsValid (run history start).config (run history start).db
run-IsValid_example = run-IsValid history start start-IsValid

run-Grows_example : Grows busy.db (run history busy).db
run-Grows_example = run-Grows history busy

assign_passes : assign_checks start assign_request 100 100 ≡ ok tt
unfolding assign_checks executable incumbent_released dependencies_ready all_ready
assign_passes = refl

assign_fresh_total_example :
    assign_fresh start controller assign_web assign_request 100 100
    ≡ ok (
      assign_receipt assign_request (next_generation start.db assign_request),
      assigned start.db controller assign_web assign_request
          (next_generation start.db assign_request),
    )
assign_fresh_total_example =
    assign_fresh_total controller assign_web assign_request 100 100 start start-IsValid refl
      assign_passes

post_passes : post_checks busy post_request ≡ ok web_instance
unfolding post_checks bound_to queue_length
post_passes = refl

post_fresh_total_example :
    post_fresh busy controller null post_request
    ≡ ok (
      post_receipt post_request (busy.db.operation_sequence + 1),
      posted_db busy.db controller null post_request,
    )
post_fresh_total_example =
    post_fresh_total controller null post_request busy web_instance busy-IsValid refl post_passes

step-Onward_example : Onward busy.db (step (reports alpha hex_c null) busy).db
step-Onward_example = step-Onward (reports alpha hex_c null) busy busy-shaped

run-finished_example : operation_row (run history busy).db hex_c ≡ some done
run-finished_example = run-finished history busy hex_c done busy-shaped refl refl

assign_web_returns :
    (assign (clock_at 100) controller assign_web start).0 ≡ ok (placed "assign" hex "web" 1)
unfolding assign with_principal principal after with_now with_mono read_clock bounded_time
    transaction settle validate_assign fields item hex32 identifier digest integer is_hex32
    is_identifier is_digest assign_body once request_replay replay_of assign_fresh assign_checks
    executable incumbent_released dependencies_ready all_ready assign_writes insert_instance
    record_request
assign_web_returns = refl

assign_replay_example :
    ((assign
        (clock_at 200)
        controller
        assign_web
        (resumed (clock_at 100) controller assign_web start [])).0
      ≡ ok (placed "assign" hex "web" 1))
    × ((assign
          (clock_at 200)
          controller
          assign_web
          (resumed (clock_at 100) controller assign_web start [])).1.db
        ≡ (resumed (clock_at 100) controller assign_web start []).db)
unfolding step run assign with_principal principal after with_now with_mono read_clock bounded_time
    transaction settle validate_assign fields item hex32 identifier digest integer is_hex32
    is_identifier is_digest assign_body once request_replay replay_of assign_fresh assign_checks
    executable incumbent_released dependencies_ready all_ready assign_writes insert_instance
    record_request
assign_replay_example =
    assign_replay (clock_at 100) (clock_at 200) controller assign_web start
      (placed "assign" hex "web" 1) [] (200 * second) (200 * second) assign_web_returns refl refl

run-Bounded_example : queue_length "alpha" (run history busy).db.operations ≤ 256
run-Bounded_example = run-Bounded history busy "alpha" busy-shaped busy-Bounded

ready_iff_running_example :
    (ready busy (some (row_of serving_now)) "alpha" "web" (101 * second) (101 * second) ≡ true) ↔ (
      (observed_state busy (some (row_of serving_now)) "alpha" (101 * second) (101 * second)
        ≡ running)
      × (names_ready (some (row_of serving_now)) (route_services busy.config.routes "web") ≡ true))
ready_iff_running_example =
    ready_iff_running busy (some (row_of serving_now)) "alpha" "web" (101 * second) (101 * second)

retired_drained-shown_example :
    observed_state busy (some (row_of gone_now)) "alpha" (101 * second) (101 * second) ≡ retired
unfolding retired_drained fresh
retired_drained-shown_example =
    retired_drained-shown busy (some (row_of gone_now)) "alpha" (101 * second) (101 * second) refl

open_session_stales_example :
    fresh
      (record busy {
        db = record busy.db { version = 10; sessions = opened busy "alpha" hex_b ∷ [] };
      })
      (some (row_of serving_now))
      "alpha"
      (101 * second)
      (101 * second)
    ≡ false
unfolding open_session_body upsert
open_session_stales_example =
    open_session_stales "alpha" hex_b busy (opened busy "alpha" hex_b)
      (record busy.db { version = 10; sessions = opened busy "alpha" hex_b ∷ [] })
      (row_of serving_now) (101 * second) (101 * second) refl
      (λ e. absurd (ground (arith, ap (λ k. str_eq k hex_b) e)))

abbrev backend_web : Served
backend_web = record {
  backend = record {
    instance_id = hex;
    generation = 1;
    host_id = "alpha";
    revision_digest = digest_text;
    address = str "10.0.0.1";
    port = 80;
  };
  expiry = 130 * second;
}

abbrev table_web : Table
table_web = record {
  valid_until = 111 * second;
  routes =
      (
        record { id = "web"; workload_id = "web"; service_id = "http"; hostname = "web.lan" },
        some backend_web,
      )
      ∷ [];
}

routes_backed_example :
    (now : ℕ) × (mono : ℕ) × (read_clock (clock_at 101).wall busy.last_wall ≡ ok now)
    × (read_clock (clock_at 101).mono busy.last_mono ≡ ok mono)
    × AllRows (at_mono (at_wall busy now) mono) now mono table_web.valid_until table_web.routes
    × (table_web.valid_until ≤ now + route_ttl)
unfolding routes with_principal principal after with_now with_mono read_clock bounded_time is_hex32
    route_loop backend_of serve ready_for fresh expiry_of
routes_backed_example = routes_backed (clock_at 101) controller hex busy table_web refl
