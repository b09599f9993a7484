-- ===== src/Registry/Publish.antt =====
-- `publish` and `withdraw` of console/registry.py, by `_publish_withdraw`.
pub mod Effect
use nexus_infra.Base.{
  ℕ, ◌+◌, String, Bool, true, false, not, ◌&&◌, ◌||◌, List, [], ◌∷◌, Option, none, some, ◌==◌,
  str_eq, if◌then◌else◌, is_some,
}
use nexus_infra.Base.Result.{Result, ok, err, failure, failure_with, ◌>>=◌, ◌>>◌, require, or_raise}
use nexus_infra.Base.Table.{upsert}
use nexus_infra.Json.Value.{Value}
use nexus_infra.Registry.State.{
  Principal, Placement, Instance, Receipt, placed, Db, Registry, placement, instance_row,
  observation_row, has_revision, generation_of,
}
use nexus_infra.Registry.Requests.{PlacementRequest, validate_placement_request}
use nexus_infra.Registry.Clock.{
  Clock, Call, after, with_now, with_mono, transaction, with_principal,
}
use nexus_infra.Registry.Evidence.{ready, dependencies_ready}
use nexus_infra.Registry.Journal.{once, record_request}

pub data Action : Type 0 where
  publishing withdrawing : Action

abbrev pub action_name : Action → String
action_name publishing = "publish"
action_name withdrawing = "withdraw"

abbrev pub shows : Action → Bool
shows publishing = true
shows withdrawing = false

-- The readiness that `publish` asks for; `instance[2]` of a missing row is a TypeError.
unfoldable pub may_show : Action → Registry → Placement → ℕ → ℕ → Result (Unit {0})
may_show withdrawing r p now mono = ok tt
may_show publishing r p now mono = do
  i ← or_raise (instance_row r.db p.instance_id) (failure "TypeError")
  require (ready r (observation_row r.db p.instance_id) i.host_id p.workload_id now mono)
      (failure_with "readiness-required" 409)
  dependencies_ready r p.workload_id i.revision_digest now mono

unfoldable pub show_checks : Action → Registry → PlacementRequest → ℕ → ℕ → Result Placement
show_checks a r q now mono = do
  known ← or_raise (has_revision r.config q.workload_id) (failure_with "unknown-workload" 404)
  p ← or_raise (placement r.db q.workload_id) (failure_with "generation-conflict" 409)
  require (q.expected_generation == p.generation) (failure_with "generation-conflict" 409)
  may_show a r p now mono
  ok p

unfoldable pub show_writes :
    Action → Db → Principal → Value → PlacementRequest → Placement → Result (Receipt × Db)
show_writes a db principal request q p = do
  let receipt = placed (action_name a) q.request_id q.workload_id p.generation
  requests ← record_request db principal (action_name a) q.request_id request receipt
  ok (
    receipt,
    record db {
      version = db.version + 1;
      placements = upsert (λ t. t.workload_id) (record p { published = shows a }) db.placements;
      requests = requests;
    },
  )

unfoldable pub show_fresh :
    Action → Registry → Principal → Value → PlacementRequest → ℕ → ℕ → Result (Receipt × Db)
show_fresh a r principal request q now mono = do
  p ← show_checks a r q now mono
  show_writes a r.db principal request q p

unfoldable pub show_body :
    Action → Principal → Value → PlacementRequest → ℕ → ℕ → Registry → Result (Receipt × Db)
show_body a p request q now mono r =
    once r.db p (action_name a) q.request_id request (show_fresh a r p request q now mono)

-- `_publish_withdraw`
unfoldable pub publish_withdraw : Action → Clock → Principal → Value → Call Receipt
publish_withdraw a clock p request = with_principal p ("controller" ∷ []) (
    after (validate_placement_request request) λ q.
      with_now clock λ now. with_mono clock λ mono. transaction (show_body a p request q now mono))
