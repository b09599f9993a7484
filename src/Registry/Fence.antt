-- ===== src/Registry/Fence.antt =====
-- `fence` of console/registry.py.
pub mod Effect
use nexus_infra.Base.{
  ℕ, ◌+◌, String, Bool, true, false, not, ◌&&◌, ◌||◌, List, [], ◌∷◌, Option, none, some, ◌==◌,
  str_eq, if◌then◌else◌, is_some,
}
use nexus_infra.Base.Result.{Result, ok, err, failure_with, ◌>>=◌, ◌>>◌, require, or_raise}
use nexus_infra.Json.Value.{Value}
use nexus_infra.Registry.State.{
  Principal, Placement, Instance, Fence, Receipt, fenced, Db, Registry, placement, instance_row,
  fence_row, has_revision, host_row,
}
use nexus_infra.Registry.Payload.{FenceRequest, validate_fence}
use nexus_infra.Registry.Clock.{Clock, Call, after, with_now, transaction, with_principal}
use nexus_infra.Registry.Journal.{once, record_request, insert_fence}

-- The operation or the fence binds to the current generation and to the host that holds it.
unfoldable pub bound_to : Registry → String → String → ℕ → Result Instance
bound_to r workload_id host_id generation = do
  known ← or_raise (has_revision r.config workload_id) (failure_with "unknown-workload" 404)
  host ← or_raise (host_row r.config host_id) (failure_with "unknown-host" 404)
  p ← or_raise (placement r.db workload_id) (failure_with "generation-conflict" 409)
  require (p.generation == generation) (failure_with "generation-conflict" 409)
  i ← or_raise (instance_row r.db p.instance_id) (failure_with "generation-conflict" 409)
  require (str_eq i.host_id host_id) (failure_with "generation-conflict" 409)
  ok i

abbrev pub attested : Principal → FenceRequest → ℕ → Fence
attested p q now = record {
  workload_id = q.workload_id;
  generation = q.generation;
  host_id = q.host_id;
  evidence = q.evidence;
  attester = p.identity;
  request_id = q.request_id;
  recorded_at = now;
}

-- An equal attestation is kept; a different one for the same scope is a conflict.
unfoldable pub fence_rows : Db → Principal → FenceRequest → ℕ → Result (List Fence)
fence_rows db p q now = elim (fence_row db q.workload_id q.generation) [
  | none ↦ insert_fence db (attested p q now)
  | some f ↦
      require (str_eq f.host_id q.host_id && str_eq f.evidence q.evidence)
        (failure_with "fence-conflict" 409)
      >> ok db.fences
]

abbrev pub fence_receipt : FenceRequest → Receipt
fence_receipt q = fenced q.request_id q.workload_id q.generation q.host_id q.evidence

unfoldable pub fence_writes : Db → Principal → Value → FenceRequest → ℕ → Result (Receipt × Db)
fence_writes db p request q now = do
  fences ← fence_rows db p q now
  requests ← record_request db p "fence" q.request_id request (fence_receipt q)
  ok (fence_receipt q, record db { version = db.version + 1; fences = fences; requests = requests })

unfoldable pub fence_fresh : Registry → Principal → Value → FenceRequest → ℕ → Result (Receipt × Db)
fence_fresh r p request q now = do
  i ← bound_to r q.workload_id q.host_id q.generation
  fence_writes r.db p request q now

unfoldable pub fence_body : Principal → Value → FenceRequest → ℕ → Registry → Result (Receipt × Db)
fence_body p request q now r =
    once r.db p "fence" q.request_id request (fence_fresh r p request q now)

-- `fence`
unfoldable pub fence : Clock → Principal → Value → Call Receipt
fence clock p request = with_principal p ("controller" ∷ []) (
    after (validate_fence request)
      λ q. with_now clock λ now. transaction (fence_body p request q now))
