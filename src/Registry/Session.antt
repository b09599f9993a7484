-- ===== src/Registry/Session.antt =====
-- `open_session` and `observe` of console/registry.py. The fresh session id is an argument.
use nexus_infra.Base.{ℕ, ◌+◌, String, Bool, false, ◌&&◌, List, [], ◌∷◌, map, ◌==◌, ltb, str_eq}
use nexus_infra.Base.Result.{Result, ok, failure, failure_with, ◌>>=◌, ◌>>◌, require, or_raise}
use nexus_infra.Base.Strings.{mem, subset}
use nexus_infra.Base.Table.{upsert}
use nexus_infra.Json.Value.{Value, str}
use nexus_infra.Json.Checks.{fields, item, identifier, integer}
use nexus_infra.Registry.State.{
  Principal, Instance, Session, Observation, ObservationRow, Db, Registry, instance_row,
  session_row, definition_of, host_row,
}
use nexus_infra.Registry.Requests.{validate_observation}
use nexus_infra.Registry.Clock.{
  Clock, Call, after, with_now, with_mono, transaction, with_principal, own_host,
}

-- The checks of `open_session` on its request.
unfoldable pub validate_open_session : Value → Result String
validate_open_session v = do
  fs ← fields v ("schemaVersion" ∷ "hostId" ∷ []) "invalid-request-fields"
  schema ← integer (← item "schemaVersion" fs) 2 2 "invalid-schemaVersion"
  identifier (← item "hostId" fs) "invalid-hostId"

abbrev pub opened : Registry → String → String → Session
opened r host_id session_id = record {
  host_id = host_id;
  session_id = session_id;
  epoch = r.epoch;
  sequence = 0;
}

unfoldable pub open_session_body : String → String → Registry → Result (Session × Db)
open_session_body host_id session_id r = ok (
  opened r host_id session_id,
  record r.db {
    version = r.db.version + 1;
    sessions = upsert (λ s. s.host_id) (opened r host_id session_id) r.db.sessions;
  },
)

-- `open_session`, which returns the new session
unfoldable pub open_session : String → Principal → Value → Call Session
open_session session_id p request = with_principal p ("host" ∷ []) (
    after (validate_open_session request)
      λ host_id. after (own_host p host_id) λ _. transaction (open_session_body host_id session_id))

abbrev is_address : List String → Value → Bool
is_address addresses (str s) = mem s addresses
is_address addresses _ = false

abbrev pub same_instance : Observation → Instance → Bool
same_instance o i =
    str_eq o.workload_id i.workload_id
    && str_eq o.revision_digest i.revision_digest
    && str_eq o.host_id i.host_id
    && o.generation == i.generation

abbrev current_session : Registry → Observation → Session → Bool
current_session r o s = str_eq s.session_id o.session_id && str_eq s.epoch r.epoch

-- The checks of `observe` after the shape of its request; they return the host's session.
unfoldable pub observe_checks : Registry → Principal → Observation → Result Session
observe_checks r p o = do
  own_host p o.host_id
  host ← or_raise (host_row r.config o.host_id) (failure "KeyError")
  require (is_address host.addresses o.endpoint_address) (failure "invalid-endpointAddress")
  i ← or_raise (instance_row r.db o.instance_id) (failure_with "instance-mismatch" 403)
  require (same_instance o i) (failure_with "instance-mismatch" 403)
  d ← or_raise (definition_of r.config i.workload_id i.revision_digest) (failure "KeyError")
  require (subset o.ready_services (map (λ s. s.id) d.services)) (failure "invalid-readyServices")
  s ← or_raise (session_row r.db o.host_id) (failure_with "session-mismatch" 403)
  require (current_session r o s) (failure_with "session-mismatch" 403)
  require (ltb s.sequence o.sequence) (failure_with "sequence-conflict" 409)
  ok s

abbrev pub observed : Registry → Observation → ℕ → ℕ → ObservationRow
observed r o now mono = record {
  instance_id = o.instance_id;
  payload = o;
  session_id = o.session_id;
  epoch = r.epoch;
  received_at = now;
  received_mono = mono;
}

unfoldable pub observe_writes : Registry → Observation → Session → ℕ → ℕ → Db
observe_writes r o s now mono = record r.db {
  version = r.db.version + 1;
  sessions = upsert (λ t. t.host_id) (record s { sequence = o.sequence }) r.db.sessions;
  observations = upsert (λ t. t.instance_id) (observed r o now mono) r.db.observations;
}

unfoldable pub observe_body :
    Principal → Observation → ℕ → ℕ → Registry → Result ((String × ℕ) × Db)
observe_body p o now mono r = do
  s ← observe_checks r p o
  ok ((o.instance_id, o.sequence), observe_writes r o s now mono)

-- `observe`
unfoldable pub observe : Clock → Principal → Value → Call (String × ℕ)
observe clock p request = with_principal p ("host" ∷ []) (
    with_now clock λ now.
      with_mono clock λ mono.
        after (validate_observation request now) λ o. transaction (observe_body p o now mono))
