-- ===== src/Registry/State.antt =====
-- The state of class Registry in console/registry.py: the configuration, the tables of its database
-- (`_SCHEMA`), and the rows that its methods read.
use nexus_infra.Base.{ℕ, String, Bool, ◌&&◌, List, Option, none, some, str_eq, ◌==◌}
use nexus_infra.Base.Table.{find, row}
use nexus_infra.Json.Value.{Value}
use nexus_infra.Catalog.Definition.{Definition}

pub record Principal : Type 0 where
  pub identity : String
  pub role : String
  pub host_id : Option String

pub record Host : Type 0 where
  pub host_id : String
  pub architecture : String
  pub addresses : List String

pub record Route : Type 0 where
  pub id : String
  pub workload_id : String
  pub service_id : String
  pub hostname : String

pub record Config : Type 0 where
  pub definitions : List Definition
  pub hosts : List Host
  pub routes : List Route

pub record Placement : Type 0 where
  pub workload_id : String
  pub generation : ℕ
  pub instance_id : String
  pub published : Bool

pub record Instance : Type 0 where
  pub instance_id : String
  pub workload_id : String
  pub revision_digest : String
  pub host_id : String
  pub generation : ℕ

pub record Session : Type 0 where
  pub host_id : String
  pub session_id : String
  pub epoch : String
  pub sequence : ℕ

-- The payload of an observation. Times are counted in ticks.
pub record Observation : Type 0 where
  pub host_id : String
  pub session_id : String
  pub sequence : ℕ
  pub instance_id : String
  pub workload_id : String
  pub revision_digest : String
  pub generation : ℕ
  pub observed_at : ℕ
  pub phase : String
  pub unit_active_state : String
  pub unit_drained : Option Bool
  pub retired : Bool
  pub endpoint_address : Value
  pub ready_services : List String

pub record ObservationRow : Type 0 where
  pub instance_id : String
  pub payload : Observation
  pub session_id : String
  pub epoch : String
  pub received_at : ℕ
  pub received_mono : ℕ

-- The receipts that `requests` keeps, one constructor for each form of the JSON object: of assign,
-- publish and withdraw (with the action); of fence; of post_operation.
pub data Receipt : Type 0 where
  placed : String → String → String → ℕ → Receipt
  fenced : String → String → ℕ → String → String → Receipt
  queued : String → String → ℕ → Receipt

-- The canonical text of the request is kept as its canonical value.
pub record RequestRow : Type 0 where
  pub request_id : String
  pub principal : Principal
  pub action : String
  pub payload : Value
  pub receipt : Receipt

pub data Status : Type 0 where
  pending claimed completed failed : Status

-- `claim` and `final` are the pairs of a request id and a body.
pub record Operation : Type 0 where
  pub operation_id : String
  pub seq : ℕ
  pub host_id : String
  pub workload_id : String
  pub generation : ℕ
  pub step : String
  pub payload : Value
  pub request_id : String
  pub principal : Principal
  pub status : Status
  pub claim : Option (String × Value)
  pub final : Option (String × Value)

pub record Fence : Type 0 where
  pub workload_id : String
  pub generation : ℕ
  pub host_id : String
  pub evidence : String
  pub attester : String
  pub request_id : String
  pub recorded_at : ℕ

pub record Db : Type 0 where
  pub version : ℕ
  pub operation_sequence : ℕ
  pub placements : List Placement
  pub instances : List Instance
  pub sessions : List Session
  pub observations : List ObservationRow
  pub requests : List RequestRow
  pub operations : List Operation
  pub fences : List Fence

pub record Registry : Type 0 where
  pub config : Config
  pub epoch : String
  pub last_wall : Option ℕ
  pub last_mono : Option ℕ
  pub db : Db

-- `_placement`
abbrev pub placement : Db → String → Option Placement
placement db workload_id = row (λ p. p.workload_id) workload_id db.placements

-- `_instance`
abbrev pub instance_row : Db → String → Option Instance
instance_row db instance_id = row (λ i. i.instance_id) instance_id db.instances

-- `_observation_row`
abbrev pub observation_row : Db → String → Option ObservationRow
observation_row db instance_id = row (λ o. o.instance_id) instance_id db.observations

abbrev pub session_row : Db → String → Option Session
session_row db host_id = row (λ s. s.host_id) host_id db.sessions

abbrev pub operation_row : Db → String → Option Operation
operation_row db operation_id = row (λ o. o.operation_id) operation_id db.operations

abbrev pub fence_at : String → ℕ → Fence → Bool
fence_at workload_id generation f = str_eq f.workload_id workload_id && f.generation == generation

abbrev pub fence_row : Db → String → ℕ → Option Fence
fence_row db workload_id generation = find (fence_at workload_id generation) db.fences

-- `self._definitions.get((workload_id, revision_digest))`
abbrev pub definition_at : String → String → Definition → Bool
definition_at workload_id revision_digest d =
    str_eq d.workload_id workload_id && str_eq d.revision_digest revision_digest

abbrev pub definition_of : Config → String → String → Option Definition
definition_of c workload_id revision_digest =
    find (definition_at workload_id revision_digest) c.definitions

-- `workload_id in self._revisions`
abbrev pub has_revision : Config → String → Option Definition
has_revision c workload_id = row (λ d. d.workload_id) workload_id c.definitions

-- `self._hosts.get(host_id)`
abbrev pub host_row : Config → String → Option Host
host_row c host_id = row (λ h. h.host_id) host_id c.hosts

abbrev pub generation_of : Option Placement → ℕ
generation_of none = 0
generation_of (some p) = p.generation
