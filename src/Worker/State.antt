-- ===== src/Worker/State.antt =====
-- The state of class Worker in console/worker.py: its configuration, the tables of its database
-- (`_SCHEMA`) and the rows that its methods read.
use nexus_infra.Base.{ℕ, String, Bool, true, false, ◌&&◌, List, Option, str_eq}
use nexus_infra.Base.Table.{find, row, any}
use nexus_infra.Json.Value.{Value}
use nexus_infra.Catalog.Definition.{Definition, Resources}

pub data Action : Type 0 where
  prepare adopt start stop retire freeze thaw : Action

-- A request other than `observe`, as `validate_request` accepts it.
pub record Request : Type 0 where
  pub operation_id : String
  pub action : Action
  pub workload_id : String
  pub revision_digest : String
  pub instance_id : String
  pub generation : ℕ
  pub capture_id : String
  pub slot_id : Option String
  pub dependencies_resolved : Bool

pub record Slot : Type 0 where
  pub id : String
  pub uid_base : ℕ
  pub host_address : String
  pub local_address : String

pub record Storage : Type 0 where
  pub root : String
  pub mount_point : String
  pub uuid : String

-- An approved bundle: the architecture of its manifest, and its definition.
pub record Bundle : Type 0 where
  pub architecture : String
  pub definition : Definition

pub record Config : Type 0 where
  pub host_id : String
  pub architecture : String
  pub storage : Storage
  pub capacity : Resources
  pub capabilities : List String
  pub slots : List Slot
  pub secrets_ready : Bool
  pub bundles : List Bundle
  pub boot_id : String

pub record Binding : Type 0 where
  pub host_id : String
  pub architecture : String
  pub storage : Storage
  pub slot : Slot

pub data Phase : Type 0 where
  preparing prepared starting running stopping stopped unknown : Phase

-- A row of `instances`, as `_get_instance` returns it.
pub record Instance : Type 0 where
  pub instance_id : String
  pub workload_id : String
  pub revision_digest : String
  pub generation : ℕ
  pub slot_id : String
  pub machine_name : String
  pub phase : Phase
  pub requirements : Resources
  pub binding : Option Binding
  pub boot_id : String
  pub permit_deadline : ℕ
  pub permit : Bool
  pub retired : Bool
  pub adopted : Bool

pub record Known : Type 0 where
  pub workload_id : String
  pub generation : ℕ

pub data Status : Type 0 where
  pending completed failed uncertain : Status

pub record Receipt : Type 0 where
  pub operation_id : String
  pub action : Action
  pub workload_id : String
  pub instance_id : String
  pub generation : ℕ
  pub host_id : String
  pub status : Status
  pub applied_phase : Option Phase
  pub capture_id : String
  pub error : Option String

-- `text` is the canonical text of the request, and `request` what it says.
pub record Operation : Type 0 where
  pub operation_id : String
  pub text : Value
  pub request : Request
  pub status : Status
  pub result : Option Receipt

pub record Capture : Type 0 where
  pub capture_id : String
  pub instance_id : String
  pub workload_id : String
  pub revision_digest : String
  pub generation : ℕ
  pub held : Bool

pub record Db : Type 0 where
  pub instances : List Instance
  pub generations : List Known
  pub operations : List Operation
  pub captures : List Capture

-- `_RESERVE_PHASES`
abbrev pub is_reserve : Phase → Bool
is_reserve stopped = false
is_reserve _ = true

-- `_get_instance`
abbrev pub get_instance : Db → String → Option Instance
get_instance db instance_id = row (λ i. i.instance_id) instance_id db.instances

abbrev pub known_of : Db → String → Option Known
known_of db workload_id = row (λ g. g.workload_id) workload_id db.generations

abbrev pub operation_row : Db → String → Option Operation
operation_row db operation_id = row (λ o. o.operation_id) operation_id db.operations

-- `_capture_row`
abbrev pub capture_row : Db → String → Option Capture
capture_row db capture_id = row (λ c. c.capture_id) capture_id db.captures

abbrev pub holds : String → Capture → Bool
holds workload_id c = c.held && str_eq c.workload_id workload_id

-- `_held_capture(...) is not None`
abbrev pub is_held : Db → String → Bool
is_held db workload_id = any (holds workload_id) db.captures

-- `_capture_id_of`
abbrev pub holds_instance : String → Capture → Bool
holds_instance instance_id c = c.held && str_eq c.instance_id instance_id

abbrev pub capture_of : Db → String → Option Capture
capture_of db instance_id = find (holds_instance instance_id) db.captures
