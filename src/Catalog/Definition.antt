-- ===== src/Catalog/Definition.antt =====
-- A validated workload definition of console/catalog.py, with the fields of its JSON object.
use nexus_infra.Base.{ℕ, String, List, Option}

pub record Artifact : Type 0 where
  pub id : String
  pub kind : String
  pub digest : String

-- `segments` holds the code points of each part of `mountPoint`, as `_mount_point` returns them.
pub record Mount : Type 0 where
  pub id : String
  pub segments : List (List ℕ)
  pub owner_uid : ℕ
  pub owner_gid : ℕ
  pub consistency_adapter : String

pub record Service : Type 0 where
  pub id : String
  pub protocol : String
  pub port : ℕ
  pub exposure : String

pub record Resources : Type 0 where
  pub memory_mib : ℕ
  pub cpu_millis : ℕ
  pub state_bytes : ℕ

pub record Definition : Type 0 where
  pub workload_id : String
  pub display_name : String
  pub category : String
  pub revision_digest : String
  pub runtime_version : Option String
  pub architecture : String
  pub runtime_artifact_id : Option String
  pub artifacts : List Artifact
  pub state_schema_version : ℕ
  pub state_mounts : List Mount
  pub secret_set_ref : Option String
  pub dependencies : List String
  pub services : List Service
  pub requirements : Resources
  pub capabilities : List String
  pub allowed_operations : List String
  pub policy_profiles : List String
