-- ===== src/Catalog/Seal.antt =====
-- `revision_digest`, `validate_definition` and `seal_definition` of console/catalog.py. The SHA-256
-- of a canonical text is the parameter `hash`.
use nexus_infra.Base.{String, not, str_eq, if◌then◌else◌, is_some}
use nexus_infra.Base.Result.{Result, ok, err, failure, ◌>>=◌, ◌>>◌, require}
use nexus_infra.Json.Value.{Value, str, obj, Fields, end, field, get, canonical}
use nexus_infra.Catalog.Definition.{Definition}
use nexus_infra.Catalog.Shape.{shape}

-- `{key: value for key, value in definition.items() if key != k}`
unfoldable pub without : String → Fields → Fields
without k end = end
without k (field j v fs) = let rest = without k fs in if str_eq j k then rest else field j v rest

-- `candidate[k] = v` for a key that is not there
unfoldable pub set_last : String → Value → Fields → Fields
set_last k v end = field k v end
set_last k v (field j w fs) = field j w (set_last k v fs)

unfoldable pub body : Fields → Value
body fs = canonical (obj (without "revisionDigest" fs))

module _ (hash : Value → String) where
  unfoldable pub revision_digest : Value → Result String
  unfolding body
  revision_digest (obj fs) = ok (hash (body fs))
  revision_digest _ = err (failure "Definition is not canonical JSON")

  unfoldable pub validate_definition : Value → Result Definition
  unfolding revision_digest
  validate_definition v = do
    d ← shape v
    computed ← revision_digest v
    require (str_eq computed d.revision_digest) (failure "Digest mismatch")
    ok d

  unfoldable pub seal_definition : Value → Result Definition
  unfolding revision_digest validate_definition
  seal_definition (obj fs) = do
    require (not (is_some (get "revisionDigest" fs))) (failure "Invalid definition fields")
    computed ← revision_digest (obj fs)
    validate_definition (obj (set_last "revisionDigest" (str computed) fs))
  seal_definition _ = err (failure "Invalid definition fields")
