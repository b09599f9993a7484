-- ===== src/Catalog/Tests.antt =====
-- The theorems on sealing at one definition.
use nexus_infra.Base.{String, [], ◌∷◌, none, ◌≡◌, refl}
use nexus_infra.Base.Result.{ok}
use nexus_infra.Json.Value.{Value, pos, null, int, str, arr, obj, nil, cons, Fields, end, field}
use nexus_infra.Catalog.Definition.{Definition}
use nexus_infra.Catalog.Seal.{set_last, body, validate_definition, seal_definition}
use nexus_infra.Catalog.Sealing.{seal-validate, validate-same_digest}
use nexus_infra.Registry.World.{digest_text, web}

abbrev constant : Value → String
constant v = digest_text

abbrev web_fields : Fields
web_fields = field "schemaVersion" (int (pos 2)) (
    field "workloadId" (str "web") (
      field "displayName" (str "Web") (
        field "category" (str "project") (
          field "runtimeVersion" (str "nspawn-v1") (
            field "runtimeArtifactId" (str "rootfs") (
              field "architecture" (str "x86_64-linux") (
                field "artifacts"
                  (arr (
                    cons
                      (obj (
                        field "id" (str "rootfs") (
                          field "kind" (str "nixos-closure")
                            (field "digest" (str digest_text) (end)))))
                      nil))
                  (field "stateSchemaVersion" (int (pos 1)) (
                    field "stateMounts" (arr nil) (
                      field "secretSetRef" (null) (
                        field "dependencies" (arr nil) (
                          field "services" (arr nil) (
                            field "requirements"
                              (obj (
                                field "memoryMiB" (int (pos 64)) (
                                  field "cpuMillis" (int (pos 100)) (
                                    field "stateBytes" (int (pos 0))
                                      (field "capabilities" (arr nil) (end))))))
                              (field "allowedOperations" (arr (cons (str "start") nil))
                                (field "policyProfiles" (arr nil) (end))))))))))))))))

-- The same definition with its keys in another order.
abbrev moved_fields : Fields
moved_fields = field "workloadId" (str "web") (
    field "displayName" (str "Web") (
      field "category" (str "project") (
        field "runtimeVersion" (str "nspawn-v1") (
          field "runtimeArtifactId" (str "rootfs") (
            field "architecture" (str "x86_64-linux") (
              field "artifacts"
                (arr (
                  cons
                    (obj (
                      field "id" (str "rootfs") (
                        field "kind" (str "nixos-closure")
                          (field "digest" (str digest_text) (end)))))
                    nil))
                (field "stateSchemaVersion" (int (pos 1)) (
                  field "stateMounts" (arr nil) (
                    field "secretSetRef" (null) (
                      field "dependencies" (arr nil) (
                        field "services" (arr nil) (
                          field "requirements"
                            (obj (
                              field "memoryMiB" (int (pos 64)) (
                                field "cpuMillis" (int (pos 100)) (
                                  field "stateBytes" (int (pos 0))
                                    (field "capabilities" (arr nil) (end))))))
                            (field "allowedOperations" (arr (cons (str "start") nil)) (
                              field "policyProfiles" (arr nil)
                                (field "schemaVersion" (int (pos 2)) (end))))))))))))))))

abbrev sealed_web : Definition
sealed_web = record web { services = [] }

abbrev sealed_fields : Fields
sealed_fields = set_last "revisionDigest" (str digest_text) web_fields

abbrev moved_sealed : Fields
moved_sealed = set_last "revisionDigest" (str digest_text) moved_fields

web-sealed : seal_definition constant (obj web_fields) ≡ ok sealed_web
unfolding nexus_infra.Catalog.Shape.enum nexus_infra.Catalog.Shape.bounded_string
    nexus_infra.Catalog.Shape.shape nexus_infra.Catalog.Seal.without
    nexus_infra.Catalog.Seal.set_last nexus_infra.Catalog.Seal.body
    nexus_infra.Catalog.Seal.revision_digest nexus_infra.Catalog.Seal.validate_definition
    nexus_infra.Catalog.Seal.seal_definition nexus_infra.Catalog.MountPoint.mount_point
    nexus_infra.Catalog.MountPoint.overlap nexus_infra.Catalog.MountPoint.overlapping
    nexus_infra.Base.Strings.is_identifier nexus_infra.Base.Strings.is_hex32
    nexus_infra.Base.Strings.is_digest nexus_infra.Base.Strings.str_lt
    nexus_infra.Json.Checks.fields nexus_infra.Json.Checks.item nexus_infra.Json.Checks.text
    nexus_infra.Json.Checks.identifier nexus_infra.Json.Checks.hex32 nexus_infra.Json.Checks.digest
    nexus_infra.Json.Checks.integer nexus_infra.Json.Checks.flag nexus_infra.Json.Checks.id_list
web-sealed = refl

web-validates : validate_definition constant (obj sealed_fields) ≡ ok sealed_web
unfolding nexus_infra.Catalog.Shape.enum nexus_infra.Catalog.Shape.bounded_string
    nexus_infra.Catalog.Shape.shape nexus_infra.Catalog.Seal.without
    nexus_infra.Catalog.Seal.set_last nexus_infra.Catalog.Seal.body
    nexus_infra.Catalog.Seal.revision_digest nexus_infra.Catalog.Seal.validate_definition
    nexus_infra.Catalog.Seal.seal_definition nexus_infra.Catalog.MountPoint.mount_point
    nexus_infra.Catalog.MountPoint.overlap nexus_infra.Catalog.MountPoint.overlapping
    nexus_infra.Base.Strings.is_identifier nexus_infra.Base.Strings.is_hex32
    nexus_infra.Base.Strings.is_digest nexus_infra.Base.Strings.str_lt
    nexus_infra.Json.Checks.fields nexus_infra.Json.Checks.item nexus_infra.Json.Checks.text
    nexus_infra.Json.Checks.identifier nexus_infra.Json.Checks.hex32 nexus_infra.Json.Checks.digest
    nexus_infra.Json.Checks.integer nexus_infra.Json.Checks.flag nexus_infra.Json.Checks.id_list
web-validates = refl

moved-validates : validate_definition constant (obj moved_sealed) ≡ ok sealed_web
unfolding nexus_infra.Catalog.Shape.enum nexus_infra.Catalog.Shape.bounded_string
    nexus_infra.Catalog.Shape.shape nexus_infra.Catalog.Seal.without
    nexus_infra.Catalog.Seal.set_last nexus_infra.Catalog.Seal.body
    nexus_infra.Catalog.Seal.revision_digest nexus_infra.Catalog.Seal.validate_definition
    nexus_infra.Catalog.Seal.seal_definition nexus_infra.Catalog.MountPoint.mount_point
    nexus_infra.Catalog.MountPoint.overlap nexus_infra.Catalog.MountPoint.overlapping
    nexus_infra.Base.Strings.is_identifier nexus_infra.Base.Strings.is_hex32
    nexus_infra.Base.Strings.is_digest nexus_infra.Base.Strings.str_lt
    nexus_infra.Json.Checks.fields nexus_infra.Json.Checks.item nexus_infra.Json.Checks.text
    nexus_infra.Json.Checks.identifier nexus_infra.Json.Checks.hex32 nexus_infra.Json.Checks.digest
    nexus_infra.Json.Checks.integer nexus_infra.Json.Checks.flag nexus_infra.Json.Checks.id_list
moved-validates = refl

same-body : body sealed_fields ≡ body moved_sealed
unfolding body nexus_infra.Catalog.Seal.without set_last nexus_infra.Json.Value.canonical
    nexus_infra.Base.Strings.str_lt
same-body = refl

seal-validate_example :
    (sealed_web.revision_digest ≡ constant (body web_fields))
    × (validate_definition constant
          (obj (set_last "revisionDigest" (str sealed_web.revision_digest) web_fields))
        ≡ ok sealed_web)
seal-validate_example = seal-validate constant web_fields sealed_web web-sealed

validate-same_digest_example : body sealed_fields ≡ body moved_sealed
validate-same_digest_example =
    validate-same_digest constant sealed_fields moved_sealed sealed_web sealed_web
      (λ same. same-body) web-validates moved-validates refl
