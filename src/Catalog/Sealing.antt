-- ===== src/Catalog/Sealing.antt =====
-- `seal_definition` and `validate_definition` of console/catalog.py together.
use nexus_infra.Base.{String, none, ◌≡◌, sym, ap, ◌∙◌, eq_iff, eq_refl, arith, subst}
use nexus_infra.Base.Result.{ok, >>=-eq-ok}
use nexus_infra.Json.Value.{Value, str, obj, Fields, end, field, get, canonical}
use nexus_infra.Catalog.Definition.{Definition}
use nexus_infra.Catalog.Shape.{shape}
use nexus_infra.Catalog.Seal.{
  without, set_last, body, revision_digest, validate_definition, seal_definition,
}

without-set_last :
    (k : String) (v : Value) (fs : Fields)
    → get k fs ≡ none
    → without k (set_last k v fs) ≡ without k fs
unfolding without set_last
without-set_last k v end h = ground (arith, eq_refl k)
without-set_last k v (field j w fs) h = ground (arith, without-set_last k v fs)

body-set_last :
    (v : Value) (fs : Fields)
    → get "revisionDigest" fs ≡ none
    → body (set_last "revisionDigest" v fs) ≡ body fs
unfolding body
body-set_last v fs h = ap (λ gs. canonical (obj gs)) (without-set_last "revisionDigest" v fs h)

module _ (hash : Value → String) where
  -- A validated definition has the digest of the rest of its object.
  validated-digest :
      (fs : Fields) (d : Definition)
      → validate_definition hash (obj fs) ≡ ok d
      → d.revision_digest ≡ hash (body fs)
  unfolding validate_definition revision_digest
  validated-digest fs d h =
      let (e, shaped, rest) = >>=-eq-ok (shape (obj fs)) _ h in
      ground (arith, eq_iff (hash (body fs)) e.revision_digest)

  sealed-validates :
      (fs : Fields) (d : Definition)
      → seal_definition hash (obj fs) ≡ ok d
      → (get "revisionDigest" fs ≡ none)
        × (validate_definition hash (obj (set_last "revisionDigest" (str (hash (body fs))) fs))
            ≡ ok d)
  unfolding seal_definition revision_digest
  sealed-validates fs d h = (ground arith, ground arith)

-- A definition that was sealed has the digest of the object that was given, and is what validation
-- makes of that object with its digest added.
pub seal-validate :
    (hash : Value → String) (fs : Fields) (d : Definition)
    → seal_definition hash (obj fs) ≡ ok d
    → (d.revision_digest ≡ hash (body fs))
      × (validate_definition hash (obj (set_last "revisionDigest" (str d.revision_digest) fs))
          ≡ ok d)
seal-validate hash fs d h =
    let (gone, valid) = sealed-validates hash fs d h in
    let digest =
      validated-digest hash _ d valid ∙ ap hash (body-set_last (str (hash (body fs))) fs gone) in
    (
      digest,
      subst (λ t. validate_definition hash (obj (set_last "revisionDigest" (str t) fs)) ≡ ok d)
          (sym digest) valid,
    )

-- Two validated definitions with one digest agree in all their fields, in canonical form, if the hash
-- function does not collide on these two.
pub validate-same_digest :
    (hash : Value → String) (fs gs : Fields) (d e : Definition)
    → (hash (body fs) ≡ hash (body gs) → body fs ≡ body gs)
    → validate_definition hash (obj fs) ≡ ok d
    → validate_definition hash (obj gs) ≡ ok e
    → d.revision_digest ≡ e.revision_digest
    → body fs ≡ body gs
validate-same_digest hash fs gs d e free vd ve same =
    free (sym (validated-digest hash fs d vd) ∙ same ∙ validated-digest hash gs e ve)
