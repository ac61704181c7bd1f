-- ===== src/ApiDiff/Semver.antt =====
-- What the recommended version bump says of the two documents.
use ang.Common.{
  ◌≡◌, ◌≢◌, ◌↔◌, refl, ap, String, Bool, true, not, Option, none, some, List, [], ◌∷◌, ◌==◌, eq_iff,
  arith, contains, lookup, All,
}
use ang.Cycles.{is_some}
use ang.Semantics.{report}
use ang.Semantics.Checks.{report-nil_iff, each-nil_iff, append-nil_of}
use ang.ApiDiff.{
  ApiField, ApiSchema, ApiDoc, signature, removed_endpoint, added_endpoint, field_breaks,
  schema_breaks, added_fields, added_schema, breaking_of, additions_of, semver_of, diff_open_api,
}

-- The field is there, and has the signature of the other.
abbrev pub KeepsField : ApiField → Option ApiField → Type 0
KeepsField def none = ⊥
KeepsField def (some current) = signature def ≡ signature current

-- The schema is there, with all fields of the other.
abbrev pub KeepsSchema : ApiSchema → Option ApiSchema → Type 0
KeepsSchema fields none = ⊥
KeepsSchema fields (some current) =
    All (λ (f : String × ApiField). KeepsField f.1 (lookup f.0 current)) fields

-- Every endpoint, schema and field of the base is in the current document, as it was.
abbrev pub IsCompatible : ApiDoc → ApiDoc → Type 0
IsCompatible base current =
    All (λ ep. contains current.endpoints ep ≡ true) base.endpoints
    × All (λ (s : String × ApiSchema). KeepsSchema s.1 (lookup s.0 current.schemas)) base.schemas

-- The fields of the current schema, if there is one, are all in the base.
abbrev pub AddsNoField : ApiSchema → Option ApiSchema → Type 0
AddsNoField fields none = Unit
AddsNoField fields (some current) =
    All (λ (f : String × ApiField). is_some (lookup f.0 fields) ≡ true) current

-- The current document has no endpoint, schema or field that the base lacks.
abbrev pub AddsNothing : ApiDoc → ApiDoc → Type 0
AddsNothing base current =
    (All (λ ep. contains base.endpoints ep ≡ true) current.endpoints
      × All (λ (s : String × ApiSchema). AddsNoField s.1 (lookup s.0 current.schemas)) base.schemas)
    × All (λ (s : String × ApiSchema). is_some (lookup s.0 base.schemas) ≡ true) current.schemas

-- a report on something that is not so
missing_iff : (b : Bool) (message : List String) → (report (not b) message ≡ []) ↔ (b ≡ true)
missing_iff b message =
    let r = report-nil_iff (not b) message in
    (λ e. let n = r.0 e in ground arith, λ h. r.1 (ground arith))

field_iff :
    (name field : String) (def : ApiField) (o : Option ApiField)
    → (field_breaks name field def o ≡ []) ↔ KeepsField def o
unfolding field_breaks
field_iff name field def none = (λ e. cc e, λ h. absurd h)
field_iff name field def (some current) =
    let m = missing_iff (signature def == signature current) _ in
    let q = eq_iff (signature def) (signature current) in (λ e. q.0 (m.0 e), λ h. m.1 (q.1 h))

schema_iff :
    (name : String) (fields : ApiSchema) (o : Option ApiSchema)
    → (schema_breaks name fields o ≡ []) ↔ KeepsSchema fields o
unfolding schema_breaks
schema_iff name fields none = (λ e. cc e, λ h. absurd h)
schema_iff name fields (some current) =
    each-nil_iff (λ (f : String × ApiField). KeepsField f.1 (lookup f.0 current)) _
      (λ f. field_iff name f.0 f.1 (lookup f.0 current)) fields

added_iff :
    (name : String) (fields : ApiSchema) (o : Option ApiSchema)
    → (added_fields name fields o ≡ []) ↔ AddsNoField fields o
unfolding added_fields
added_iff name fields none = (λ e. tt, λ h. refl)
added_iff name fields (some current) =
    each-nil_iff (λ (f : String × ApiField). is_some (lookup f.0 fields) ≡ true) _
      (λ f. missing_iff (is_some (lookup f.0 fields)) _) current

breaking_iff : (base current : ApiDoc) → (breaking_of base current ≡ []) ↔ IsCompatible base current
breaking_iff base current =
    append-nil_of
      (each-nil_iff (λ ep. contains current.endpoints ep ≡ true) (removed_endpoint current)
        (λ ep. missing_iff (contains current.endpoints ep) _) base.endpoints)
      (each-nil_iff (λ (s : String × ApiSchema). KeepsSchema s.1 (lookup s.0 current.schemas)) _
        (λ s. schema_iff s.0 s.1 (lookup s.0 current.schemas)) base.schemas)

additions_iff :
    (base current : ApiDoc) → (additions_of base current ≡ []) ↔ AddsNothing base current
additions_iff base current =
    append-nil_of
      (append-nil_of
        (each-nil_iff (λ ep. contains base.endpoints ep ≡ true) (added_endpoint base)
          (λ ep. missing_iff (contains base.endpoints ep) _) current.endpoints)
        (each-nil_iff (λ (s : String × ApiSchema). AddsNoField s.1 (lookup s.0 current.schemas)) _
          (λ s. added_iff s.0 s.1 (lookup s.0 current.schemas)) base.schemas))
      (each-nil_iff (λ (s : String × ApiSchema). is_some (lookup s.0 base.schemas) ≡ true)
        (added_schema base) (λ s. missing_iff (is_some (lookup s.0 base.schemas)) _)
        current.schemas)

-- What the three verdicts mean, for lists of changes.
major_iff : (b a : List String) → (semver_of b a ≢ "major") ↔ (b ≡ [])
unfolding semver_of
major_iff [] [] = (λ n. refl, λ e q. cc (ap (λ s. s == "major") q))
major_iff [] (x ∷ a) = (λ n. refl, λ e q. cc (ap (λ s. s == "major") q))
major_iff (x ∷ b) a = (λ n. absurd (n refl), λ e. cc e)

patch_iff : (b a : List String) → (semver_of b a ≡ "patch") ↔ ((b ≡ []) × (a ≡ []))
unfolding semver_of
patch_iff [] [] = (λ e. (refl, refl), λ h. refl)
patch_iff [] (x ∷ a) = (λ e. absurd (cc (ap (λ s. s == "patch") e)), λ h. cc h.1)
patch_iff (x ∷ b) a = (λ e. absurd (cc (ap (λ s. s == "patch") e)), λ h. cc h.0)

-- diffOpenAPI recommends less than a major version exactly if every endpoint, schema and field of the
-- base is in the current document with the same signature of each field, and a patch exactly if in
-- addition the current document has no other endpoint or schema, and no other field in these schemas.
pub diff_open_api-IsCompatible :
    (base current : ApiDoc)
    → (((diff_open_api base current).semver ≢ "major") ↔ IsCompatible base current)
      × (((diff_open_api base current).semver ≡ "patch")
          ↔ (IsCompatible base current × AddsNothing base current))
unfolding diff_open_api
diff_open_api-IsCompatible base current =
    let b = breaking_iff base current in
    let a = additions_iff base current in
    let major = major_iff (breaking_of base current) (additions_of base current) in
    let patch = patch_iff (breaking_of base current) (additions_of base current) in
    (
      (λ n. b.0 (major.0 n), λ h. major.1 (b.1 h)),
      (λ e. (b.0 (patch.0 e).0, a.0 (patch.0 e).1), λ h. patch.1 (b.1 h.0, a.1 h.1)),
    )
