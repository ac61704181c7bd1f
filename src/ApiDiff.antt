-- ===== src/ApiDiff.antt =====
-- cmd/ang/api_diff.go: the comparison of two API documents and the version bump that it recommends
-- (diffOpenAPI). A map is the list of its entries in the order of one range, and the set of endpoints
-- the list of its members. Its proof is below.
mod Semver
mod Examples
use Prim.Native.String.{String, compare}
use text.Mathlib.Text.{is_le}
use ang.Common.{
  Bool, true, not, Option, none, some, List, [], ◌∷◌, ◌++◌, ◌==◌, contains, lookup, is_empty,
  if◌then◌else◌,
}
use ang.Common.Sorting.{sort}
use ang.Text.{concat}
use ang.Cycles.{is_some}
use ang.Semantics.{each, report}

pub record ApiField : Type 0 where
  pub type : String
  pub format : String

abbrev pub ApiSchema : Type 0
ApiSchema = List (String × ApiField)

pub record ApiDoc : Type 0 where
  pub endpoints : List String
  pub schemas : List (String × ApiSchema)

pub record ApiDiffReport : Type 0 where
  pub breaking : List String
  pub additions : List String
  pub semver : String

-- what two fields are compared by
abbrev pub signature : ApiField → String
signature f = concat (f.type ∷ "|" ∷ f.format ∷ [])

abbrev pub removed_endpoint : ApiDoc → String → List String
removed_endpoint current ep =
    report (not (contains current.endpoints ep)) ("Removed endpoint: " ∷ ep ∷ [])

abbrev pub added_endpoint : ApiDoc → String → List String
added_endpoint base ep = report (not (contains base.endpoints ep)) ("Added endpoint: " ∷ ep ∷ [])

-- a field of the base, and the current field of that name
unfoldable pub field_breaks : (name field : String) → ApiField → Option ApiField → List String
field_breaks name field def none = concat ("Removed field: " ∷ name ∷ "." ∷ field ∷ []) ∷ []
field_breaks name field def (some current) = report (not (signature def == signature current)) (
    "Changed field type: "
    ∷ name
    ∷ "."
    ∷ field
    ∷ " ("
    ∷ signature def
    ∷ " -> "
    ∷ signature current
    ∷ ")"
    ∷ [])

-- a schema of the base, and the current schema of that name
unfoldable pub schema_breaks : String → ApiSchema → Option ApiSchema → List String
schema_breaks name fields none = concat ("Removed schema: " ∷ name ∷ []) ∷ []
schema_breaks name fields (some current) =
    each (λ (f : String × ApiField). field_breaks name f.0 f.1 (lookup f.0 current)) fields

unfoldable pub added_fields : String → ApiSchema → Option ApiSchema → List String
added_fields name fields none = []
added_fields name fields (some current) =
    each
      (λ (f : String × ApiField).
        report (not (is_some (lookup f.0 fields))) ("Added field: " ∷ name ∷ "." ∷ f.0 ∷ []))
      current

abbrev pub added_schema : ApiDoc → String × ApiSchema → List String
added_schema base s = report (not (is_some (lookup s.0 base.schemas))) ("Added schema: " ∷ s.0 ∷ [])

abbrev pub breaking_of : ApiDoc → ApiDoc → List String
breaking_of base current =
    each (removed_endpoint current) base.endpoints
    ++ each (λ (s : String × ApiSchema). schema_breaks s.0 s.1 (lookup s.0 current.schemas))
        base.schemas

abbrev pub additions_of : ApiDoc → ApiDoc → List String
additions_of base current =
    each (added_endpoint base) current.endpoints
    ++ each (λ (s : String × ApiSchema). added_fields s.0 s.1 (lookup s.0 current.schemas))
        base.schemas
    ++ each (added_schema base) current.schemas

unfoldable pub semver_of : (breaking additions : List String) → String
semver_of breaking additions =
    if not (is_empty breaking)
    then "major"
    else if not (is_empty additions)
    then "minor"
    else "patch"

-- `sort.Strings`
abbrev sorted : List String → List String
sorted items = sort (λ s t. is_le (compare s t)) items

-- `diffOpenAPI`
unfoldable pub diff_open_api : ApiDoc → ApiDoc → ApiDiffReport
diff_open_api base current =
    let breaking = breaking_of base current in
    let additions = additions_of base current in
    record {
      breaking = sorted breaking;
      additions = sorted additions;
      semver = semver_of breaking additions;
    }
