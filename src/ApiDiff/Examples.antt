-- ===== src/ApiDiff/Examples.antt =====
-- Two small documents.
use ang.Common.{◌≡◌, ◌≢◌, ◌↔◌, refl, [], ◌∷◌}
use ang.ApiDiff.{ApiDoc, diff_open_api}
use ang.ApiDiff.Semver.{IsCompatible, AddsNothing, diff_open_api-IsCompatible}

abbrev base : ApiDoc
base = record {
  endpoints = "get /orders" ∷ [];
  schemas = ("Order", ("id", record { type = "string"; format = "uuid" }) ∷ []) ∷ [];
}

abbrev current : ApiDoc
current = record {
  endpoints = "get /orders" ∷ "post /orders" ∷ [];
  schemas = ("Order", ("id", record { type = "string"; format = "" }) ∷ []) ∷ [];
}

changed : diff_open_api base current ≡ record {
  breaking = "Changed field type: Order.id (string|uuid -> string|)" ∷ [];
  additions = "Added endpoint: post /orders" ∷ [];
  semver = "major";
}
unfolding diff_open_api ang.ApiDiff.semver_of ang.ApiDiff.schema_breaks ang.ApiDiff.field_breaks
    ang.ApiDiff.added_fields ang.Semantics.each ang.Semantics.report ang.Cycles.is_some
    ang.Common.lookup ang.Common.contains ang.Text.concat ang.Common.Sorting.sort
changed = refl

diff_open_api-IsCompatible_example :
    (((diff_open_api base current).semver ≢ "major") ↔ IsCompatible base current)
    × (((diff_open_api base current).semver ≡ "patch")
        ↔ (IsCompatible base current × AddsNothing base current))
diff_open_api-IsCompatible_example = diff_open_api-IsCompatible base current
