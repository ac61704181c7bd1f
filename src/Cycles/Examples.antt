-- ===== src/Cycles/Examples.antt =====
-- Runs of the search for cycles, and its theorem at concrete services.
use ang.Common.{String, none, some, List, [], ◌∷◌, ◌≡◌, ◌⊎◌, refl, lookup, contains}
use ang.Text.{concat, join}
use ang.Ir.{Service, zero_service}
use ang.Cycles.{
  validate_service_dependency_cycles, search, index_services, dfs, visit_services, visit_deps,
  exists, is_some, on_ok, enter, leave, uses_of, from_first, from_first_or, drop_last, without,
  error_of,
}
use ang.Cycles.Graph.{IsCycle}
use ang.Cycles.Verdict.{validate_service_dependency_cycles-decides}

abbrev service : String → List String → Service
service name uses = record zero_service { name = name; uses = uses }

abbrev ring : List Service
ring =
    service "gate" ("a" ∷ []) ∷ service "a" ("b" ∷ "log" ∷ []) ∷ service "b" ("log" ∷ "a" ∷ []) ∷ []

abbrev diamond : List Service
diamond =
    service "top" ("a" ∷ "b" ∷ [])
    ∷ service "a" ("base" ∷ [])
    ∷ service "b" ("base" ∷ [])
    ∷ service "base" ("log" ∷ [])
    ∷ []

validate-ring :
    validate_service_dependency_cycles ring ≡ some "service dependency cycle detected: a -> b -> a"
unfolding validate_service_dependency_cycles search index_services dfs visit_services visit_deps
    exists is_some on_ok enter leave uses_of from_first from_first_or drop_last without error_of
    lookup contains join concat
validate-ring = refl

validate-diamond : validate_service_dependency_cycles diamond ≡ none
unfolding validate_service_dependency_cycles search index_services dfs visit_services visit_deps
    exists is_some on_ok enter leave uses_of from_first from_first_or drop_last without error_of
    lookup contains
validate-diamond = refl

validate_service_dependency_cycles-decides_example :
    ((validate_service_dependency_cycles ring ≡ none)
      × ((cycle : List String) → IsCycle ring cycle → ⊥))
    ⊎ ((cycle : List String) × IsCycle ring cycle
        × (validate_service_dependency_cycles ring
            ≡ some (concat ("service dependency cycle detected: " ∷ join cycle " -> " ∷ []))))
validate_service_dependency_cycles-decides_example = validate_service_dependency_cycles-decides ring
