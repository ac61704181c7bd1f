-- ===== src/Cycles/Graph.antt =====
-- The dependencies among services as a graph, independently of the search.
use ang.Common.{String, true, List, [], ◌∷◌, ◌++◌, ◌≡◌, lookup, contains}
use ang.Ir.{Service}
use ang.Cycles.{index_services, uses_of, exists}

-- The service `x` names `y` among its uses, and `y` is a service.
abbrev pub Edge : List (String × Service) → String → String → Type 0
Edge by_name x y = (contains (uses_of (lookup x by_name)) y ≡ true) × (exists by_name y ≡ true)

-- Each service uses the next one.
abbrev pub IsChain : List (String × Service) → List String → Type 0
IsChain by_name [] = Unit
IsChain by_name (x ∷ []) = Unit
IsChain by_name (x ∷ y ∷ path) = Edge by_name x y × IsChain by_name (y ∷ path)

-- A chain from a service back to itself.
pub record IsCycle (services : List Service) (cycle : List String) : Type 0 where
  pub start : String
  pub between : List String
  pub closed : cycle ≡ start ∷ (between ++ start ∷ [])
  pub chain : IsChain (index_services [] services) cycle
