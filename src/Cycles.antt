-- ===== src/Cycles.antt =====
-- compiler/ir_semantic_validate.go: validateServiceDependencyCycles, the search for a cycle among
-- the services. Its proofs are in the modules below.
pub mod Graph
mod Sets
mod Order
mod Calls
mod Search
pub mod Verdict
mod Examples
use ang.Common.{
  ℕ, zero, suc, String, Bool, true, false, not, ◌&&◌, Option, none, some, List, [], ◌∷◌, ◌++◌, ◌==◌,
  if◌then◌else◌, lookup, contains, length,
}
use ang.Text.{concat, join}
use ang.Ir.{Service}

-- `byName`, with the newest entry first: the last service of a name counts.
unfoldable pub index_services : List (String × Service) → List Service → List (String × Service)
index_services by_name [] = by_name
index_services by_name (s ∷ services) = index_services ((s.name, s) ∷ by_name) services

unfoldable pub is_some {ℓ} : {A : Type ℓ} → Option A → Bool
is_some none = false
is_some (some a) = true

pub uses_of : Option Service → List String
uses_of none = []
uses_of (some svc) = svc.uses

-- The variables of the search. The names that map to true are those in the list.
pub record Dfs : Type 0 where
  pub visiting : List String
  pub visited : List String
  pub path : List String

pub data Outcome : Type 0 where
  ok : Dfs → Outcome
  found : (cycle : List String) → Outcome
  out_of_fuel : Outcome

-- `visiting[name] = false`
pub without : String → List String → List String
without name [] = []
without name (x ∷ xs) = let rest = without name xs in if x == name then rest else x ∷ rest

-- `path[:len(path)-1]`
pub drop_last : List String → List String
drop_last [] = []
drop_last (x ∷ []) = []
drop_last (x ∷ y ∷ xs) = x ∷ drop_last (y ∷ xs)

-- `path[idx:]`, where idx is the first index of `name`, and 0 if there is none
pub from_first_or : List String → String → List String → List String
from_first_or whole name [] = whole
from_first_or whole name (p ∷ path) = if p == name then p ∷ path else from_first_or whole name path

pub from_first : String → List String → List String
unfolding from_first_or
from_first name path = from_first_or path name path

pub enter : String → Dfs → Dfs
enter name st = record {
  visiting = name ∷ st.visiting;
  visited = name ∷ st.visited;
  path = st.path ++ name ∷ [];
}

pub leave : String → Outcome → Outcome
unfolding drop_last without
leave name (ok st) =
    ok (record st { path = drop_last st.path; visiting = without name st.visiting })
leave name (found cycle) = found cycle
leave name out_of_fuel = out_of_fuel

-- the rest of a loop, unless an error returns from it
pub on_ok : Outcome → (Dfs → Outcome) → Outcome
on_ok (ok st) rest = rest st
on_ok (found cycle) rest = found cycle
on_ok out_of_fuel rest = out_of_fuel

module _ (by_name : List (String × Service)) where
  pub exists : String → Bool
  unfolding is_some
  exists name = is_some (lookup name by_name)

  -- the loop over `svc.Uses`, with `visit` for the call of dfs
  pub visit_deps : (String → Dfs → Outcome) → List String → Dfs → Outcome
  unfolding on_ok
  visit_deps visit [] st = ok st
  visit_deps visit (dep ∷ deps) st =
      if not (exists dep)
      then visit_deps visit deps st
      else on_ok (visit dep st) (visit_deps visit deps)

  -- `dfs`, on fuel for the depth of its calls
  pub dfs : ℕ → String → Dfs → Outcome
  unfolding enter leave uses_of from_first
  dfs zero name st = out_of_fuel
  dfs (suc fuel) name st =
      if contains st.visiting name
      then found (from_first name st.path ++ name ∷ [])
      else if contains st.visited name
      then ok st
      else leave name (visit_deps (dfs fuel) (uses_of (lookup name by_name)) (enter name st))

  -- the loop over the services
  pub visit_services : ℕ → List Service → Dfs → Outcome
  unfolding on_ok
  visit_services fuel [] st = ok st
  visit_services fuel (s ∷ services) st = on_ok (dfs fuel s.name st) (visit_services fuel services)

-- Each call but the deepest enters a service of its own, so this much fuel is enough.
pub search : List Service → Outcome
unfolding index_services dfs visit_services
search services =
    let by_name = index_services [] services in
    visit_services by_name (suc (length services)) services
      (record { visiting = []; visited = []; path = [] })

pub error_of : Outcome → Option String
error_of (ok st) = none
error_of (found cycle) =
    some (concat ("service dependency cycle detected: " ∷ join cycle " -> " ∷ []))
error_of out_of_fuel = none

-- `validateServiceDependencyCycles`; none is Go's nil
pub validate_service_dependency_cycles : List Service → Option String
unfolding search error_of
validate_service_dependency_cycles services = error_of (search services)
