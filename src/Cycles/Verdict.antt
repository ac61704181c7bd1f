-- ===== src/Cycles/Verdict.antt =====
-- The verdict of the search on the services.
use ang.Common.{
  ℕ, suc, ◌<◌, String, true, ◌||◌, none, some, List, [], ◌∷◌, ◌++◌, ◌≡◌, ◌⊎◌, refl, arith, contains,
  length, lookup, eq_iff, inl, inr, subst, sym, ap, ◌∙◌,
}
use text.Mathlib.TextPositions.{eq_refl}
use ang.Text.{concat, join}
use ang.Ir.{Service}
use ang.Cycles.{
  Dfs, Outcome, ok, found, out_of_fuel, index_services, dfs, visit_services, exists, uses_of,
  is_some, search, error_of, validate_service_dependency_cycles,
}
use ang.Cycles.Graph.{Edge, IsChain, IsCycle}
use ang.Cycles.Order.{finished_no_cycle}
use ang.Cycles.Sets.{unvisited, unvisited-le-length}
use ang.Cycles.Calls.{Inv, After, Post, then_rest}
use ang.Cycles.Search.{dfs-Works, less}

abbrev names : List Service → List String
names [] = []
names (s ∷ services) = s.name ∷ names services

length-names : (services : List Service) → length (names services) ≡ length services
length-names [] = refl
length-names (s ∷ services) = ap suc (length-names services)

exists-index_services :
    (acc : List (String × Service)) (services : List Service) (x : String)
    → exists (index_services acc services) x ≡ (contains (names services) x || exists acc x)
unfolding index_services exists lookup contains
exists-index_services acc [] x = refl
exists-index_services acc (s ∷ services) x =
    exists-index_services ((s.name, s) ∷ acc) services x ∙ ground arith

Edge-exists :
    (by_name : List (String × Service)) (x y : String) → Edge by_name x y → exists by_name x ≡ true
unfolding exists uses_of contains
Edge-exists by_name x y e = ground arith

chain-exists :
    (by_name : List (String × Service)) (x : String) (between : List String)
    → IsChain by_name (x ∷ (between ++ x ∷ []))
    → exists by_name x ≡ true
chain-exists by_name x [] c = Edge-exists by_name x x c.0
chain-exists by_name x (y ∷ between) c = Edge-exists by_name x y c.0

module _ (services : List Service) where
  abbrev by_name : List (String × Service)
  by_name = index_services [] services

  known : (x : String) → exists by_name x ≡ true → contains (names services) x ≡ true
  unfolding exists lookup is_some
  known x e = ground (arith, exists-index_services [] services x)

  named : (x : String) → contains (names services) x ≡ true → exists by_name x ≡ true
  named x h = rw (exists-index_services [] services x, h) (ground arith)

  -- the names of `rest` are finished
  abbrev AllNamed : List Service → List String → Type 0
  AllNamed rest done = (x : String) → contains (names rest) x ≡ true → contains done x ≡ true

  Post-services :
      (s : Service) (rest : List Service) (st st' : Dfs) (done : List String) (o : Outcome)
      → (a : After by_name st done (λ d. contains d s.name ≡ true) st')
      → Post by_name st' a.done' (AllNamed rest) o
      → Post by_name st done (AllNamed (s ∷ rest)) o
  unfolding contains
  Post-services s rest st st' done (ok st'') a b = record {
    done' = b.done';
    inv = b.inv;
    same_path = b.same_path ∙ a.same_path;
    grows = λ x h. b.grows x (a.grows x h);
    reached = λ x h. ground (arith, eq_iff s.name x, b.grows s.name a.reached, b.reached x);
  }
  Post-services s rest st st' done (found cycle) a c = c
  Post-services s rest st st' done out_of_fuel a h = h

  visit_services-works :
      (fuel : ℕ) (rest : List Service) (st : Dfs) (done : List String)
      → ((x : String) → contains (names rest) x ≡ true → contains (names services) x ≡ true)
      → Inv by_name st done
      → st.path ≡ []
      → unvisited st.visited (names services) < fuel
      → Post by_name st done (AllNamed rest) (visit_services by_name fuel rest st)
  unfolding visit_services contains
  visit_services-works fuel [] st done within i at enough = record {
    done' = done;
    inv = i;
    same_path = refl;
    grows = λ x h. h;
    reached = λ x h. cc;
  }
  visit_services-works fuel (s ∷ rest) st done within i at enough =
      then_rest by_name st done (λ d. contains d s.name ≡ true) (AllNamed (s ∷ rest))
        (dfs by_name fuel s.name st) (visit_services by_name fuel rest)
        (dfs-Works by_name (names services) known fuel s.name st done i
          (named s.name (within s.name (ground (arith, eq_refl s.name))))
          (subst (λ p. IsChain by_name (p ++ s.name ∷ [])) (sym at) tt) enough)
        (λ st' a. Post-services s rest st st' done (visit_services by_name fuel rest st') a (
          visit_services-works fuel rest st' a.done' (λ x h. within x (ground arith)) a.inv
            (a.same_path ∙ at) (less by_name (names services) known i a enough)))

  abbrev initial : Dfs
  initial = record { visiting = []; visited = []; path = [] }

  search-works : Post by_name initial [] (AllNamed services) (search services)
  unfolding search contains
  search-works =
      visit_services-works (suc (length services)) services initial [] (λ x h. h)
        (record { on_path = λ x. refl; seen = λ x. refl; apart = λ x h. refl; finished = tt }) refl
        (omega (arith, unvisited-le-length [] (names services), length-names services))

  abbrev Verdict : Outcome → Type 0
  Verdict o =
      ((error_of o ≡ none) × ((cycle : List String) → IsCycle services cycle → ⊥))
      ⊎ ((cycle : List String) × IsCycle services cycle
          × (error_of o
              ≡ some (concat ("service dependency cycle detected: " ∷ join cycle " -> " ∷ []))))

  Verdict-of : (o : Outcome) → Post by_name initial [] (AllNamed services) o → Verdict o
  unfolding error_of
  Verdict-of (ok st) a = inl (
    refl,
    λ cycle c.
        let closed = subst (IsChain by_name) c.closed c.chain in
        finished_no_cycle by_name a.done' c.start c.between a.inv.finished
          (a.reached c.start (known c.start (chain-exists by_name c.start c.between closed)))
          closed,
  )
  Verdict-of (found cycle) c = inr (
    cycle,
    record { start = c.start; between = c.between; closed = c.closed; chain = c.chain },
    refl,
  )
  Verdict-of out_of_fuel h = absurd h

-- The search returns, and it decides whether there is a cycle: it either returns nil, and then no
-- chain of uses leads from a service back to itself, or it returns the error that prints such a
-- chain. A use that names no service does not count, and of services that share a name only the
-- last one does.
pub validate_service_dependency_cycles-decides :
    (services : List Service)
    → ((validate_service_dependency_cycles services ≡ none)
        × ((cycle : List String) → IsCycle services cycle → ⊥))
      ⊎ ((cycle : List String) × IsCycle services cycle
          × (validate_service_dependency_cycles services
              ≡ some (concat ("service dependency cycle detected: " ∷ join cycle " -> " ∷ []))))
unfolding validate_service_dependency_cycles
validate_service_dependency_cycles-decides services =
    Verdict-of services (search services) (search-works services)
