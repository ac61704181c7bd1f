-- ===== src/Pipeline/Graph.antt =====
-- The graph of dependencies, BuildDependencyGraph of compiler/ir/convert.go: its edges and its nodes.
use mathlib.Core.List.{flat_map}
use mathlib.Core.List.Memᴰ
use ang.Common.{
  ◌≡◌, ◌⊎◌, inl, inr, refl, subst, String, Option, none, some, List, [], ◌∷◌, map, Memᴰ, All,
  All-append,
}
use ang.Ir.{Schema, Entity, Service, Method, Node, Edge, DependencyGraph}
use ang.Convert.{
  build_dependency_graph, entity_node, service_nodes, method_node, service_edges, method_edges,
  link_edge, entity_id, service_id, method_id,
}

module _ {A B : Type 0} where
  mem-map : (f : A → B) {a : A} (xs : List A) → Memᴰ a xs → Memᴰ (f a) (map f xs)
  mem-map f [] m = absurd (Memᴰ.not-nil m)
  mem-map f (x ∷ xs) (Memᴰ.head e) = Memᴰ.head (λ i. f (e i))
  mem-map f (x ∷ xs) (Memᴰ.tail m) = Memᴰ.tail (mem-map f xs m)

  mem-flat_map :
      (f : A → List B) {a : A} {b : B} (xs : List A)
      → Memᴰ a xs
      → Memᴰ b (f a)
      → Memᴰ b (flat_map f xs)
  unfolding flat_map
  mem-flat_map f [] m n = absurd (Memᴰ.not-nil m)
  mem-flat_map f {a} {b} (x ∷ xs) (Memᴰ.head e) n =
      Memᴰ.append_left (flat_map f xs) (subst (λ y. Memᴰ b (f y)) e n)
  mem-flat_map f (x ∷ xs) (Memᴰ.tail m) n = Memᴰ.append_right (f x) (mem-flat_map f xs m n)

  All-flat_map :
      (P : B → Type 0) (f : A → List B) (xs : List A)
      → ((a : A) → Memᴰ a xs → All P (f a))
      → All P (flat_map f xs)
  unfolding flat_map
  All-flat_map P f [] h = tt
  All-flat_map P f (x ∷ xs) h =
      All-append P (f x) (flat_map f xs) (h x (Memᴰ.head refl))
        (All-flat_map P f xs (λ a m. h a (Memᴰ.tail m)))

All-of_mem : {A : Type 0} (P : A → Type 0) (xs : List A) → ((a : A) → Memᴰ a xs → P a) → All P xs
All-of_mem P [] h = tt
All-of_mem P (x ∷ xs) h = (h x (Memᴰ.head refl), All-of_mem P xs (λ a m. h a (Memᴰ.tail m)))

abbrev pub ids : DependencyGraph → List String
ids g = map (λ (n : Node). n.id) g.nodes

-- An edge from a method of a service to the entity that is the method's input or output.
abbrev pub IsLink : Schema → Edge → Type 0
IsLink s e =
    (v : Service) × (m : Method) × (x : Entity) × Memᴰ v s.services
    × Memᴰ m v.methods
    × (e.from ≡ method_id v.name m.name)
    × (e.to ≡ entity_id x.name)
    × (((m.input ≡ some x) × (e.type ≡ "reads")) ⊎ ((m.output ≡ some x) × (e.type ≡ "writes")))

-- The edge starts at a node, and ends at one or is a link to an entity.
abbrev pub IsAnchored : Schema → Edge → Type 0
IsAnchored s e =
    Memᴰ e.from (ids (build_dependency_graph s))
    × (Memᴰ e.to (ids (build_dependency_graph s)) ⊎ IsLink s e)

-- The method has a node, and an edge from its service.
abbrev pub IsLinked : DependencyGraph → String → Method → Type 0
IsLinked g service m =
    Memᴰ (method_node service m) g.nodes
    × Memᴰ (record { from = service_id service; to = method_id service m.name; type = "has" })
        g.edges

module _ (s : Schema) where
  abbrev graph : DependencyGraph
  graph = build_dependency_graph s

  node_of_service :
      (v : Service) (n : Node) → Memᴰ v s.services → Memᴰ n (service_nodes v) → Memᴰ n graph.nodes
  unfolding build_dependency_graph
  node_of_service v n mv mn =
      Memᴰ.append_right (map entity_node s.entities) (mem-flat_map service_nodes s.services mv mn)

  id_of_service : (v : Service) → Memᴰ v s.services → Memᴰ (service_id v.name) (ids graph)
  id_of_service v mv =
      mem-map (λ (n : Node). n.id) graph.nodes (node_of_service v _ mv (Memᴰ.head refl))

  node_of_method :
      (v : Service) (m : Method)
      → Memᴰ v s.services
      → Memᴰ m v.methods
      → Memᴰ (method_node v.name m) graph.nodes
  node_of_method v m mv mm =
      node_of_service v _ mv (Memᴰ.tail (mem-map (method_node v.name) v.methods mm))

  links-IsAnchored :
      (v : Service) (m : Method) (type : String) (e : Option Entity)
      → Memᴰ v s.services
      → Memᴰ m v.methods
      → Memᴰ (method_id v.name m.name) (ids graph)
      → ((x : Entity)
          → e ≡ some x
          → ((m.input ≡ some x) × (type ≡ "reads")) ⊎ ((m.output ≡ some x) × (type ≡ "writes")))
      → All (IsAnchored s) (link_edge (method_id v.name m.name) type e)
  unfolding link_edge
  links-IsAnchored v m type none mv mm there k = tt
  links-IsAnchored v m type (some x) mv mm there k =
      ((there, inr (v, m, x, mv, mm, refl, refl, k x refl)), tt)

  method_edges-IsAnchored :
      (v : Service) (m : Method)
      → Memᴰ v s.services
      → Memᴰ m v.methods
      → All (IsAnchored s) (method_edges v.name m)
  method_edges-IsAnchored v m mv mm =
      let id = method_id v.name m.name in
      let there = mem-map (λ (n : Node). n.id) graph.nodes (node_of_method v m mv mm) in
      (
        (id_of_service v mv, inl there),
        All-append (IsAnchored s) (link_edge id "reads" m.input) (link_edge id "writes" m.output)
            (links-IsAnchored v m "reads" m.input mv mm there (λ x e. inl (e, refl)))
            (links-IsAnchored v m "writes" m.output mv mm there (λ x e. inr (e, refl))),
      )

  -- In the graph that BuildDependencyGraph makes, every edge starts at a node and ends at one, or is a
  -- link of type "reads" from a method to the entity that is its input, or of type "writes" to the one
  -- that is its output; and every method of every service has its node and the edge "has" from the
  -- node of its service.
  pub build_dependency_graph-IsAnchored :
      All (IsAnchored s) (build_dependency_graph s).edges
      × All (λ (v : Service). All (IsLinked (build_dependency_graph s) v.name) v.methods) s.services
  unfolding build_dependency_graph
  build_dependency_graph-IsAnchored = (
    All-flat_map (IsAnchored s) service_edges s.services (λ v mv.
        All-flat_map (IsAnchored s) (method_edges v.name) v.methods
          (λ m mm. method_edges-IsAnchored v m mv mm)),
    All-of_mem (λ (v : Service). All (IsLinked graph v.name) v.methods) s.services
        (λ v mv. All-of_mem (IsLinked graph v.name) v.methods (λ m mm. (
          node_of_method v m mv mm,
          mem-flat_map service_edges s.services mv
              (mem-flat_map (method_edges v.name) v.methods mm (Memᴰ.head refl)),
        ))),
  )
