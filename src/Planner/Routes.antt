-- ===== src/Planner/Routes.antt =====
-- The routes of a service.
use ang.Common.{◌≡◌, refl, String, false, some, List, [], ◌∷◌, map, contains}
use ang.Planner.{GroupedEndpoint, RpcSignature, RoutePlan, plan_route, plan_routes}
use ang.Planner.Names.{handler_name-IsFree}

-- No two of the names are the same, and none is one of the used names.
abbrev pub AreFree : List String → List String → Type 0
AreFree used [] = Unit
AreFree used (name ∷ names) = (contains used name ≡ false) × AreFree (name ∷ used) names

-- the endpoint that a route is for
abbrev pub Serves : RoutePlan → GroupedEndpoint → Type 0
Serves r ep = (r.method ≡ ep.method) × ((r.path ≡ ep.path) × (r.needs_auth ≡ ep.needs_auth))

-- The routes are those of the endpoints, in their order.
abbrev pub AreServed : List RoutePlan → List GroupedEndpoint → Type 0
AreServed [] [] = Unit
AreServed [] (ep ∷ eps) = ⊥
AreServed (r ∷ rs) [] = ⊥
AreServed (r ∷ rs) (ep ∷ eps) = Serves r ep × AreServed rs eps

module _ (sigs : List (String × RpcSignature)) (service_name class_name get_service : String) where
  plan_routes_from :
      (used : List String) (eps : List GroupedEndpoint)
      → (routes : List RoutePlan) × (plan_routes sigs service_name class_name get_service used eps
          ≡ some routes)
        × (AreFree used (map (λ (r : RoutePlan). r.handler_name) routes) × AreServed routes eps)
  unfolding plan_routes plan_route
  plan_routes_from used [] = ([], refl, (tt, tt))
  plan_routes_from used (ep ∷ eps) =
      let (name, found, free) = handler_name-IsFree used ep in
      let (routes, planned, (distinct, served)) = plan_routes_from (name ∷ used) eps in
      (
        plan_route sigs service_name class_name get_service ep name ∷ routes,
        rw (found, planned) refl,
        ((free, distinct), ((refl, (refl, refl)), served)),
      )

  -- Every list of endpoints of a service has its routes, one for each endpoint in their order, and no
  -- two of them have handlers of the same name.
  pub plan_routes-AreFree :
      (eps : List GroupedEndpoint)
      → (routes : List RoutePlan) × (plan_routes sigs service_name class_name get_service [] eps
          ≡ some routes)
        × (AreFree [] (map (λ (r : RoutePlan). r.handler_name) routes) × AreServed routes eps)
  plan_routes-AreFree eps = plan_routes_from [] eps
