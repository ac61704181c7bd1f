-- ===== src/Planner/Examples.antt =====
-- Routes of a small service.
use ang.Common.{◌≡◌, refl, true, some, [], ◌∷◌, List, map, contains}
use ang.Planner.{GroupedEndpoint, RoutePlan, RpcSignature, handler_name, plan_routes, free_name}
use ang.Planner.Routes.{AreFree, AreServed, plan_routes-AreFree}

abbrev get_order : GroupedEndpoint
get_order = record { method = "GET"; path = "/orders/{id}"; rpc = "GetOrder"; needs_auth = true }

-- the names "get_order", "get_order_get" and "get_order_get_2" are taken
third :
    handler_name ("get_order_get_2" ∷ "get_order_get" ∷ "get_order" ∷ []) get_order
    ≡ some "get_order_get_3"
unfolding handler_name free_name contains ang.Planner.first_name ang.Planner.base_name
    ang.Planner.to_snake ang.Text.to_lower ang.Text.concat ang.Text.Numbers.decimal
third = refl

plan_routes-AreFree_example :
    (routes : List RoutePlan) × (plan_routes [] "Orders" "OrdersService" "get_orders_service" []
        (get_order ∷ get_order ∷ [])
      ≡ some routes)
    × (AreFree [] (map (λ (r : RoutePlan). r.handler_name) routes)
        × AreServed routes (get_order ∷ get_order ∷ []))
plan_routes-AreFree_example =
    plan_routes-AreFree [] "Orders" "OrdersService" "get_orders_service"
      (get_order ∷ get_order ∷ [])
