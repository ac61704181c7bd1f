-- ===== src/Planner.antt =====
-- compiler/planner/route_planner.go: the routes of a FastAPI service, with a Python name for each of
-- its handlers. Its proofs are in the modules below.
mod Names
mod Routes
mod Examples
use Prim.Native.Char.{Char, code}
use Prim.Native.String.{String}
use ang.Common.{
  ℕ, zero, suc, ◌≡◌, refl, Bool, true, false, not, ◌&&◌, ◌||◌, Option, none, some, List, [], ◌∷◌,
  ◌++◌, ◌==◌, map, ◌>>=◌, contains, lookup, is_empty, length, leb, eqb, if◌then◌else◌,
}
use ang.Text.{to_lower, trim_space, concat, join}
use ang.Text.Numbers.{decimal}

abbrev is_upper : ℕ → Bool
is_upper c = leb 65 c && leb c 90

abbrev is_lower : ℕ → Bool
is_lower c = leb 97 c && leb c 122

-- the loop of `toSnake`, told whether the letter before is a small one
to_snake_after : Bool → String → String
to_snake_after previous String.[] = ""
to_snake_after previous (String.◌∷◌ c s) =
    let rest = to_snake_after (is_lower (code c)) s in
    concat
      ((if previous && is_upper (code c) then "_" else "") ∷ to_lower (String.◌∷◌ c "") ∷ rest ∷ [])

-- `toSnake`
unfoldable pub to_snake : String → String
unfolding to_snake_after
to_snake s = to_snake_after false s

snakes : to_snake "listOrdersByID" ≡ "list_orders_by_id"
unfolding to_snake to_snake_after to_lower concat
snakes = refl

-- a character of the class `[a-zA-Z0-9_]`
abbrev is_word : ℕ → Bool
is_word c = is_upper c || is_lower c || leb 48 c && leb c 57 || eqb c 95

-- The groups of the matches of `\{([a-zA-Z0-9_]+)\}`. `group` is the text behind the last opening
-- brace, if only characters of words stand there.
matches : Option String → String → List String
matches group String.[] = []
matches none (String.◌∷◌ c s) =
    let inside = matches (some "") s in
    let outside = matches none s in if eqb (code c) 123 then inside else outside
matches (some word) (String.◌∷◌ c s) =
    let anew = matches (some "") s in
    let longer = matches (some (concat (word ∷ String.◌∷◌ c "" ∷ []))) s in
    let outside = matches none s in
    if eqb (code c) 123
    then anew
    else if is_word (code c)
    then longer
    else if eqb (code c) 125 && not (word == "")
    then word ∷ outside
    else outside

-- the names that were not seen yet, in their order
unfoldable pub distinct : List String → List String → List String
distinct seen [] = []
distinct seen (name ∷ names) =
    let old = distinct seen names in
    let new = distinct (name ∷ seen) names in if contains seen name then old else name ∷ new

-- `pathParamNames`
unfoldable pub path_param_names : String → List String
unfolding matches
path_param_names path = distinct [] (matches none path)

finds_params : path_param_names "/u/{id}/{{p_1}/{}/{a-b}/{id}" ≡ "id" ∷ "p_1" ∷ []
unfolding path_param_names matches distinct contains concat
finds_params = refl

pub record GroupedEndpoint : Type 0 where
  pub method : String
  pub path : String
  pub rpc : String
  pub needs_auth : Bool

pub record RpcSignature : Type 0 where
  pub input_model : String
  pub output_model : String

pub record RoutePlan : Type 0 where
  pub service_name : String
  pub handler_name : String
  pub method : String
  pub path : String
  pub input_type : String
  pub output_type : String
  pub path_params : List String
  pub needs_auth : Bool
  pub decorator : String
  pub signature : String
  pub return_type : String
  pub call_expr : String

-- `for n := 2; used[handler]; n++`, where none is a loop that has not ended
unfoldable pub free_name : ℕ → List String → String → ℕ → String → Option String
free_name zero used base n handler = none
free_name (suc fuel) used base n handler =
    let next = free_name fuel used base (suc n) (concat (base ∷ "_" ∷ decimal n ∷ [])) in
    if contains used handler then next else some handler

unfoldable pub base_name : GroupedEndpoint → String
base_name ep =
    let base = to_snake ep.rpc in
    if base == "" then concat (to_snake ep.method ∷ "_handler" ∷ []) else base

unfoldable pub first_name : List String → GroupedEndpoint → String
first_name used ep =
    let base = base_name ep in
    if contains used base then concat (base ∷ "_" ∷ to_lower ep.method ∷ []) else base

-- The name of a handler. The loop looks at no more names than there are, and at a last one.
unfoldable pub handler_name : List String → GroupedEndpoint → Option String
handler_name used ep =
    let first = first_name used ep in free_name (suc (length used)) used first 2 first

unfoldable pub signature_of : List (String × RpcSignature) → String → RpcSignature
signature_of sigs key = elim (lookup key sigs) [
  | none ↦ record { input_model = ""; output_model = "" }
  | some sig ↦ sig
]

abbrev model_or : String → String → String
model_or default model =
    if not (model == "") && not (model == "Any") then concat ("models." ∷ model ∷ []) else default

decorator_of : String → String
decorator_of method =
    let decorator = to_lower method in
    if contains ("get" ∷ "post" ∷ "put" ∷ "patch" ∷ "delete" ∷ "head" ∷ "options" ∷ []) decorator
    then decorator
    else "api_route"

-- The routes of one service, given the signatures of the methods of all services. The names of the
-- class of the service and of the function that gets it come from `names.ToGoName`.
module _ (sigs : List (String × RpcSignature)) (service_name class_name get_service : String) where
  abbrev has_body : GroupedEndpoint → Bool
  has_body ep = not (ep.method == "GET") && not (ep.method == "DELETE")

  abbrev sig_of : GroupedEndpoint → RpcSignature
  sig_of ep =
      signature_of sigs
        (concat (to_lower (trim_space service_name) ∷ ":" ∷ to_lower (trim_space ep.rpc) ∷ []))

  abbrev input_type_of : GroupedEndpoint → String
  input_type_of ep = model_or "dict[str, Any]" (sig_of ep).input_model

  abbrev output_type_of : GroupedEndpoint → String
  output_type_of ep = model_or "Any" (sig_of ep).output_model

  abbrev signature_parts : GroupedEndpoint → List String
  signature_parts ep =
      map (λ p. concat (p ∷ ": str" ∷ [])) (path_param_names ep.path)
      ++ (if has_body ep then concat ("payload: " ∷ input_type_of ep ∷ []) ∷ [] else [])
      ++ (concat ("svc: " ∷ class_name ∷ " = Depends(" ∷ get_service ∷ ")" ∷ []) ∷ [])

  abbrev call_args : GroupedEndpoint → List String
  call_args ep = path_param_names ep.path ++ (if has_body ep then "payload" ∷ [] else [])

  -- one round of the loop over the endpoints, once the handler has its name
  unfoldable pub plan_route : GroupedEndpoint → String → RoutePlan
  unfolding decorator_of
  plan_route ep handler = record {
    service_name = service_name;
    handler_name = handler;
    method = ep.method;
    path = ep.path;
    input_type = input_type_of ep;
    output_type = output_type_of ep;
    path_params = path_param_names ep.path;
    needs_auth = ep.needs_auth;
    decorator = decorator_of ep.method;
    signature = join (signature_parts ep) ", ";
    return_type = output_type_of ep;
    call_expr =
        if is_empty (call_args ep)
        then concat ("await svc." ∷ handler ∷ "()" ∷ [])
        else concat ("await svc." ∷ handler ∷ "(" ∷ join (call_args ep) ", " ∷ ")" ∷ []);
  }

  -- the loop over the endpoints, with the names used so far
  unfoldable pub plan_routes : List String → List GroupedEndpoint → Option (List RoutePlan)
  plan_routes used [] = some []
  plan_routes used (ep ∷ eps) = do
    handler ← handler_name used ep
    routes ← plan_routes (handler ∷ used) eps
    some (plan_route ep handler ∷ routes)
