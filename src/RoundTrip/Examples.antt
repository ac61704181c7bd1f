-- ===== src/RoundTrip/Examples.antt =====
-- Inputs at which the theorems of the round trips hold, and what is lost.
use mathlib.Core.List.{Perm}
use text.Mathlib.Text.{is_le}
use Prim.Native.String.{String, compare}
use ang.Common.{◌≡◌, ◌↔◌, refl, Bool, true, false, none, some, List, [], ◌∷◌, map, All}
use ang.Common.Sorting.{sort, sort-Perm}
use ang.Values.{Json}
use ang.Normalizer
use ang.Ir
use ang.Convert.{convert_endpoint, convert_repository, convert_flow_steps}
use ang.Restore.{restore_endpoint, restore_repository, restore_flow_steps}
use ang.RoundTrip.Endpoints.{KeepsAuth, restore_endpoint-convert_endpoint}
use ang.RoundTrip.Flows.{IsFlow, IsStep, IsCases, convert_flow_steps-restore_flow_steps}
use ang.RoundTrip.Services.{without_sum, restore_repository-convert_repository}

abbrev guarded : Normalizer.Endpoint
guarded = record Normalizer.zero_endpoint {
  method = "POST";
  path = "/orders";
  auth_type = "jwt";
  auth_roles = "admin" ∷ [];
  auth_check = "owner";
}

restore_endpoint-convert_endpoint_example :
    (restore_endpoint (convert_endpoint guarded) ≡ guarded) ↔ KeepsAuth guarded
restore_endpoint-convert_endpoint_example = restore_endpoint-convert_endpoint guarded

-- an endpoint that only injects a field loses it
injecting :
    (restore_endpoint (
      convert_endpoint (record Normalizer.zero_endpoint { auth_inject = "user" ∷ [] }))).auth_inject
    ≡ []
unfolding restore_endpoint convert_endpoint ang.Restore.restore_auth
injecting = refl

abbrev tags : Normalizer.Field
tags = record Normalizer.zero_field {
  name = "tags";
  type = "[]domain.Tag";
  is_list = true;
  item_type_name = "Tag";
  validate_tag = "required";
  env_var = "TAGS";
  db = record { type = "uuid"; primary_key = false; unique = true; index = false };
  file_meta = some record { kind = "image"; thumbnail = true };
  ui = some (record Normalizer.zero_ui_hints { label = "Tags"; hidden = true });
  metadata = some (("file_kind", Json.text "image") ∷ ("sql_type", Json.text "text") ∷ []);
}

abbrev order : Normalizer.Entity
order = record Normalizer.zero_entity {
  name = "Order";
  fields = tags ∷ [];
  fsm = some record {
    field = "status";
    states = "new" ∷ "paid" ∷ [];
    transitions = ("new", "paid" ∷ []) ∷ [];
  };
  indexes = record { fields = "tags" ∷ []; unique = false } ∷ [];
}

abbrev by_name : List Normalizer.Entity → List Normalizer.Entity
by_name = sort (λ e f. is_le (compare e.name f.name))

-- `flow.If` with one step under `_then`
abbrev check : Ir.FlowSteps
check =
    Ir.FlowSteps.cons
      (Ir.FlowStep.flow_step "flow.If" "" "" "" "" "" []
        (Normalizer.FlowArgs.arg "condition" (Normalizer.FlowValue.plain (Json.text "ok"))
          Normalizer.FlowArgs.end)
        Ir.FlowSteps.nil Ir.FlowSteps.nil Ir.FlowSteps.nil
        (Ir.FlowSteps.cons
          (Ir.FlowStep.flow_step "repo.Save" "" "" "" "" "" ("Order" ∷ []) Normalizer.FlowArgs.end
            Ir.FlowSteps.nil Ir.FlowSteps.nil Ir.FlowSteps.nil Ir.FlowSteps.nil Ir.FlowSteps.nil
            Ir.FlowCases.done Ir.FlowSteps.nil [])
          Ir.FlowSteps.nil)
        Ir.FlowSteps.nil Ir.FlowCases.done Ir.FlowSteps.nil [])
      Ir.FlowSteps.nil

check-IsFlow : IsFlow check
check-IsFlow =
    let none_ = IsFlow.nil in
    IsFlow.cons
      (IsStep.step (refl, tt) none_ none_ none_
        (IsFlow.cons (IsStep.step tt none_ none_ none_ none_ none_ IsCases.done none_) none_) none_
        IsCases.done none_)
      none_

convert_flow_steps-restore_flow_steps_example :
    convert_flow_steps (restore_flow_steps check) ≡ check
convert_flow_steps-restore_flow_steps_example =
    convert_flow_steps-restore_flow_steps check check-IsFlow

abbrev orders : Normalizer.Service
orders = record Normalizer.zero_service {
  name = "Orders";
  methods =
      record Normalizer.zero_method {
        name = "Pay";
        input = order;
        sources = record Normalizer.zero_source { name = "order"; kind = "sql" } ∷ [];
        flow = restore_flow_steps check;
      }
      ∷ [];
}

abbrev totals : Normalizer.RepositoryFinder
totals = record Normalizer.zero_repository_finder {
  name = "TotalByUser";
  returns = "sum";
  sum_field = "amount";
  where_clauses =
      record { field = "user_id"; op = "="; param = "userID"; param_type = "string" } ∷ [];
}

abbrev order_repository : Normalizer.Repository
order_repository = record Normalizer.zero_repository {
  name = "OrderRepository";
  entity = "Order";
  finders = totals ∷ record Normalizer.zero_repository_finder { name = "Find" } ∷ [];
}

abbrev by_finder : List Normalizer.RepositoryFinder → List Normalizer.RepositoryFinder
by_finder = sort (λ e f. is_le (compare e.name f.name))

restore_repository-convert_repository_example :
    let back = restore_repository by_finder (convert_repository order_repository) in
    (back.name ≡ "OrderRepository")
    × ((back.entity ≡ "Order")
        × ((back.source ≡ "") × Perm back.finders (map without_sum order_repository.finders)))
restore_repository-convert_repository_example =
    restore_repository-convert_repository by_finder
      (sort-Perm (λ (e f : Normalizer.RepositoryFinder). is_le (compare e.name f.name)))
      order_repository
