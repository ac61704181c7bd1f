-- ===== src/Semantics/Examples.antt =====
-- Validations of small schemas, and the theorem at one of them.
use ang.Common.{String, Bool, true, none, some, List, [], ◌∷◌, ◌≡◌, refl, contains, lookup}
use ang.Common.Int.{ℤ}
use ang.Text.{concat, quote, split, trim_space, to_lower, equal_fold, remove_all}
use ang.Ir.{
  TypeRef, type_ref, Field, Entity, Schema, zero_field, zero_entity, zero_schema, zero_service,
  zero_method, zero_endpoint, zero_repository, zero_finder, zero_where_clause,
}
use ang.Ir.TypePointer.{nil, to}
use ang.Cycles.{index_services, is_some}
use ang.Semantics.{
  reference_errors, index_entities, each, report, setting_error, ui_errors, is_supported,
  setting_text, field_is_required, has_required, entity_errors, service_errors, fields_errors,
  method_errors, optional_fields_errors, source_errors, type_errors, pointer_errors,
  entity_ref_errors, is_nil, repo_errors_in, finder_errors, column_errors,
  normalize_finder_field_key, endpoint_errors_in, has_method,
}

abbrev field : String → TypeRef → Field
field name type = record zero_field {
  name = name;
  type = type;
  optional = true;
  validate_tag = "min=1, required";
}

abbrev post : Entity
post = record zero_entity {
  name = "Post";
  fields =
      field "AuthorID" (type_ref "uuid" "" nil nil)
      ∷ field "Tags" (type_ref "list" "" (to (type_ref "entity" "Tag" nil nil)) nil)
      ∷ [];
  metadata = none;
}

abbrev schema : List Entity → Schema
schema entities = record zero_schema {
  ir_version = "2";
  entities = entities;
  services =
      record zero_service {
        name = "blog";
        methods =
            record zero_method {
              name = "Read";
              input = none;
              output = some post;
              sources = [];
              metadata = none;
            }
            ∷ [];
        uses = [];
        metadata = none;
      }
      ∷ [];
  events = [];
  endpoints =
      record zero_endpoint {
        method = "GET";
        path = "/posts";
        service = "blog";
        rpc = "Read";
        metadata = none;
      }
      ∷ [];
  repos =
      record zero_repository {
        name = "posts";
        entity = "Post";
        finders =
            record zero_finder {
              name = "ByAuthor";
              select = [];
              where_clauses = record zero_where_clause { field = "author_id" } ∷ [];
            }
            ∷ [];
      }
      ∷ [];
  metadata = none;
}

abbrev tag : Entity
tag = record zero_entity { name = "Tag" }

abbrev any_name : String → Bool
any_name s = true

abbrev show : ℤ → String
show n = "?"

abbrev errors : List Entity → List String
errors entities = reference_errors any_name any_name show (schema entities)

errors_complete : errors (post ∷ tag ∷ []) ≡ []
unfolding reference_errors index_entities index_services each report setting_error ui_errors
    is_supported setting_text field_is_required has_required entity_errors service_errors
    fields_errors method_errors optional_fields_errors source_errors type_errors pointer_errors
    entity_ref_errors is_nil repo_errors_in finder_errors column_errors normalize_finder_field_key
    endpoint_errors_in has_method contains lookup is_some concat quote split trim_space to_lower
    equal_fold remove_all
errors_complete = refl

errors_dangling :
    errors (post ∷ [])
    ≡ "entity Post field Tags[] references unknown entity type \"Tag\""
      ∷ "service blog method Read output field Tags[] references unknown entity type \"Tag\"" ∷ []
unfolding reference_errors index_entities index_services each report setting_error ui_errors
    is_supported setting_text field_is_required has_required entity_errors service_errors
    fields_errors method_errors optional_fields_errors source_errors type_errors pointer_errors
    entity_ref_errors is_nil repo_errors_in finder_errors column_errors normalize_finder_field_key
    endpoint_errors_in has_method contains lookup is_some concat quote split trim_space to_lower
    equal_fold remove_all
errors_dangling = refl
