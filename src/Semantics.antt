-- ===== src/Semantics.antt =====
-- compiler/ir_semantic_validate.go: the validation of the references, the types and the user
-- interface settings in a schema (ValidateIRSemantics, parts 1 to 4). An error is appended to a
-- list. The two regular expressions and the printing of a number are parameters.
-- Its proofs are in the modules below.
mod Rules
mod Ui
pub mod Checks
mod Types
mod Interface
pub mod Resolution
mod Examples
unfoldable pub use Rules.*
unfoldable pub use Ui.*
use ang.Common.{
  String, Bool, true, false, not, ◌&&◌, ◌||◌, Option, none, some, List, [], ◌∷◌, ◌++◌, ◌==◌, map,
  if◌then◌else◌, contains, is_empty, lookup,
}
use ang.Common.Int.{ℤ, pos, ltb_ℤ}
use ang.Text.{trim_space, to_lower, equal_fold, split, remove_all, concat, quote}
use ang.Ir.{
  TypeRef, TypePointer, type_ref, Field, FieldUi, Entity, Source, Method, Service, Endpoint,
  WhereClause, Finder, Repository, Schema,
}
use ang.Ir.TypePointer.{nil, to}
use ang.Cycles.{is_some, index_services}

module _ (component_name import_path : String → Bool) (show_int : ℤ → String) where
  module _ (entities : List (String × Entity)) where
    -- the loop over fields, each with its place in the messages
    unfoldable pub fields_errors : (owner : List String) → List Field → List String
    unfolding each type_errors ui_errors
    fields_errors owner fields =
        each
          (λ f.
            let place = concat (owner ++ f.name ∷ []) in
            type_errors entities place f.type
            ++ ui_errors component_name import_path show_int place f)
          fields

    unfoldable pub optional_fields_errors : (owner : List String) → Option Entity → List String
    unfolding fields_errors
    optional_fields_errors owner none = []
    optional_fields_errors owner (some e) = fields_errors owner e.fields

    unfoldable pub source_errors : (service method : String) → Source → List String
    unfolding report is_some
    source_errors service method src =
        if trim_space src.entity == ""
        then []
        else report (not (is_some (lookup src.entity entities))) (
            "service "
            ∷ service
            ∷ " method "
            ∷ method
            ∷ " source references unknown entity "
            ∷ quote src.entity
            ∷ [])

    unfoldable pub method_errors : (service : String) → Method → List String
    unfolding each optional_fields_errors source_errors
    method_errors service m =
        optional_fields_errors ("service " ∷ service ∷ " method " ∷ m.name ∷ " input field " ∷ [])
          m.input
        ++ optional_fields_errors
            ("service " ∷ service ∷ " method " ∷ m.name ∷ " output field " ∷ []) m.output
        ++ each (source_errors service m.name) m.sources

    -- the first part: the fields of the entities
    unfoldable pub entity_errors : Entity → List String
    unfolding fields_errors
    entity_errors e = fields_errors ("entity " ∷ e.name ∷ " field " ∷ []) e.fields

    -- the second part: the methods of the services
    unfoldable pub service_errors : Service → List String
    unfolding each method_errors
    service_errors s = each (method_errors s.name) s.methods

-- `normalizeFinderFieldKey`
unfoldable pub normalize_finder_field_key : String → String
unfolding setting_text
normalize_finder_field_key s = remove_all (remove_all (setting_text s) b'_') b'-'

abbrev pub field_set : Entity → List String
field_set e = map (λ (f : Field). normalize_finder_field_key f.name) e.fields

unfoldable pub column_errors :
    (repo finder kind entity : String) → List String → String → List String
unfolding report
column_errors repo finder kind entity fields col =
    if trim_space col == ""
    then []
    else report (not (contains fields (normalize_finder_field_key col))) (
        "repository "
        ∷ repo
        ∷ " finder "
        ∷ finder
        ∷ kind
        ∷ quote col
        ∷ " does not exist on entity "
        ∷ entity
        ∷ [])

unfoldable pub finder_errors : (repo entity : String) → List String → Finder → List String
unfolding each column_errors
finder_errors repo entity fields finder =
    each (λ (w : WhereClause). column_errors repo finder.name " where field " entity fields w.field)
      finder.where_clauses
    ++ each (column_errors repo finder.name " select field " entity fields) finder.select

-- the third part: what the finders of a repository name
unfoldable pub repo_errors_in : Repository → Option Entity → List String
unfolding each finder_errors
repo_errors_in repo none =
    concat ("repository " ∷ repo.name ∷ " references unknown entity " ∷ quote repo.entity ∷ []) ∷ []
repo_errors_in repo (some e) = each (finder_errors repo.name repo.entity (field_set e)) repo.finders

abbrev pub repo_errors : List (String × Entity) → Repository → List String
repo_errors entities repo = repo_errors_in repo (lookup repo.entity entities)

unfoldable pub has_method : String → List Method → Bool
has_method rpc [] = false
has_method rpc (m ∷ methods) = m.name == rpc || has_method rpc methods

-- the fourth part: the method that an endpoint calls
unfoldable pub endpoint_errors_in : Endpoint → Option Service → List String
unfolding report has_method
endpoint_errors_in ep none =
    concat (
      "endpoint "
      ∷ ep.method
      ∷ " "
      ∷ ep.path
      ∷ " references unknown service "
      ∷ quote ep.service
      ∷ [])
    ∷ []
endpoint_errors_in ep (some s) = report (not (has_method ep.rpc s.methods)) (
    "endpoint "
    ∷ ep.method
    ∷ " "
    ∷ ep.path
    ∷ " references unknown RPC "
    ∷ quote ep.rpc
    ∷ " on service "
    ∷ ep.service
    ∷ [])

abbrev pub endpoint_errors : List (String × Service) → Endpoint → List String
endpoint_errors services ep = endpoint_errors_in ep (lookup ep.service services)

-- the errors of the first four parts, in their order
unfoldable pub reference_errors :
    (component_name import_path : String → Bool) (show_int : ℤ → String) → Schema → List String
unfolding each entity_errors service_errors
reference_errors component_name import_path show_int schema =
    let entities = index_entities [] schema.entities in
    let services = index_services [] schema.services in
    each (entity_errors component_name import_path show_int entities) schema.entities
    ++ each (service_errors component_name import_path show_int entities) schema.services
    ++ each (repo_errors entities) schema.repos
    ++ each (endpoint_errors services) schema.endpoints
