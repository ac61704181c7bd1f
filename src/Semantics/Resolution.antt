-- ===== src/Semantics/Resolution.antt =====
-- The schemas that the first four parts of ValidateIRSemantics accept.
use ang.Common.{
  String, Bool, true, Option, none, some, List, [], ◌∷◌, ◌++◌, ◌≡◌, ◌↔◌, ◌⊎◌, refl, arith, ◌==◌,
  contains, lookup, All,
}
use ang.Common.Int.{ℤ}
use ang.Text.{concat, trim_space}
use ang.Ir.{
  Field, Entity, Source, Method, Service, Endpoint, WhereClause, Finder, Repository, Schema,
}
use ang.Cycles.{is_some, index_services}
use ang.Semantics.{
  report, index_entities, fields_errors, optional_fields_errors, source_errors, method_errors,
  entity_errors, service_errors, normalize_finder_field_key, field_set, column_errors,
  finder_errors, repo_errors_in, has_method, endpoint_errors_in, reference_errors,
}
use ang.Semantics.Checks.{each-nil_iff, append-nil_of}
use ang.Semantics.Types.{IsType, type_errors_sound, type_errors_complete}
use ang.Semantics.Interface.{IsPresentable, ui_errors-nil_iff}

-- the text names nothing, or a thing that there is
abbrev pub IsBlankOr : String → Bool → Type 0
IsBlankOr s there = ((trim_space s == "") ≡ true) ⊎ (there ≡ true)

-- A column of a finder is a field of the entity, up to letter case and the marks between words.
abbrev pub IsColumn : Entity → String → Type 0
IsColumn e col = IsBlankOr col (contains (field_set e) (normalize_finder_field_key col))

abbrev pub IsFinder : Entity → Finder → Type 0
IsFinder e f =
    All (λ (w : WhereClause). IsColumn e w.field) f.where_clauses × All (IsColumn e) f.select

abbrev pub IsRepository : Option Entity → Repository → Type 0
IsRepository none repo = ⊥
IsRepository (some e) repo = All (IsFinder e) repo.finders

abbrev pub IsEndpoint : Option Service → Endpoint → Type 0
IsEndpoint none ep = ⊥
IsEndpoint (some s) ep = has_method ep.rpc s.methods ≡ true

column_errors-nil_iff :
    (repo finder kind entity : String) (e : Entity) (col : String)
    → (column_errors repo finder kind entity (field_set e) col ≡ []) ↔ IsColumn e col
unfolding column_errors report
column_errors-nil_iff repo finder kind entity e col = ground arith

finder_errors-nil_iff :
    (repo entity : String) (e : Entity) (f : Finder)
    → (finder_errors repo entity (field_set e) f ≡ []) ↔ IsFinder e f
unfolding finder_errors
finder_errors-nil_iff repo entity e f =
    append-nil_of
      (each-nil_iff (λ (w : WhereClause). IsColumn e w.field) _
        (λ w. column_errors-nil_iff repo f.name " where field " entity e w.field) f.where_clauses)
      (each-nil_iff (IsColumn e) _ (column_errors-nil_iff repo f.name " select field " entity e)
        f.select)

repo_errors-nil_iff :
    (repo : Repository) (o : Option Entity) → (repo_errors_in repo o ≡ []) ↔ IsRepository o repo
unfolding repo_errors_in
repo_errors-nil_iff repo none = (λ e. cc e, λ h. absurd h)
repo_errors-nil_iff repo (some e) =
    each-nil_iff (IsFinder e) _ (finder_errors-nil_iff repo.name repo.entity e) repo.finders

endpoint_errors-nil_iff :
    (ep : Endpoint) (o : Option Service) → (endpoint_errors_in ep o ≡ []) ↔ IsEndpoint o ep
unfolding endpoint_errors_in report
endpoint_errors-nil_iff ep none = (λ e. cc e, λ h. absurd h)
endpoint_errors-nil_iff ep (some s) = ground arith

module _ (component_name import_path : String → Bool) (show_int : ℤ → String) where
  module _ (entities : List (String × Entity)) where
    -- A field has a type that resolves and settings that can be shown.
    abbrev pub IsField : Field → Type 0
    IsField f = IsType entities f.type × IsPresentable component_name import_path show_int f

    abbrev pub IsMessage : Option Entity → Type 0
    IsMessage none = Unit
    IsMessage (some e) = All IsField e.fields

    abbrev pub IsSource : Source → Type 0
    IsSource src = IsBlankOr src.entity (is_some (lookup src.entity entities))

    abbrev pub IsMethod : Method → Type 0
    IsMethod m = (IsMessage m.input × IsMessage m.output) × All IsSource m.sources

    fields_errors-nil_iff :
        (owner : List String) (fields : List Field)
        → (fields_errors component_name import_path show_int entities owner fields ≡ [])
          ↔ All IsField fields
    unfolding fields_errors
    fields_errors-nil_iff owner fields =
        each-nil_iff IsField _
          (λ f.
            let place = concat (owner ++ f.name ∷ []) in
            append-nil_of
              (type_errors_sound entities place f.type, type_errors_complete entities place f.type)
              (ui_errors-nil_iff component_name import_path show_int place f))
          fields

    optional_fields_errors-nil_iff :
        (owner : List String) (o : Option Entity)
        → (optional_fields_errors component_name import_path show_int entities owner o ≡ [])
          ↔ IsMessage o
    unfolding optional_fields_errors
    optional_fields_errors-nil_iff owner none = (λ _. tt, λ _. refl)
    optional_fields_errors-nil_iff owner (some e) = fields_errors-nil_iff owner e.fields

    source_errors-nil_iff :
        (service method : String) (src : Source)
        → (source_errors component_name import_path show_int entities service method src ≡ [])
          ↔ IsSource src
    unfolding source_errors report
    source_errors-nil_iff service method src = ground arith

    method_errors-nil_iff :
        (service : String) (m : Method)
        → (method_errors component_name import_path show_int entities service m ≡ []) ↔ IsMethod m
    unfolding method_errors
    method_errors-nil_iff service m =
        append-nil_of
          (append-nil_of
            (optional_fields_errors-nil_iff
              ("service " ∷ service ∷ " method " ∷ m.name ∷ " input field " ∷ []) m.input)
            (optional_fields_errors-nil_iff
              ("service " ∷ service ∷ " method " ∷ m.name ∷ " output field " ∷ []) m.output))
          (each-nil_iff IsSource _ (source_errors-nil_iff service m.name) m.sources)

    entity_errors-nil_iff :
        (e : Entity)
        → (entity_errors component_name import_path show_int entities e ≡ []) ↔ All IsField e.fields
    unfolding entity_errors
    entity_errors-nil_iff e = fields_errors-nil_iff ("entity " ∷ e.name ∷ " field " ∷ []) e.fields

    service_errors-nil_iff :
        (s : Service)
        → (service_errors component_name import_path show_int entities s ≡ [])
          ↔ All IsMethod s.methods
    unfolding service_errors
    service_errors-nil_iff s = each-nil_iff IsMethod _ (method_errors-nil_iff s.name) s.methods

  -- Every reference in the schema resolves.
  abbrev pub IsResolved : Schema → Type 0
  IsResolved schema =
      let entities = index_entities [] schema.entities in
      let services = index_services [] schema.services in
      ((All (λ (e : Entity). All (IsField entities) e.fields) schema.entities
          × All (λ (s : Service). All (IsMethod entities) s.methods) schema.services)
        × All (λ (r : Repository). IsRepository (lookup r.entity entities) r) schema.repos)
      × All (λ (ep : Endpoint). IsEndpoint (lookup ep.service services) ep) schema.endpoints

  pub reference_errors-nil_iff :
      (schema : Schema)
      → (reference_errors component_name import_path show_int schema ≡ []) ↔ IsResolved schema
  unfolding reference_errors
  reference_errors-nil_iff schema =
      let entities = index_entities [] schema.entities in
      let services = index_services [] schema.services in
      append-nil_of
        (append-nil_of
          (append-nil_of
            (each-nil_iff (λ (e : Entity). All (IsField entities) e.fields) _
              (entity_errors-nil_iff entities) schema.entities)
            (each-nil_iff (λ (s : Service). All (IsMethod entities) s.methods) _
              (service_errors-nil_iff entities) schema.services))
          (each-nil_iff (λ (r : Repository). IsRepository (lookup r.entity entities) r) _
            (λ r. repo_errors-nil_iff r (lookup r.entity entities)) schema.repos))
        (each-nil_iff (λ (ep : Endpoint). IsEndpoint (lookup ep.service services) ep) _
          (λ ep. endpoint_errors-nil_iff ep (lookup ep.service services)) schema.endpoints)
