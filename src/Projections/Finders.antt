-- ===== src/Projections/Finders.antt =====
-- The loops over the finders of an entity.
use ang.Common.{
  ℕ, ◌-◌, String, Bool, true, false, not, ◌||◌, Option, none, some, List, [], ◌∷◌, ◌++◌, ◌==◌,
  contains, is_empty, lookup, length, eqb, if◌then◌else◌,
}
use ang.Common.Writes.{put}
use ang.Text.{trim_space, to_lower, equal_fold, has_prefix, trim_prefix, concat}
use ang.Text.Numbers.{decimal}
use ang.Common.Int.{ℤ}
use ang.Values.{Json}
use ang.Normalizer.{Entity, zero_entity, Field, RepositoryFinder}
use ang.Diagnostics.{Warning, zero_warning, parse_source_pos}
use ang.Projections.Tokens.{canonical_field_token, projection_name}
use ang.Projections.Fields.{Selection, projection_fields_for_select, token_of}

-- `finderReturnsEntity`
unfoldable pub finder_returns_entity : RepositoryFinder → String → Bool
finder_returns_entity f entity =
    let rt = trim_space (to_lower f.return_type) in
    if equal_fold f.returns "count" || equal_fold f.action "delete"
    then false
    else if f.return_type == ""
    then true
    else trim_prefix (trim_prefix (trim_prefix rt "[]") "*") "domain." == to_lower entity

-- `finderReturnsMany`
unfoldable pub finder_returns_many : RepositoryFinder → String → Bool
finder_returns_many f entity =
    equal_fold f.returns "many"
    || equal_fold f.returns (concat ("[]" ∷ entity ∷ []))
    || has_prefix (trim_space (to_lower f.return_type)) "[]"

-- the keys of `lookup`
unfoldable pub domain_tokens : List Field → List String
domain_tokens [] = []
domain_tokens (f ∷ fs) =
    let rest = domain_tokens fs in
    if f.skip_domain then rest else if contains rest (token_of f) then rest else token_of f ∷ rest

-- the map from keys to names of projections, and the projections that were made
pub record Synthesis : Type 0 where
  pub names : List (String × String)
  pub projections : List Entity

abbrev pub projection_of : String → Entity → String → RepositoryFinder → Selection → Entity
projection_of entity src name f s = record zero_entity {
  name = name;
  owner = src.owner;
  fields = s.fields;
  metadata = some (("projection", Json.boolean true) ∷ ("source", Json.text entity) ∷ []);
  source = f.source;
}

-- a finder that returns a projection of this name
abbrev pub with_projection : String → RepositoryFinder → Selection → String → RepositoryFinder
with_projection entity f s name = record f {
  select = s.ordered_cols;
  return_type =
      if finder_returns_many f entity
      then concat ("[]domain." ∷ name ∷ [])
      else concat ("*domain." ∷ name ∷ []);
}

-- the name of the key's projection, which may have to be made
unfoldable pub name_projection :
    String
    → Entity
    → RepositoryFinder
    → Selection
    → Option String
    → Synthesis
    → RepositoryFinder × Synthesis
name_projection entity src f s (some name) y = (with_projection entity f s name, y)
name_projection entity src f s none y =
    let name = projection_name entity s.ordered_cols in
    (
      with_projection entity f s name,
      record {
        names = put s.key name y.names;
        projections = y.projections ++ projection_of entity src name f s ∷ [];
      },
    )

-- a finder whose columns are these fields, if they are fields
unfoldable pub project_selection :
    String → Entity → RepositoryFinder → Option Selection → Synthesis → RepositoryFinder × Synthesis
project_selection entity src f none y = (f, y)
project_selection entity src f (some s) y =
    if eqb (length s.fields) (length (domain_tokens src.fields))
    then (f, y)
    else name_projection entity src f s (lookup s.key y.names) y

-- the body of the loop
abbrev pub project_finder :
    String → Entity → RepositoryFinder → Synthesis → RepositoryFinder × Synthesis
project_finder entity src f y =
    if is_empty f.select || not (finder_returns_entity f entity)
    then (f, y)
    else if not (trim_space f.return_type == "")
    then (f, y)
    else project_selection entity src f (projection_fields_for_select entity f.select src) y

unfoldable pub project_finders :
    String → Entity → List RepositoryFinder → Synthesis → List RepositoryFinder × Synthesis
project_finders entity src [] y = ([], y)
project_finders entity src (f ∷ fs) y =
    let (f', y') = project_finder entity src f y in
    let (fs', y'') = project_finders entity src fs y' in (f' ∷ fs', y'')

-- `synthesizeImplicitProjections`, given what is found under the entity's name
unfoldable pub synthesize_implicit_projections :
    String
    → List RepositoryFinder
    → Option Entity
    → List (String × String)
    → List RepositoryFinder × Synthesis
synthesize_implicit_projections entity finders none names =
    (finders, record { names = names; projections = [] })
synthesize_implicit_projections entity finders (some src) names =
    project_finders entity src finders (record { names = names; projections = [] })

-- `selected`
unfoldable pub selected_tokens : List String → List String
selected_tokens [] = []
selected_tokens (col ∷ cols) =
    let k = canonical_field_token col in
    let rest = selected_tokens cols in if k == "" then rest else k ∷ rest

unfoldable pub missing_fields : List String → List String → List String
missing_fields selected [] = []
missing_fields selected (name ∷ names) =
    let rest = missing_fields selected names in
    if contains selected (canonical_field_token name) then rest else name ∷ rest

abbrev pub partial_select :
    (String → Option ℤ) → String → RepositoryFinder → (total missing : ℕ) → Warning
partial_select atoi entity f total missing =
    let (file, line) = parse_source_pos atoi f.source in
    record zero_warning {
      kind = "architecture";
      code = "ENTITY_PARTIAL_SELECT_ERROR";
      severity = "error";
      message = concat (
          "Finder '"
          ∷ entity
          ∷ "."
          ∷ f.name
          ∷ "' returns domain."
          ∷ entity
          ∷ " but select has "
          ∷ decimal (total - missing)
          ∷ "/"
          ∷ decimal total
          ∷ " fields; partial entity select is forbidden"
          ∷ []);
      file = file;
      line = line;
      hint =
          "Use full select for entity return, or set return_type to a projection DTO/custom type";
    }

-- the body of the loop, given the names of the entity's fields
abbrev pub finder_warnings :
    (String → Option ℤ) → String → List String → RepositoryFinder → List Warning
finder_warnings atoi entity fields f =
    let missing = missing_fields (selected_tokens f.select) fields in
    if is_empty f.select
    then []
    else if not (finder_returns_entity f entity)
    then []
    else if is_empty missing
    then []
    else partial_select atoi entity f (length fields) (length missing) ∷ []

unfoldable pub finders_warnings :
    (String → Option ℤ) → String → List String → List RepositoryFinder → List Warning
finders_warnings atoi entity fields [] = []
finders_warnings atoi entity fields (f ∷ fs) =
    finder_warnings atoi entity fields f ++ finders_warnings atoi entity fields fs

-- `emitSelectProjectionDiagnostics`, given what is found under the entity's name: what it records
unfoldable pub emit_select_projection_diagnostics :
    (String → Option ℤ) → String → List RepositoryFinder → Option (List String) → List Warning
emit_select_projection_diagnostics atoi entity finders none = []
emit_select_projection_diagnostics atoi entity finders (some fields) =
    if is_empty fields then [] else finders_warnings atoi entity fields finders
