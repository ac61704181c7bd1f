-- ===== src/Projections/Examples.antt =====
-- The projections for the finders of an entity of three fields.
use ang.Common.{
  ◌≡◌, ◌⊎◌, refl, String, true, Option, none, some, List, [], ◌∷◌, map, contains, lookup,
}
use ang.Common.Int.{ℤ}
use ang.Normalizer.{Entity, zero_entity, zero_field, RepositoryFinder, zero_repository_finder}
use ang.Diagnostics.{Warning}
use ang.Text.{equal_fold, trim_space, to_lower, has_prefix, remove_all, concat, join}
use ang.Text.Numbers.{decimal}
use ang.Diagnostics.{cut_last, longer, cut_here}
use ang.Projections.Tokens.{
  canonical_field_token, trim_quotes, before_first, behind_cut, projection_name, name_parts,
  to_snake_case,
}
use ang.Projections.Fields.{
  Selection, projection_fields_for_select, selection_of, add_keys, take_fields, delete,
}
use ang.Projections.Finders.{
  synthesize_implicit_projections, project_finders, project_selection, name_projection,
  domain_tokens, finder_returns_entity, finder_returns_many, emit_select_projection_diagnostics,
  finders_warnings, missing_fields, selected_tokens,
}
use ang.Projections.Reruns.{synthesize_idempotent}
use ang.Projections.Selection.{Selects, IsSelection, projection_fields_for_select-decides}

abbrev post : Entity
post = record zero_entity {
  name = "Post";
  fields =
      record zero_field { name = "id" }
      ∷ record zero_field { name = "created_at" }
      ∷ record zero_field { name = "body"; skip_domain = true }
      ∷ record zero_field { name = "title" }
      ∷ [];
}

abbrev columns : List String
columns = "posts.Title" ∷ "createdAt" ∷ "title" ∷ []

abbrev finder : RepositoryFinder
finder = record zero_repository_finder { name = "Recent"; returns = "many"; select = columns }

abbrev atoi : String → Option ℤ
atoi s = none

-- The finder gets the columns in the order of the entity's fields, and returns the projection.
projects :
    map {B = List String × String}
      (λ (f : RepositoryFinder). (f.select, f.return_type))
      (synthesize_implicit_projections "Post" (finder ∷ []) (some post) []).0
    ≡ ("created_at" ∷ "title" ∷ [], "[]domain.Post_created_at_title_Proj") ∷ []
unfolding synthesize_implicit_projections project_finders project_selection name_projection
    domain_tokens projection_fields_for_select selection_of add_keys take_fields delete
    finder_returns_entity finder_returns_many canonical_field_token trim_quotes before_first
    behind_cut projection_name name_parts to_snake_case cut_last longer cut_here equal_fold
    trim_space to_lower has_prefix remove_all concat join contains lookup
projects = refl

-- A select of all fields of the domain gets no projection, and the diagnostics refuse it: they count
-- the field that is not in the domain.
refuses :
    map
      (λ (w : Warning). w.message)
      (emit_select_projection_diagnostics atoi "Post"
        (synthesize_implicit_projections "Post"
          (record finder { select = "id" ∷ "created_at" ∷ "title" ∷ [] } ∷ [])
          (some post)
          []).0
        (some ("id" ∷ "created_at" ∷ "body" ∷ "title" ∷ [])))
    ≡ "Finder 'Post.Recent' returns domain.Post but select has 3/4 fields; partial entity select is forbidden"
      ∷ []
unfolding synthesize_implicit_projections project_finders project_selection name_projection
    domain_tokens projection_fields_for_select selection_of add_keys take_fields delete
    finder_returns_entity finder_returns_many canonical_field_token trim_quotes before_first
    behind_cut cut_last longer cut_here equal_fold trim_space to_lower has_prefix remove_all concat
    join contains lookup emit_select_projection_diagnostics finders_warnings missing_fields
    selected_tokens decimal
refuses = refl

projection_fields_for_select-decides_example :
    (Selects post.fields columns
      × ((s : Selection) × (projection_fields_for_select "Post" columns post ≡ some s)
          × IsSelection post columns s))
    ⊎ ((Selects post.fields columns → ⊥)
        × (projection_fields_for_select "Post" columns post ≡ none))
projection_fields_for_select-decides_example =
    projection_fields_for_select-decides "Post" columns post

synthesize_idempotent_example :
    let done = (synthesize_implicit_projections "Post" (finder ∷ []) (some post) []).0 in
    synthesize_implicit_projections "Post" done (some post) []
    ≡ (done, record { names = []; projections = [] })
synthesize_idempotent_example = synthesize_idempotent "Post" (finder ∷ []) (some post) [] []
