-- ===== src/Projections/Fields.antt =====
-- The fields that a select names.
use ang.Common.{
  String, not, ◌&&◌, Option, none, some, List, [], ◌∷◌, ◌++◌, map, ◌==◌, contains, is_empty,
  if◌then◌else◌,
}
use Prim.Native.String.{compare}
use text.Mathlib.Text.{is_le}
use ang.Common.Sorting.{sort}
use ang.Text.{concat, join}
use ang.Normalizer.{Entity, Field}
use ang.Projections.Tokens.{canonical_field_token}

-- `keys` behind the loop over the columns, from these on
unfoldable pub add_keys : List String → List String → List String
add_keys keys [] = keys
add_keys keys (col ∷ cols) =
    let k = canonical_field_token col in
    add_keys (if k == "" then keys else if contains keys k then keys else keys ++ k ∷ []) cols

-- `delete(seen, k)`
unfoldable pub delete : String → List String → List String
delete k [] = []
delete k (j ∷ seen) = if j == k then seen else j ∷ delete k seen

abbrev pub token_of : Field → String
token_of f = canonical_field_token f.name

-- the loop over the fields: those that are taken, and what is left in `seen`
unfoldable pub take_fields : List String → List Field → List Field × List String
take_fields seen [] = ([], seen)
take_fields seen (f ∷ fs) =
    let here = not f.skip_domain && contains seen (token_of f) in
    let (taken, rest) = take_fields (if here then delete (token_of f) seen else seen) fs in
    (if here then f ∷ taken else taken, rest)

pub record Selection : Type 0 where
  pub fields : List Field
  pub ordered_cols : List String
  pub key : String

-- what is returned behind the loops, given the keys
unfoldable pub selection_of : String → List String → List Field × List String → Option Selection
selection_of entity keys (fields, left) =
    if not (is_empty left)
    then none
    else some record {
      fields = fields;
      ordered_cols = map (λ (f : Field). f.name) fields;
      key = concat (entity ∷ "|" ∷ join (sort (λ s t. is_le (compare s t)) keys) "," ∷ []);
    }

-- `projectionFieldsForSelect`
unfoldable pub projection_fields_for_select : String → List String → Entity → Option Selection
unfolding selection_of
projection_fields_for_select entity select_cols src =
    let keys = add_keys [] select_cols in
    if is_empty keys then none else selection_of entity keys (take_fields keys src.fields)
