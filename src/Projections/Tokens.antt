-- ===== src/Projections/Tokens.antt =====
-- The names of columns and fields, as they are compared and as they are written.
use Prim.Native.Char.{code, Char}
use ang.Common.{
  ℕ, String, Bool, ◌&&◌, ◌||◌, Option, none, some, List, [], ◌∷◌, ◌≡◌, refl, ◌==◌, eqb, leb,
  is_empty, if◌then◌else◌,
}
use ang.Text.{trim_space, to_lower, remove_all, concat, join}
use ang.Diagnostics.{cut_last}

-- the characters "`" and "\""
abbrev is_quote : ℕ → Bool
is_quote c = eqb c 96 || eqb c 34

trim_quotes_left : String → String
trim_quotes_left String.[] = ""
trim_quotes_left (String.◌∷◌ c s) = if is_quote (code c) then trim_quotes_left s else String.◌∷◌ c s

-- one round of trimming from the right, given the rest trimmed
unless_last_quote : Char → String → String
unless_last_quote c String.[] = if is_quote (code c) then "" else String.◌∷◌ c ""
unless_last_quote c (String.◌∷◌ d s) = String.◌∷◌ c (String.◌∷◌ d s)

trim_quotes_right : String → String
unfolding unless_last_quote
trim_quotes_right String.[] = ""
trim_quotes_right (String.◌∷◌ c s) = unless_last_quote c (trim_quotes_right s)

-- "strings.Trim" of quotes
unfoldable pub trim_quotes : String → String
unfolding trim_quotes_left trim_quotes_right
trim_quotes s = trim_quotes_right (trim_quotes_left s)

-- "strings.SplitN(s, sep, 2)[0]" for a separator of one character, given by its code
unfoldable pub before_first : String → ℕ → String
before_first String.[] sep = ""
before_first (String.◌∷◌ c s) sep =
    let rest = before_first s sep in if eqb (code c) sep then "" else String.◌∷◌ c rest

unfoldable pub behind_cut : String → Option (String × String) → String
behind_cut s none = s
behind_cut s (some (before, behind)) = behind

-- `canonicalFieldToken`
unfoldable pub canonical_field_token : String → String
unfolding trim_quotes before_first behind_cut
canonical_field_token v =
    let s = trim_space v in
    let t = before_first (trim_quotes s) 32 in
    if s == "" then "" else remove_all (to_lower (behind_cut t (cut_last t b'.'))) b'_'

abbrev is_upper : ℕ → Bool
is_upper c = leb b'A' c && leb c b'Z'

-- the letters behind the first one
snake_from : String → String
snake_from String.[] = ""
snake_from (String.◌∷◌ c s) =
    let rest = snake_from s in
    if is_upper (code c)
    then concat ("_" ∷ to_lower (String.◌∷◌ c "") ∷ rest ∷ [])
    else String.◌∷◌ c rest

-- `ToSnakeCase`
unfoldable pub to_snake_case : String → String
unfolding snake_from
to_snake_case String.[] = ""
to_snake_case (String.◌∷◌ c s) = concat (to_lower (String.◌∷◌ c "") ∷ snake_from s ∷ [])

unfoldable pub name_parts : List String → List String
name_parts [] = []
name_parts (c ∷ cols) =
    let s = trim_space c in
    let rest = name_parts cols in if s == "" then rest else to_lower (to_snake_case s) ∷ rest

-- `projectionName`
unfoldable pub projection_name : String → List String → String
unfolding name_parts to_snake_case
projection_name entity sorted_cols =
    let parts = name_parts sorted_cols in
    if is_empty parts
    then concat (entity ∷ "_Proj" ∷ [])
    else concat (entity ∷ "_" ∷ join parts "_" ∷ "_Proj" ∷ [])

cleans : canonical_field_token " `posts`.Created_At DESC" ≡ "createdat"
unfolding canonical_field_token trim_quotes before_first behind_cut cut_last trim_space to_lower
    remove_all ang.Diagnostics.longer ang.Diagnostics.cut_here concat
cleans = refl

joins : projection_name "Post" ("createdAt" ∷ " " ∷ "title" ∷ []) ≡ "Post_created_at_title_Proj"
unfolding projection_name to_snake_case trim_space to_lower concat join
joins = refl
