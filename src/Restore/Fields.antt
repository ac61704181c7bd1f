-- ===== src/Restore/Fields.antt =====
-- The way back for a field and its type.
use Prim.Native.String.{String, ◌++◌}
use ang.Common.{
  zero, Bool, true, false, not, ◌||◌, Option, none, some, List, [], ◌∷◌, ◌==◌, map, lookup,
  if◌then◌else◌,
}
use ang.Common.Int.{ℤ, pos}
use ang.Values.{Json, Metadata}
use ang.Normalizer
use ang.Normalizer.{zero_db_meta, zero_file_meta}
use ang.Ir
use ang.Ir.{TypeRef, type_ref, TypePointer}

-- what a kind other than those of lists and maps is written as in Go, for a type of that name
unfoldable pub plain_go_type : String → String → String
plain_go_type kind name =
    if kind == "string"
    then "string"
    else if kind == "int"
    then "int"
    else if kind == "int64"
    then "int64"
    else if kind == "float"
    then "float64"
    else if kind == "bool"
    then "bool"
    else if kind == "time"
    then "time.Time"
    else if kind == "uuid"
    then "string"
    else if kind == "json"
    then "json.RawMessage"
    else if kind == "any"
    then "any"
    else if kind == "entity"
    then (if name == "" then "any" else "domain." ++ name)
    else if kind == "enum" || kind == "file"
    then "string"
    else "any"

-- `IRTypeRefToGoType`
unfoldable mutual
  pub go_type : TypeRef → String
  go_type (type_ref kind name item key) =
      let item_type = go_type_or "any" item in
      let key_type = go_type_or "string" key in
      if kind == "list"
      then "[]" ++ item_type
      else if kind == "map"
      then "map[" ++ (key_type ++ ("]" ++ item_type))
      else plain_go_type kind name

  -- the same for a pointer, with what is taken if it is nil
  pub go_type_or : String → TypePointer → String
  go_type_or default TypePointer.nil = default
  go_type_or default (TypePointer.to t) = go_type t

-- ItemTypeName, read off the item type of a list
unfoldable pub restore_item_type_name : TypeRef → String
restore_item_type_name (type_ref kind name TypePointer.nil key) = ""
restore_item_type_name (type_ref kind name (TypePointer.to (type_ref k item_name i j)) key) =
    if kind == "list" then item_name else ""

unfoldable pub is_list_type : TypeRef → Bool
is_list_type (type_ref kind name item key) = kind == "list"

unfoldable pub restore_constraints : Option Ir.Constraints → Option Normalizer.Constraints
restore_constraints none = none
restore_constraints (some c) = some record {
  min = c.min;
  max = c.max;
  min_len = c.min_len;
  max_len = c.max_len;
  regex = c.regex;
  enum = c.enum;
}

is_zero : ℤ → Bool
is_zero (pos zero) = true
is_zero n = false

-- the condition under which a field gets hints for the user interface
unfoldable pub has_ui : Ir.FieldUi → Bool
unfolding is_zero
has_ui u =
    not (u.type == "")
    || not (u.label == "")
    || not (is_zero u.order)
    || not (u.component == "")
    || not (u.section == "")
    || not (is_zero u.columns)
    || not (u.importance == "")
    || not (u.input_kind == "")
    || not (u.intent == "")
    || not (u.density == "")
    || not (u.label_mode == "")
    || not (u.surface == "")

abbrev pub ui_hints : Ir.FieldUi → Normalizer.UiHints
ui_hints u = record {
  type = u.type;
  importance = u.importance;
  input_kind = u.input_kind;
  intent = u.intent;
  density = u.density;
  label_mode = u.label_mode;
  surface = u.surface;
  component = u.component;
  section = u.section;
  columns = u.columns;
  label = u.label;
  placeholder = u.placeholder;
  helper_text = u.helper_text;
  order = u.order;
  hidden = u.hidden;
  disabled = u.disabled;
  full_width = u.full_width;
  rows = u.rows;
  min = u.min;
  max = u.max;
  step = u.step;
  currency = u.currency;
  source = u.source;
  options = u.options;
  multiple = u.multiple;
  accept = u.accept;
  max_size = u.max_size;
}

unfoldable pub restore_ui : Ir.FieldUi → Option Normalizer.UiHints
restore_ui u = if has_ui u then some (ui_hints u) else none

-- a Default that is no text is not carried over
unfoldable pub restore_default : Json → String
restore_default (Json.text value) = value
restore_default value = ""

unfoldable pub text_of : Option Json → String
text_of (some (Json.text s)) = s
text_of v = ""

unfoldable pub boolean_of : Option Json → Bool
boolean_of (some (Json.boolean b)) = b
boolean_of v = false

-- `getStringArg`
abbrev pub get_string_arg : List (String × Json) → String → String
get_string_arg args key = text_of (lookup key args)

-- `getBoolArg`
abbrev pub get_bool_arg : List (String × Json) → String → Bool
get_bool_arg args key = boolean_of (lookup key args)

-- the key that a loop over a map which breaks in its first round has seen
unfoldable pub first_key : List (String × Json) → String → String
first_key [] s = s
first_key ((k, v) ∷ args) s = k

-- What the attributes and the metadata may change.
pub record Extracted : Type 0 where
  pub db : Normalizer.DbMeta
  pub validate_tag : String
  pub env_var : String
  pub file_meta : Option Normalizer.FileMeta

-- one round of the loop over the attributes
unfoldable pub extract : Ir.Attribute → Extracted → Extracted
extract attr x =
    if attr.name == "db"
    then record x {
      db = record {
        type = get_string_arg attr.args "type";
        primary_key = get_bool_arg attr.args "primary_key";
        unique = get_bool_arg attr.args "unique";
        index = get_bool_arg attr.args "index";
      };
    }
    else if attr.name == "validate"
    then record x { validate_tag = get_string_arg attr.args "rule" }
    else if attr.name == "env"
    then record x { env_var = first_key attr.args x.env_var }
    else if attr.name == "image"
    then record x { file_meta = some record { kind = "image"; thumbnail = true } }
    else if attr.name == "file"
    then record x {
      file_meta = some record {
        kind = get_string_arg attr.args "kind";
        thumbnail = get_bool_arg attr.args "thumbnail";
      };
    }
    else x

unfoldable pub extract_all : List Ir.Attribute → Extracted → Extracted
extract_all [] x = x
extract_all (attr ∷ attrs) x = extract_all attrs (extract attr x)

-- what a metadata entry, if there is one, does to the field; an entry of another type does nothing
unfoldable pub see_validate_tag : Option Json → Extracted → Extracted
see_validate_tag (some (Json.text v)) x =
    if x.validate_tag == "" then record x { validate_tag = v } else x
see_validate_tag v x = x

unfoldable pub see_sql_type : Option Json → Extracted → Extracted
see_sql_type (some (Json.text v)) x =
    if x.db.type == "" then record x { db = record x.db { type = v } } else x
see_sql_type v x = x

unfoldable pub see_primary_key : Option Json → Extracted → Extracted
see_primary_key (some (Json.boolean true)) x = record x { db = record x.db { primary_key = true } }
see_primary_key v x = x

unfoldable pub file_meta_or_new : Option Normalizer.FileMeta → Normalizer.FileMeta
file_meta_or_new none = zero_file_meta
file_meta_or_new (some file) = file

unfoldable pub see_file_kind : Option Json → Extracted → Extracted
see_file_kind (some (Json.text v)) x = record x {
  file_meta = some (record (file_meta_or_new x.file_meta) { kind = v });
}
see_file_kind v x = x

unfoldable pub see_generate_thumbnail : Option Json → Extracted → Extracted
see_generate_thumbnail (some (Json.boolean v)) x = record x {
  file_meta = some (record (file_meta_or_new x.file_meta) { thumbnail = v });
}
see_generate_thumbnail v x = x

unfoldable pub see_metadata : Metadata → Extracted → Extracted
see_metadata none x = x
see_metadata (some m) x = see_generate_thumbnail (lookup "generate_thumbnail" m) (
    see_file_kind (lookup "file_kind" m) (
      see_primary_key (lookup "primary_key" m)
        (see_sql_type (lookup "sql_type" m) (see_validate_tag (lookup "validate_tag" m) x))))

-- what the attributes and the metadata leave
unfoldable pub extracted : Ir.Field → Extracted
extracted f = see_metadata f.metadata (
    extract_all f.attributes record {
      db = zero_db_meta;
      validate_tag = f.validate_tag;
      env_var = f.env_var;
      file_meta = none;
    })

-- `IRFieldToNormalizer`
unfoldable pub restore_field : Ir.Field → Normalizer.Field
restore_field f = record {
  name = f.name;
  type = go_type f.type;
  default = restore_default f.default;
  is_optional = f.optional;
  is_list = is_list_type f.type;
  file_meta = (extracted f).file_meta;
  db = (extracted f).db;
  validate_tag = (extracted f).validate_tag;
  constraints = restore_constraints f.constraints;
  env_var = (extracted f).env_var;
  is_secret = f.is_secret;
  is_pii = f.is_pii;
  skip_domain = f.skip_domain;
  item_type_name = restore_item_type_name f.type;
  metadata = f.metadata;
  ui = restore_ui f.ui;
  source = f.source;
}

-- `IRFieldsToNormalizer`
abbrev pub restore_fields : List Ir.Field → List Normalizer.Field
restore_fields fields = map restore_field fields
