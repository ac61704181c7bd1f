-- ===== src/Convert/Fields.antt =====
-- The conversion of a field and of its type.
use Prim.Native.String.{String}
use ang.Common.{
  Bool, true, not, ◌&&◌, ◌||◌, Option, none, some, List, [], ◌∷◌, ◌++◌, ◌==◌, map, if◌then◌else◌,
}
use ang.Text.{trim_space, has_prefix, trim_prefix}
use ang.Values.{Json}
use ang.Normalizer
use ang.Ir
use ang.Ir.{TypeRef, type_ref, TypePointer, zero_field_ui}

-- `len(s) > len(prefix) && s[:len(prefix)] == prefix`
unfoldable pub has_proper_prefix : String → String → Bool
has_proper_prefix s prefix = has_prefix s prefix && not (s == prefix)

-- `inferKind`
unfoldable pub infer_kind : String → String
infer_kind go_type =
    if go_type == "string"
    then "string"
    else if go_type == "int"
    then "int"
    else if go_type == "int64"
    then "int64"
    else if go_type == "float64"
    then "float"
    else if go_type == "bool"
    then "bool"
    else if go_type == "time.Time"
    then "time"
    else if go_type == "json.RawMessage"
    then "json"
    else if go_type == "any" || go_type == "interface{}"
    then "any"
    else if has_proper_prefix go_type "domain."
    then "entity"
    else if has_proper_prefix go_type "[]domain."
    then "list"
    else "any"

-- `cleanTypeName`
unfoldable pub clean_type_name : String → String
clean_type_name go_type =
    if has_proper_prefix go_type "domain."
    then trim_prefix go_type "domain."
    else if has_proper_prefix go_type "[]domain."
    then trim_prefix go_type "[]domain."
    else go_type

-- the type of the elements of a list, as `inferTypeRef` cuts it off
unfoldable pub item_type_of : String → String
item_type_of go_type = if has_proper_prefix go_type "[]" then trim_prefix go_type "[]" else go_type

-- the name of the item type of a list, for which the field may have one of its own
abbrev pub item_name : String → String → String
item_name own item_type = if own == "" then clean_type_name item_type else own

abbrev pub plain_type : String → String → TypeRef
plain_type kind name = type_ref kind name TypePointer.nil TypePointer.nil

abbrev pub list_type : TypeRef → TypeRef
list_type item = type_ref "list" "" (TypePointer.to item) TypePointer.nil

-- the type of a list, from the text of its item type
abbrev pub list_of : String → String → TypeRef
list_of own item_type = list_type (plain_type (infer_kind item_type) (item_name own item_type))

-- the type of anything else
abbrev pub single : String → TypeRef
single go_type =
    plain_type (infer_kind go_type)
      (if infer_kind go_type == "entity" then clean_type_name go_type else "")

-- `inferTypeRef`, given the type's text, IsList and ItemTypeName
unfoldable pub infer_type : String → Bool → String → TypeRef
infer_type type is_list item_type_name =
    let go_type = trim_space type in
    if is_list || has_prefix go_type "[]"
    then list_of item_type_name (item_type_of go_type)
    else single go_type

abbrev pub infer_type_ref : Normalizer.Field → TypeRef
infer_type_ref f = infer_type f.type f.is_list f.item_type_name

-- `convertConstraints`
unfoldable pub convert_constraints : Option Normalizer.Constraints → Option Ir.Constraints
convert_constraints none = none
convert_constraints (some c) = some record {
  min = c.min;
  max = c.max;
  min_len = c.min_len;
  max_len = c.max_len;
  regex = c.regex;
  enum = c.enum;
}

unfoldable pub convert_ui : Option Normalizer.UiHints → Ir.FieldUi
convert_ui none = zero_field_ui
convert_ui (some u) = record {
  type = u.type;
  importance = u.importance;
  input_kind = u.input_kind;
  intent = u.intent;
  density = u.density;
  label_mode = u.label_mode;
  surface = u.surface;
  component = u.component;
  section = u.section;
  columns = u.columns;
  label = u.label;
  placeholder = u.placeholder;
  helper_text = u.helper_text;
  order = u.order;
  hidden = u.hidden;
  disabled = u.disabled;
  full_width = u.full_width;
  rows = u.rows;
  min = u.min;
  max = u.max;
  step = u.step;
  currency = u.currency;
  source = u.source;
  options = u.options;
  multiple = u.multiple;
  accept = u.accept;
  max_size = u.max_size;
}

abbrev pub has_db : Normalizer.DbMeta → Bool
has_db db = not (db.type == "") || db.primary_key || db.unique || db.index

unfoldable pub db_attributes : Normalizer.DbMeta → List Ir.Attribute
db_attributes db =
    if has_db db
    then record {
      name = "db";
      args =
          ("type", Json.text db.type)
          ∷ ("primary_key", Json.boolean db.primary_key)
          ∷ ("unique", Json.boolean db.unique)
          ∷ ("index", Json.boolean db.index)
          ∷ [];
    }
      ∷ []
    else []

unfoldable pub validate_attributes : String → List Ir.Attribute
validate_attributes tag =
    if tag == "" then [] else record { name = "validate"; args = ("rule", Json.text tag) ∷ [] } ∷ []

unfoldable pub env_attributes : String → List Ir.Attribute
env_attributes var =
    if var == "" then [] else record { name = "env"; args = (var, Json.boolean true) ∷ [] } ∷ []

unfoldable pub file_attributes : Option Normalizer.FileMeta → List Ir.Attribute
file_attributes none = []
file_attributes (some file) =
    record {
      name = if file.kind == "image" then "image" else "file";
      args = ("kind", Json.text file.kind) ∷ ("thumbnail", Json.boolean file.thumbnail) ∷ [];
    }
    ∷ []

abbrev pub attributes_of : Normalizer.Field → List Ir.Attribute
attributes_of f =
    db_attributes f.db
    ++ (validate_attributes f.validate_tag
        ++ (env_attributes f.env_var ++ file_attributes f.file_meta))

unfoldable pub convert_default : String → Json
convert_default value = if value == "" then Json.null else Json.text value

-- `ConvertField`
unfoldable pub convert_field : Normalizer.Field → Ir.Field
convert_field f = record {
  name = f.name;
  type = infer_type_ref f;
  optional = f.is_optional;
  default = convert_default f.default;
  is_secret = f.is_secret;
  is_pii = f.is_pii;
  skip_domain = f.skip_domain;
  validate_tag = f.validate_tag;
  constraints = convert_constraints f.constraints;
  env_var = f.env_var;
  attributes = attributes_of f;
  ui = convert_ui f.ui;
  metadata = f.metadata;
  source = f.source;
}

-- `ConvertFields`
abbrev pub convert_fields : List Normalizer.Field → List Ir.Field
convert_fields fields = map convert_field fields
