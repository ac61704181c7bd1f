-- ===== src/Transformers/Entities.antt =====
-- The transformers of entities, in compiler/transformers/transformer.go.
use mathlib.Core.List.{flat_map}
use ang.Common.{
  String, Bool, true, false, not, ◌&&◌, ◌||◌, none, some, List, [], ◌∷◌, ◌++◌, map, lookup, ◌==◌,
  if◌then◌else◌,
}
use ang.Text.{concat}
use ang.Text.Search.{contains_text}
use ang.Values.{Json, Metadata, write, string_of}
use ang.Ir.{Schema, Entity, Field, zero_field, Attribute, type_ref, TypePointer, TypeRef}
use ang.Transformers.Loops.{for_attributes, has_key}

abbrev pub simple_type : String → TypeRef
simple_type kind = type_ref kind "" TypePointer.nil TypePointer.nil

-- ImageTransformer

abbrev pub thumb_field : String → Field → Field
thumb_field suffix f = record zero_field {
  name = concat (f.name ∷ suffix ∷ []);
  type = simple_type "string";
  optional = true;
  metadata =
      some
        (("generated_by", Json.text "image_transformer") ∷ ("source_field", Json.text f.name) ∷ []);
}

abbrev pub mark_image : String → Attribute → Metadata → Metadata
mark_image thumb a m =
    write "thumbnail_field" (Json.text thumb) (write "has_thumbnail" (Json.boolean true) m)

-- The field is appended before its metadata are written. It shares them with the loop's copy if there
-- are any, and has none of what is written to a map that the loop makes.
unfoldable pub image_metadata : String → List Attribute → Metadata → Metadata
image_metadata thumb attributes none = none
image_metadata thumb attributes (some m) =
    for_attributes "image" (mark_image thumb) attributes (some m)

unfoldable pub thumbs : Field → List Attribute → List Field
thumbs thumb [] = []
thumbs thumb (a ∷ rest) = if a.name == "image" then thumb ∷ thumbs thumb rest else thumbs thumb rest

abbrev pub image_fields : String → Field → List Field
image_fields suffix f =
    record f { metadata = image_metadata (concat (f.name ∷ suffix ∷ [])) f.attributes f.metadata }
    ∷ thumbs (thumb_field suffix f) f.attributes

abbrev pub image_entity : String → Entity → Entity
image_entity suffix e = record e { fields = flat_map (image_fields suffix) e.fields }

-- the suffix of a transformer whose ThumbSuffix is this
abbrev pub suffix_of : String → String
suffix_of thumb_suffix = if thumb_suffix == "" then "_thumb" else thumb_suffix

abbrev pub transform_images : String → Schema → Schema
transform_images thumb_suffix s = record s {
  entities = map (image_entity (suffix_of thumb_suffix)) s.entities;
}

-- ValidationTransformer

abbrev pub rule_of : Bool → Attribute → String
rule_of optional a =
    let rule = string_of (lookup "rule" a.args) in
    if optional && not (rule == "") && not (contains_text rule "omitempty")
    then concat (rule ∷ ",omitempty" ∷ [])
    else rule

abbrev pub validation_field : Field → Field
validation_field f = record f {
  metadata =
      for_attributes "validate" (λ a m. write "validate_tag" (Json.text (rule_of f.optional a)) m)
        f.attributes f.metadata;
}

abbrev pub validation_entity : Entity → Entity
validation_entity e = record e { fields = map validation_field e.fields }

abbrev pub transform_validations : Schema → Schema
transform_validations s = record s { entities = map validation_entity s.entities }

-- TimestampTransformer and SoftDeleteTransformer

unfoldable pub has_field : String → List Field → Bool
has_field name [] = false
has_field name (f ∷ fs) = f.name == name || has_field name fs

abbrev pub timestamp_field : String → String → Field
timestamp_field name auto_set = record zero_field {
  name = name;
  type = simple_type "time";
  metadata =
      some (
        ("generated_by", Json.text "timestamp_transformer")
        ∷ ("auto_set", Json.text auto_set)
        ∷ []);
}

abbrev pub deleted_at : Field
deleted_at = record zero_field {
  name = "deleted_at";
  type = simple_type "time";
  optional = true;
  metadata = some (("generated_by", Json.text "soft_delete_transformer") ∷ []);
}

abbrev pub append_unless : Bool → Field → List Field → List Field
append_unless has f fs = if has then fs else fs ++ (f ∷ [])

abbrev pub timestamp_fields : List Field → List Field
timestamp_fields fs =
    let has_created_at = has_field "created_at" fs in
    let has_updated_at = has_field "updated_at" fs in
    append_unless has_updated_at (timestamp_field "updated_at" "on_update")
      (append_unless has_created_at (timestamp_field "created_at" "on_create") fs)

abbrev pub timestamp_entity : Entity → Entity
timestamp_entity e =
    if has_key "timestamps" e.metadata then record e { fields = timestamp_fields e.fields } else e

abbrev pub transform_timestamps : Schema → Schema
transform_timestamps s = record s { entities = map timestamp_entity s.entities }

abbrev pub soft_delete_fields : List Field → List Field
soft_delete_fields fs = append_unless (has_field "deleted_at" fs) deleted_at fs

abbrev pub soft_delete_entity : Entity → Entity
soft_delete_entity e =
    if has_key "soft_delete" e.metadata
    then record e { fields = soft_delete_fields e.fields }
    else e

abbrev pub transform_soft_deletes : Schema → Schema
transform_soft_deletes s = record s { entities = map soft_delete_entity s.entities }
