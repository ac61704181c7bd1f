-- ===== src/RoundTrip/Fields.antt =====
-- Fields there and back.
use ang.Common.{
  ◌≡◌, ◌≢◌, ◌⊎◌, inl, inr, refl, sym, ap, ◌∙◌, String, Bool, true, false, Option, none, some, List,
  [], ◌∷◌, ◌++◌, ◌==◌, lookup, eq_iff, arith, Bool-cases,
}
use ang.Values.{Json, Metadata}
use ang.Normalizer.{Field, FileMeta, DbMeta, UiHints, Constraints, zero_db_meta}
use ang.Ir
use ang.Convert.{
  convert_field, attributes_of, db_attributes, has_db, validate_attributes, env_attributes,
  file_attributes, convert_default, convert_constraints, convert_ui,
}
use ang.Restore.{
  restore_field, Extracted, extract, extract_all, extracted, text_of, boolean_of, first_key,
  see_metadata, see_validate_tag, see_sql_type, see_primary_key, see_file_kind,
  see_generate_thumbnail, file_meta_or_new, restore_default, restore_constraints, restore_ui,
  has_ui,
}
use ang.RoundTrip.Types.{IsTyped, go_type-infer_type}

constraints : (c : Option Constraints) → restore_constraints (convert_constraints c) ≡ c
unfolding restore_constraints convert_constraints
constraints none = refl
constraints (some c) = refl

default : (value : String) → restore_default (convert_default value) ≡ value
unfolding restore_default convert_default
default value = elim (Bool-cases (value == "")) [
  | inl e ↦ rw e (sym ((eq_iff value "").0 e))
  | inr e ↦ rw e refl
]

-- There are no hints for the user interface, or one of the twelve is set that tell that there are.
abbrev pub ShowsUi : Option UiHints → Type 0
ShowsUi none = Unit
ShowsUi (some u) = has_ui (convert_ui (some u)) ≡ true

ui : (u : Option UiHints) → ShowsUi u → restore_ui (convert_ui u) ≡ u
unfolding restore_ui convert_ui has_ui
ui none s = refl
ui (some u) s = rw s refl

-- An image has a thumbnail.
abbrev pub IsFileMeta : Option FileMeta → Type 0
IsFileMeta none = Unit
IsFileMeta (some file) = (file.kind ≢ "image") ⊎ (file.thumbnail ≡ true)

abbrev known : DbMeta → String → String → Option FileMeta → Extracted
known db tag var file = record { db = db; validate_tag = tag; env_var = var; file_meta = file }

extract_all-append :
    (xs ys : List Ir.Attribute) (x : Extracted)
    → extract_all (xs ++ ys) x ≡ extract_all ys (extract_all xs x)
unfolding extract_all
extract_all-append [] ys x = refl
extract_all-append (a ∷ xs) ys x = extract_all-append xs ys (extract a x)

module _ (db : DbMeta) (tag var : String) where
  db_zero : (d : DbMeta) → has_db d ≡ false → zero_db_meta ≡ d
  db_zero d h =
      let t : d.type ≡ "" = (eq_iff d.type "").0 (ground arith) in
      let p : d.primary_key ≡ false = ground arith in
      let u : d.unique ≡ false = ground arith in
      let i : d.index ≡ false = ground arith in
      sym (λ j. record { type = t j; primary_key = p j; unique = u j; index = i j })

  extract-db :
      extract_all (db_attributes db) (known zero_db_meta tag var none) ≡ known db tag var none
  unfolding extract_all extract db_attributes lookup text_of boolean_of
  extract-db = elim (Bool-cases (has_db db)) [
    | inl h ↦ rw h refl
    | inr h ↦ rw h (ap (λ d. known d tag var none) (db_zero db h))
  ]

  extract-validate :
      extract_all (validate_attributes tag) (known db tag var none) ≡ known db tag var none
  unfolding extract_all extract validate_attributes lookup text_of
  extract-validate = elim (Bool-cases (tag == "")) [ inl e ↦ rw e refl | inr e ↦ rw e refl ]

  extract-env : extract_all (env_attributes var) (known db tag var none) ≡ known db tag var none
  unfolding extract_all extract env_attributes first_key
  extract-env = elim (Bool-cases (var == "")) [ inl e ↦ rw e refl | inr e ↦ rw e refl ]

  extract-file :
      (file : Option FileMeta)
      → IsFileMeta file
      → extract_all (file_attributes file) (known db tag var none) ≡ known db tag var file
  unfolding extract_all extract file_attributes lookup text_of boolean_of
  extract-file none g = refl
  extract-file (some file) g = elim (Bool-cases (file.kind == "image")) [
    | inl e ↦
        let kind = (eq_iff file.kind "image").0 e in
        elim g [
          | inl n ↦ absurd (n kind)
          | inr thumbnail ↦ rw e (
              ap (known db tag var)
                (λ i. some record { kind = sym kind i; thumbnail = sym thumbnail i }))
        ]
    | inr e ↦ rw e refl
  ]

-- what the attributes and the metadata say of a field
abbrev known_of : Field → Extracted
known_of f = known f.db f.validate_tag f.env_var f.file_meta

extract-attributes :
    (f : Field)
    → IsFileMeta f.file_meta
    → extract_all (attributes_of f) (known zero_db_meta f.validate_tag f.env_var none) ≡ known_of f
extract-attributes f g =
    extract_all-append (db_attributes f.db) _ _
    ∙ ap (extract_all _) (extract-db f.db f.validate_tag f.env_var)
    ∙ extract_all-append (validate_attributes f.validate_tag) _ _
    ∙ ap (extract_all _) (extract-validate f.db f.validate_tag f.env_var)
    ∙ extract_all-append (env_attributes f.env_var) _ _
    ∙ ap (extract_all _) (extract-env f.db f.validate_tag f.env_var)
    ∙ extract-file f.db f.validate_tag f.env_var f.file_meta g

-- A text of the metadata is hidden by the field's own, or is empty too.
abbrev TextAgrees : Option Json → String → Type 0
TextAgrees (some (Json.text v)) own = (own ≢ "") ⊎ (v ≡ "")
TextAgrees v own = Unit

abbrev PrimaryAgrees : Option Json → Bool → Type 0
PrimaryAgrees (some (Json.boolean true)) own = own ≡ true
PrimaryAgrees v own = Unit

abbrev KindAgrees : Option Json → Option FileMeta → Type 0
KindAgrees (some (Json.text v)) own = (file : FileMeta) × (own ≡ some file) × (file.kind ≡ v)
KindAgrees v own = Unit

abbrev ThumbnailAgrees : Option Json → Option FileMeta → Type 0
ThumbnailAgrees (some (Json.boolean v)) own =
    (file : FileMeta) × (own ≡ some file) × (file.thumbnail ≡ v)
ThumbnailAgrees v own = Unit

-- What the metadata says under the five keys that the way back reads is what the field says itself.
abbrev pub Agrees : Metadata → Field → Type 0
Agrees none f = Unit
Agrees (some m) f =
    TextAgrees (lookup "validate_tag" m) f.validate_tag
    × (TextAgrees (lookup "sql_type" m) f.db.type
        × (PrimaryAgrees (lookup "primary_key" m) f.db.primary_key
            × (KindAgrees (lookup "file_kind" m) f.file_meta
                × ThumbnailAgrees (lookup "generate_thumbnail" m) f.file_meta)))

abbrev with_db : Field → DbMeta → Extracted
with_db f db = known db f.validate_tag f.env_var f.file_meta

abbrev with_file : Field → FileMeta → Extracted
with_file f file = known f.db f.validate_tag f.env_var (some file)

see-tag :
    (v : Option Json) (f : Field)
    → TextAgrees v f.validate_tag
    → see_validate_tag v (known_of f) ≡ known_of f
unfolding see_validate_tag
see-tag (some (Json.text v)) f a = elim (Bool-cases (f.validate_tag == "")) [
  | inr e ↦ rw e refl
  | inl e ↦
      let own = (eq_iff f.validate_tag "").0 e in
      elim a [
        | inl n ↦ absurd (n own)
        | inr empty ↦ rw e (ap (λ s. known f.db s f.env_var f.file_meta) (empty ∙ sym own))
      ]
]
see-tag v f a = refl

see-type :
    (v : Option Json) (f : Field)
    → TextAgrees v f.db.type
    → see_sql_type v (known_of f) ≡ known_of f
unfolding see_sql_type
see-type (some (Json.text v)) f a = elim (Bool-cases (f.db.type == "")) [
  | inr e ↦ rw e refl
  | inl e ↦
      let own = (eq_iff f.db.type "").0 e in
      elim a [
        | inl n ↦ absurd (n own)
        | inr empty ↦ rw e (ap (λ s. with_db f (record f.db { type = s })) (empty ∙ sym own))
      ]
]
see-type v f a = refl

see-primary :
    (v : Option Json) (f : Field)
    → PrimaryAgrees v f.db.primary_key
    → see_primary_key v (known_of f) ≡ known_of f
unfolding see_primary_key
see-primary (some (Json.boolean true)) f a =
    ap (λ b. with_db f (record f.db { primary_key = b })) (sym a)
see-primary v f a = refl

see-kind :
    (v : Option Json) (f : Field)
    → KindAgrees v f.file_meta
    → see_file_kind v (known_of f) ≡ known_of f
unfolding see_file_kind file_meta_or_new
see-kind (some (Json.text v)) f (file, own, kind) =
    rw own (ap (λ s. with_file f (record file { kind = s })) (sym kind))
see-kind v f a = refl

see-thumbnail :
    (v : Option Json) (f : Field)
    → ThumbnailAgrees v f.file_meta
    → see_generate_thumbnail v (known_of f) ≡ known_of f
unfolding see_generate_thumbnail file_meta_or_new
see-thumbnail (some (Json.boolean v)) f (file, own, thumbnail) =
    rw own (ap (λ b. with_file f (record file { thumbnail = b })) (sym thumbnail))
see-thumbnail v f a = refl

see-known : (m : Metadata) (f : Field) → Agrees m f → see_metadata m (known_of f) ≡ known_of f
unfolding see_metadata
see-known none f a = refl
see-known (some m) f a =
    rw
      (
        see-tag (lookup "validate_tag" m) f a.0,
        see-type (lookup "sql_type" m) f a.1.0,
        see-primary (lookup "primary_key" m) f a.1.1.0,
        see-kind (lookup "file_kind" m) f a.1.1.1.0,
        see-thumbnail (lookup "generate_thumbnail" m) f a.1.1.1.1,
      )
      refl

-- A field that the way back can give again as it was.
pub record IsField (f : Field) : Type 0 where
  pub typed : IsTyped f.type f.is_list f.item_type_name
  pub shown : ShowsUi f.ui
  pub file : IsFileMeta f.file_meta
  pub agrees : Agrees f.metadata f

extracted-convert : (f : Field) → IsField f → extracted (convert_field f) ≡ known_of f
unfolding extracted convert_field
extracted-convert f g =
    ap (see_metadata f.metadata) (extract-attributes f g.file) ∙ see-known f.metadata f g.agrees

pub restore_field-convert_field : (f : Field) → IsField f → restore_field (convert_field f) ≡ f
unfolding restore_field convert_field
restore_field-convert_field f g =
    let types = go_type-infer_type g.typed in
    rw
      (
        extracted-convert f g,
        types.written,
        types.listed,
        types.named,
        default f.default,
        constraints f.constraints,
        ui f.ui g.shown,
      )
      refl
