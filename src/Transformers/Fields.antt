-- ===== src/Transformers/Fields.antt =====
-- The tags and fields that the other transformers of entities add, and when a second run finds nothing
-- left to do.
use ang.Common.{
  ◌≡◌, ◌≤◌, refl, ap, String, Bool, true, false, ◌||◌, List, [], ◌∷◌, ◌++◌, ◌==◌, inl, inr,
  Bool-cases, if◌then◌else◌, arith, All, All-append, length, length-append,
}
use ang.Values.{Json, Metadata, write}
use ang.Ir.{Attribute, Field}
use ang.Versioning.Invariants.{IsMadeField}
use ang.Transformers.Loops.{for_attributes}
use ang.Transformers.Entities.{
  rule_of, validation_field, append_unless, has_field, timestamp_fields, timestamp_field,
  soft_delete_fields, deleted_at,
}
use ang.Transformers.Writes.{for_attributes_idem, for_attributes-IsMade}

-- The validation transformer

validation : Field → Attribute → Metadata → Metadata
validation f a m = write "validate_tag" (Json.text (rule_of f.optional a)) m

abbrev pub IsFixed : Field → Type 0
IsFixed f = validation_field f ≡ f

-- What a second run needs: metadata that are there, and the tags of a first run.
abbrev pub IsSettled : Field → Type 0
IsSettled f = IsMadeField f × IsFixed f

pub validation_field-IsSettled : (f : Field) → IsMadeField f → IsSettled (validation_field f)
validation_field-IsSettled f h = (
  for_attributes-IsMade "validate" "validate_tag" (λ a. Json.text (rule_of f.optional a))
      f.attributes f.metadata h,
  ap (λ (m : Metadata). record f { metadata = m })
      (for_attributes_idem "validate" "validate_tag" (λ a. Json.text (rule_of f.optional a))
        f.attributes f.metadata h),
)

-- The timestamps and the mark of a deletion

has_field-append :
    (name : String) (fs gs : List Field)
    → has_field name (fs ++ gs) ≡ (has_field name fs || has_field name gs)
unfolding has_field
has_field-append name [] gs = refl
has_field-append name (f ∷ fs) gs = ground (arith, has_field-append name fs gs)

-- A field that was there is still there.
has_field_kept :
    (name : String) (b : Bool) (f : Field) (fs : List Field)
    → has_field name fs ≡ true
    → has_field name (append_unless b f fs) ≡ true
has_field_kept name true f fs h = h
has_field_kept name false f fs h = rw (has_field-append name fs (f ∷ []), h) refl

has_field_last :
    (name : String) (f : Field) (fs : List Field)
    → (f.name == name) ≡ true
    → has_field name (fs ++ f ∷ []) ≡ true
unfolding has_field
has_field_last name f [] e = rw e refl
has_field_last name f (g ∷ fs) e = ground (arith, has_field_last name f fs e)

has_field_added :
    (name : String) (f : Field) (fs : List Field)
    → (f.name == name) ≡ true
    → has_field name (append_unless (has_field name fs) f fs) ≡ true
has_field_added name f fs e = elim (Bool-cases (has_field name fs)) [
  | inl h ↦ rw h h
  | inr n ↦ rw n (has_field_last name f fs e)
]

abbrev pub HasTimestamps : List Field → Type 0
HasTimestamps fs = (has_field "created_at" fs ≡ true) × (has_field "updated_at" fs ≡ true)

abbrev pub created_at : Field
created_at = timestamp_field "created_at" "on_create"

abbrev pub updated_at : Field
updated_at = timestamp_field "updated_at" "on_update"

timestamp_fields-HasTimestamps : (fs : List Field) → HasTimestamps (timestamp_fields fs)
timestamp_fields-HasTimestamps fs =
    let inner = append_unless (has_field "created_at" fs) created_at fs in
    (
      has_field_kept "created_at" (has_field "updated_at" fs) updated_at inner
          (has_field_added "created_at" created_at fs refl),
      elim (Bool-cases (has_field "updated_at" fs)) [
        | inl h ↦ rw h (has_field_kept "updated_at" (has_field "created_at" fs) created_at fs h)
        | inr n ↦ rw n (has_field_last "updated_at" updated_at inner refl)
      ],
    )

timestamp_fields_fixed : (fs : List Field) → HasTimestamps fs → timestamp_fields fs ≡ fs
timestamp_fields_fixed fs h = rw (h.0, h.1) refl

-- the fields behind the timestamps and the mark of a deletion, where they are called for
abbrev pub enrich : Bool → Bool → List Field → List Field
enrich timestamps soft_delete fs =
    let gs = if timestamps then timestamp_fields fs else fs in
    if soft_delete then soft_delete_fields gs else gs

-- The fields that are added are settled.
pub added-IsSettled : IsSettled created_at × (IsSettled updated_at × IsSettled deleted_at)
unfolding for_attributes
added-IsSettled = ((tt, refl), ((tt, refl), (tt, refl)))

pub enrich_idem : (t d : Bool) (fs : List Field) → enrich t d (enrich t d fs) ≡ enrich t d fs
enrich_idem false false fs = refl
enrich_idem true false fs = timestamp_fields_fixed _ (timestamp_fields-HasTimestamps fs)
enrich_idem false true fs = rw (has_field_added "deleted_at" deleted_at fs refl) refl
enrich_idem true true fs =
    let gs = timestamp_fields fs in
    let has = timestamp_fields-HasTimestamps fs in
    let kept : HasTimestamps (soft_delete_fields gs) = (
      has_field_kept "created_at" (has_field "deleted_at" gs) deleted_at gs has.0,
      has_field_kept "updated_at" (has_field "deleted_at" gs) deleted_at gs has.1,
    ) in
    rw
      (
        timestamp_fields_fixed (soft_delete_fields gs) kept,
        has_field_added "deleted_at" deleted_at gs refl,
      )
      refl

module _ (P : Field → Type 0) where
  append_unless-All :
      (name : String) (f : Field) (fs gs : List Field)
      → P f
      → All P gs
      → All P (append_unless (has_field name fs) f gs)
  append_unless-All name f fs gs p h = elim (Bool-cases (has_field name fs)) [
    | inl e ↦ rw e h
    | inr n ↦ rw n (All-append P gs (f ∷ []) h (p, tt))
  ]

  timestamp_fields-All :
      (fs : List Field) → P created_at → P updated_at → All P fs → All P (timestamp_fields fs)
  timestamp_fields-All fs c u h =
      append_unless-All "updated_at" updated_at fs
        (append_unless (has_field "created_at" fs) created_at fs) u
        (append_unless-All "created_at" created_at fs fs c h)

  pub enrich-All :
      (t d : Bool) (fs : List Field)
      → P created_at × (P updated_at × P deleted_at)
      → All P fs
      → All P (enrich t d fs)
  enrich-All false false fs p h = h
  enrich-All false true fs p h = append_unless-All "deleted_at" deleted_at fs fs p.1.1 h
  enrich-All true false fs p h = timestamp_fields-All fs p.0 p.1.0 h
  enrich-All true true fs p h =
      append_unless-All "deleted_at" deleted_at (timestamp_fields fs) (timestamp_fields fs) p.1.1
        (timestamp_fields-All fs p.0 p.1.0 h)

length-append_unless :
    (b : Bool) (f : Field) (fs : List Field) → length fs ≤ length (append_unless b f fs)
length-append_unless true f fs = omega arith
length-append_unless false f fs = omega (arith, length-append fs (f ∷ []))

length-timestamp_fields : (fs : List Field) → length fs ≤ length (timestamp_fields fs)
length-timestamp_fields fs =
    let inner = append_unless (has_field "created_at" fs) created_at fs in
    omega (
      arith,
      length-append_unless (has_field "created_at" fs) created_at fs,
      length-append_unless (has_field "updated_at" fs) updated_at inner,
    )

pub length-enrich : (t d : Bool) (fs : List Field) → length fs ≤ length (enrich t d fs)
length-enrich false false fs = omega arith
length-enrich false true fs = length-append_unless (has_field "deleted_at" fs) deleted_at fs
length-enrich true false fs = length-timestamp_fields fs
length-enrich true true fs =
    let gs = timestamp_fields fs in
    omega (
      arith,
      length-timestamp_fields fs,
      length-append_unless (has_field "deleted_at" gs) deleted_at gs,
    )
