-- ===== src/Transformers/Images.antt =====
-- The thumbnails that the image transformer adds.
use mathlib.Core.List.{flat_map}
use ang.Common.{
  ◌≡◌, ◌≤◌, ◌<◌, ◌⊎◌, refl, String, Bool, true, false, none, some, List, [], ◌∷◌, ◌==◌, inl, inr,
  Bool-cases, arith, All, All-append, length, length-append,
}
use ang.Text.{concat}
use ang.Values.{Metadata}
use ang.Ir.{Attribute, Field}
use ang.Versioning.Invariants.{IsMade, IsMadeField}
use ang.Transformers.Loops.{for_attributes}
use ang.Transformers.Services.{has_attribute}
use ang.Transformers.Entities.{image_fields, image_metadata, mark_image, thumbs, thumb_field}
use ang.Transformers.Writes.{for_attributes_none}

abbrev pub is_image : Field → Bool
is_image f = has_attribute "image" f.attributes

-- No field has an image attribute.
abbrev pub NoImages : List Field → Type 0
NoImages fs = All (λ (f : Field). is_image f ≡ false) fs

-- The image transformer

image_metadata_none :
    (thumb : String) (attributes : List Attribute) (m : Metadata)
    → has_attribute "image" attributes ≡ false
    → image_metadata thumb attributes m ≡ m
unfolding image_metadata
image_metadata_none thumb attributes none h = refl
image_metadata_none thumb attributes (some m) h =
    for_attributes_none "image" (mark_image thumb) attributes (some m) h

thumbs_none :
    (thumb : Field) (attributes : List Attribute)
    → has_attribute "image" attributes ≡ false
    → thumbs thumb attributes ≡ []
unfolding thumbs has_attribute
thumbs_none thumb [] h = refl
thumbs_none thumb (a ∷ rest) h = ground (arith, thumbs_none thumb rest)

thumbs_some :
    (thumb : Field) (attributes : List Attribute)
    → has_attribute "image" attributes ≡ true
    → 1 ≤ length (thumbs thumb attributes)
unfolding thumbs has_attribute
thumbs_some thumb [] h = cc
thumbs_some thumb (a ∷ rest) h = ground (arith, thumbs_some thumb rest)

pub image_fields_fixed :
    (suffix : String) (fs : List Field) → NoImages fs → flat_map (image_fields suffix) fs ≡ fs
unfolding flat_map
image_fields_fixed suffix [] h = refl
image_fields_fixed suffix (f ∷ fs) h =
    rw
      (
        image_metadata_none (concat (f.name ∷ suffix ∷ [])) f.attributes f.metadata h.0,
        thumbs_none (thumb_field suffix f) f.attributes h.0,
        image_fields_fixed suffix fs h.1,
      )
      refl

mark_image-IsMade :
    (thumb : String) (attributes : List Attribute) (m : Metadata)
    → IsMade m
    → IsMade (for_attributes "image" (mark_image thumb) attributes m)
unfolding for_attributes
mark_image-IsMade thumb [] m h = h
mark_image-IsMade thumb (a ∷ rest) m h = elim (Bool-cases (a.name == "image")) [
  | inl e ↦ rw e (mark_image-IsMade thumb rest (mark_image thumb a m) tt)
  | inr n ↦ rw n (mark_image-IsMade thumb rest m h)
]

image_metadata-IsMade :
    (thumb : String) (attributes : List Attribute) (m : Metadata)
    → IsMade m
    → IsMade (image_metadata thumb attributes m)
unfolding image_metadata
image_metadata-IsMade thumb attributes none h = absurd h
image_metadata-IsMade thumb attributes (some m) h = mark_image-IsMade thumb attributes (some m) tt

thumbs-IsMade :
    (thumb : Field) (attributes : List Attribute)
    → IsMadeField thumb
    → All IsMadeField (thumbs thumb attributes)
unfolding thumbs
thumbs-IsMade thumb [] h = tt
thumbs-IsMade thumb (a ∷ rest) h = elim (Bool-cases (a.name == "image")) [
  | inl e ↦ rw e (h, thumbs-IsMade thumb rest h)
  | inr n ↦ rw n (thumbs-IsMade thumb rest h)
]

pub image_fields-IsMade :
    (suffix : String) (fs : List Field)
    → All IsMadeField fs
    → All IsMadeField (flat_map (image_fields suffix) fs)
unfolding flat_map
image_fields-IsMade suffix [] h = tt
image_fields-IsMade suffix (f ∷ fs) h =
    All-append IsMadeField (image_fields suffix f) (flat_map (image_fields suffix) fs)
      (
        image_metadata-IsMade (concat (f.name ∷ suffix ∷ [])) f.attributes f.metadata h.0,
        thumbs-IsMade (thumb_field suffix f) f.attributes tt,
      )
      (image_fields-IsMade suffix fs h.1)

length-image_fields :
    (suffix : String) (fs : List Field) → length fs ≤ length (flat_map (image_fields suffix) fs)
unfolding flat_map
length-image_fields suffix [] = omega arith
length-image_fields suffix (f ∷ fs) = omega (
  arith,
  length-append (image_fields suffix f) (flat_map (image_fields suffix) fs),
  length-image_fields suffix fs,
)

-- An image makes the list of fields longer.
pub image_fields_grow :
    (suffix : String) (fs : List Field)
    → NoImages fs ⊎ (length fs < length (flat_map (image_fields suffix) fs))
unfolding flat_map
image_fields_grow suffix [] = inl tt
image_fields_grow suffix (f ∷ fs) =
    let more = length-append (image_fields suffix f) (flat_map (image_fields suffix) fs) in
    elim (Bool-cases (is_image f)) [
      | inl e ↦
          let added = thumbs_some (thumb_field suffix f) f.attributes e in
          inr (omega (arith, more, added, length-image_fields suffix fs))
      | inr n ↦ elim (image_fields_grow suffix fs) [
        | inl rest ↦ inl (n, rest)
        | inr longer ↦ inr (omega (arith, more, longer))
      ]
    ]
