-- ===== src/Semantics/Types.antt =====
-- The types that validateTypeRef accepts.
use ang.Common.{
  String, true, false, List, [], ◌≡◌, ◌↔◌, ◌⊎◌, inl, inr, refl, arith, ◌==◌, eq_iff, contains,
  lookup, Bool-cases,
}
use ang.Text.{trim_space}
use ang.Ir.{TypeRef, TypePointer, type_ref, Entity}
use ang.Ir.TypePointer.{nil, to}
use ang.Cycles.{is_some}
use ang.Semantics.{report, is_nil, plain_kinds, entity_ref_errors, type_errors, pointer_errors}
use ang.Semantics.Checks.{append-nil_iff}

module _ (entities : List (String × Entity)) where
  -- the name of an entity
  abbrev pub IsEntityName : String → Type 0
  IsEntityName name = ((trim_space name == "") ≡ false) × (is_some (lookup name entities) ≡ true)

  mutual
    -- A type is a plain one, or an entity that there is, or a list of such a type, or a map of two.
    pub IsType : TypeRef → Type 0
    IsType (type_ref kind name item_type key_type) =
        (contains plain_kinds kind ≡ true)
        ⊎ (((kind ≡ "entity") × IsEntityName name)
            ⊎ (((kind ≡ "list") × IsTypeAt item_type)
                ⊎ ((kind ≡ "map") × IsTypeAt key_type × IsTypeAt item_type)))

    pub IsTypeAt : TypePointer → Type 0
    IsTypeAt nil = ⊥
    IsTypeAt (to ref) = IsType ref

  entity_ref_errors-nil_iff :
      (place name : String) → (entity_ref_errors entities place name ≡ []) ↔ IsEntityName name
  unfolding entity_ref_errors report
  entity_ref_errors-nil_iff place name = ground arith

  IsTypeAt-not_nil : (p : TypePointer) → IsTypeAt p → is_nil p ≡ false
  unfolding IsTypeAt is_nil
  IsTypeAt-not_nil nil h = absurd h
  IsTypeAt-not_nil (to ref) h = refl

  mutual
    unfolding type_errors pointer_errors IsType IsTypeAt is_nil contains

    pub type_errors_sound :
        (place : String) (ref : TypeRef) → type_errors entities place ref ≡ [] → IsType ref
    type_errors_sound place (type_ref kind name item_type key_type) e =
        elim (Bool-cases (contains plain_kinds kind)) [
          | inl p ↦ inl p
          | inr n0 ↦ elim (Bool-cases (kind == "entity")) [
            | inl k ↦ inr (
                inl (
                  (eq_iff kind "entity").0 k,
                  (entity_ref_errors-nil_iff place name).0 (rw (n0, k) at e),
                ))
            | inr n1 ↦ elim (Bool-cases (kind == "list")) [
              | inl k ↦ elim (Bool-cases (is_nil item_type)) [
                | inl n ↦ cc (rw (n0, n1, k, n) at e)
                | inr n ↦ inr (
                    inr (
                      inl (
                        (eq_iff kind "list").0 k,
                        pointer_errors_sound _ item_type n (rw (n0, n1, k, n) at e),
                      )))
              ]
              | inr n2 ↦ elim (Bool-cases (kind == "map")) [
                | inl k ↦ elim (Bool-cases (is_nil key_type)) [
                  | inl n ↦ cc (rw (n0, n1, n2, k, n) at e)
                  | inr nk ↦ elim (Bool-cases (is_nil item_type)) [
                    | inl n ↦ cc (rw (n0, n1, n2, k, nk, n) at e)
                    | inr ni ↦
                        let both = (append-nil_iff _ _).0 (rw (n0, n1, n2, k, nk, ni) at e) in
                        inr (
                          inr (
                            inr (
                              (eq_iff kind "map").0 k,
                              pointer_errors_sound _ key_type nk both.0,
                              pointer_errors_sound _ item_type ni both.1,
                            )))
                  ]
                ]
                | inr n3 ↦ cc (rw (n0, n1, n2, n3) at e)
              ]
            ]
          ]
        ]

    pub pointer_errors_sound :
        (place : String) (p : TypePointer)
        → is_nil p ≡ false
        → pointer_errors entities place p ≡ []
        → IsTypeAt p
    pointer_errors_sound place nil n e = cc n
    pointer_errors_sound place (to ref) n e = type_errors_sound place ref e

  mutual
    unfolding type_errors pointer_errors IsType IsTypeAt is_nil contains

    pub type_errors_complete :
        (place : String) (ref : TypeRef) → IsType ref → type_errors entities place ref ≡ []
    type_errors_complete place (type_ref kind name item_type key_type) (inl p) = rw p refl
    type_errors_complete place (type_ref kind name item_type key_type) (inr (inl (k, h))) =
        rw k ((entity_ref_errors-nil_iff place name).1 h)
    type_errors_complete place (type_ref kind name item_type key_type) (inr (inr (inl (k, h)))) =
        rw (k, IsTypeAt-not_nil item_type h) (pointer_errors_complete _ item_type h)
    type_errors_complete place (type_ref kind name item_type key_type)
          (inr (inr (inr (k, hk, hi)))) =
        rw (k, IsTypeAt-not_nil item_type hi, IsTypeAt-not_nil key_type hk)
          ((append-nil_iff _ _).1
            (pointer_errors_complete _ key_type hk, pointer_errors_complete _ item_type hi))

    pub pointer_errors_complete :
        (place : String) (p : TypePointer) → IsTypeAt p → pointer_errors entities place p ≡ []
    pointer_errors_complete place nil h = absurd h
    pointer_errors_complete place (to ref) h = type_errors_complete place ref h
