-- ===== src/Semantics/Rules.antt =====
-- The loops over references, and validateTypeRef.
use ang.Common.{
  String, Bool, true, false, not, ◌||◌, List, [], ◌∷◌, ◌++◌, ◌==◌, if◌then◌else◌, contains, lookup,
}
use ang.Text.{trim_space, concat, quote}
use ang.Ir.{TypeRef, TypePointer, type_ref, Entity}
use ang.Ir.TypePointer.{nil, to}
use ang.Cycles.{is_some}

-- a loop that appends errors
unfoldable pub each {ℓ} : {A : Type ℓ} → (A → List String) → List A → List String
each errors [] = []
each errors (x ∷ xs) = errors x ++ each errors xs

-- `if bad { *errs = append(*errs, message) }`
unfoldable pub report : Bool → List String → List String
report bad message = if bad then concat message ∷ [] else []

-- `entityByName`, with the newest entry first: the last entity of a name counts.
unfoldable pub index_entities : List (String × Entity) → List Entity → List (String × Entity)
index_entities by_name [] = by_name
index_entities by_name (e ∷ entities) = index_entities ((e.name, e) ∷ by_name) entities

unfoldable pub is_nil : TypePointer → Bool
is_nil nil = true
is_nil (to ref) = false

-- the kinds that need no check
abbrev pub plain_kinds : List String
plain_kinds =
    "string" ∷ "int" ∷ "int64" ∷ "float" ∷ "bool" ∷ "time" ∷ "uuid" ∷ "json" ∷ "enum" ∷ "file"
    ∷ "any" ∷ []

module _ (entities : List (String × Entity)) where
  unfoldable pub entity_ref_errors : (place name : String) → List String
  unfolding is_some
  entity_ref_errors place name =
      if trim_space name == ""
      then concat (place ∷ " has entity type without name" ∷ []) ∷ []
      else report (not (is_some (lookup name entities)))
          (place ∷ " references unknown entity type " ∷ quote name ∷ [])

  unfoldable mutual
    unfolding entity_ref_errors is_nil

    -- `validateTypeRef`
    pub type_errors : (place : String) → TypeRef → List String
    type_errors place (type_ref kind name item_type key_type) =
        if contains plain_kinds kind
        then []
        else if kind == "entity"
        then entity_ref_errors place name
        else if kind == "list"
        then if is_nil item_type
          then concat (place ∷ " list type has nil item type" ∷ []) ∷ []
          else pointer_errors (concat (place ∷ "[]" ∷ [])) item_type
        else if kind == "map"
        then if is_nil key_type || is_nil item_type
          then concat (place ∷ " map type has nil key/item type" ∷ []) ∷ []
          else pointer_errors (concat (place ∷ "<key>" ∷ [])) key_type
            ++ pointer_errors (concat (place ∷ "<value>" ∷ [])) item_type
        else concat (place ∷ " has unsupported type kind " ∷ quote kind ∷ []) ∷ []

    -- the type behind a pointer that is not nil
    pub pointer_errors : (place : String) → TypePointer → List String
    pointer_errors place nil = []
    pointer_errors place (to ref) = type_errors place ref
