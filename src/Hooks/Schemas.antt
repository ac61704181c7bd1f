-- ===== src/Hooks/Schemas.antt =====
-- What the hooks leave of a schema.
use mathlib.Core.Option.{some_inj}
use ang.Common.{
  ◌≡◌, refl, ap, subst, String, Option, none, some, List, [], ◌∷◌, inl, inr, map, lookup, ◌==◌, All,
  All-map_of, Bool-cases,
}
use ang.Values.{Json}
use ang.Ir.{Schema, Entity, Field}
use ang.Versioning.Invariants.{IsMadeField, IsMadeEntity, IsNormal}
use ang.Abi.Contract.{IsJson, IsJsonMap, HasJson}
use ang.Hooks.Process.{each, each_after}
use ang.Hooks.Writes.{change_idem, change-IsMade, change-IsJsonMap}
use ang.Hooks.Builtin.{Range}
use ang.Hooks.Fields.{hooked_field, hook_changes-Writes}

pub each_done :
    {A : Type 0} {P : A → Type 0} (change : A → A × Option String) (f : A → A)
    → ((x : A) → P x → change x ≡ (f x, none))
    → (xs : List A) → All P xs
    → each change xs ≡ (map f xs, none)
unfolding each each_after
each_done change f h [] a = refl
each_done change f h (x ∷ xs) a = rw (h x a.0, each_done change f h xs a.1) refl

pub lookup-IsJson :
    (k : String) (m : List (String × Json)) {v : Json}
    → All (λ (e : String × Json). IsJson e.1) m
    → lookup k m ≡ some v
    → IsJson v
unfolding lookup
lookup-IsJson k [] h e = cc
lookup-IsJson k ((j, w) ∷ m) {v} h e = elim (Bool-cases (j == k)) [
  | inl same ↦ subst IsJson (some_inj.0 (rw same at e)) h.0
  | inr other ↦ lookup-IsJson k m h.1 (rw other at e)
]

module _ (range : Range) where
  abbrev pub hooked_entity : Entity → Entity
  hooked_entity e = record e { fields = map (hooked_field range) e.fields }

  -- what the hooks leave of a schema
  abbrev pub hooked : Schema → Schema
  hooked s = record s { entities = map hooked_entity s.entities }

  hooked_field-IsMadeField : (f : Field) → IsMadeField f → IsMadeField ((hooked_field range) f)
  hooked_field-IsMadeField f h = change-IsMade (hook_changes-Writes range f.attributes) f.metadata h

  pub hooked-IsNormal : (s : Schema) → IsNormal s → IsNormal (hooked s)
  hooked-IsNormal s n = record {
    schema = n.schema;
    entities =
        All-map_of IsMadeEntity IsMadeEntity hooked_entity
          (λ e h. (
            h.0,
            All-map_of IsMadeField IsMadeField (hooked_field range) hooked_field-IsMadeField
                e.fields h.1,
          ))
          s.entities n.entities;
    services = n.services;
    events = n.events;
    endpoints = n.endpoints;
  }

  hooked_fields-HasJson :
      (fs : List Field)
      → All IsMadeField fs
      → All (λ (f : Field). IsJsonMap f.metadata) fs
      → All (λ (f : Field). IsJsonMap f.metadata) (map (hooked_field range) fs)
  hooked_fields-HasJson [] h j = tt
  hooked_fields-HasJson (f ∷ fs) h j = (
    change-IsJsonMap (hook_changes-Writes range f.attributes) f.metadata h.0 j.0,
    hooked_fields-HasJson fs h.1 j.1,
  )

  hooked_entities-HasJson :
      (es : List Entity)
      → All IsMadeEntity es
      → All
          (λ (e : Entity).
            IsJsonMap e.metadata × All (λ (f : Field). IsJsonMap f.metadata) e.fields)
          es
      → All
          (λ (e : Entity).
            IsJsonMap e.metadata × All (λ (f : Field). IsJsonMap f.metadata) e.fields)
          (map hooked_entity es)
  hooked_entities-HasJson [] h j = tt
  hooked_entities-HasJson (e ∷ es) h j =
      ((j.0.0, hooked_fields-HasJson e.fields h.0.1 j.0.1), hooked_entities-HasJson es h.1 j.1)

  pub hooked-HasJson : (s : Schema) → IsNormal s → HasJson s → HasJson (hooked s)
  hooked-HasJson s n h = (h.0, (hooked_entities-HasJson s.entities n.entities h.1.0, h.1.1))

  hooked_fields_idem :
      (fs : List Field)
      → All IsMadeField fs
      → map (hooked_field range) (map (hooked_field range) fs) ≡ map (hooked_field range) fs
  hooked_fields_idem [] h = refl
  hooked_fields_idem (f ∷ fs) h =
      rw
        (
          change_idem (hook_changes-Writes range f.attributes) f.metadata h.0,
          hooked_fields_idem fs h.1,
        )
        refl

  hooked_entities_idem :
      (es : List Entity)
      → All IsMadeEntity es
      → map hooked_entity (map hooked_entity es) ≡ map hooked_entity es
  hooked_entities_idem [] h = refl
  hooked_entities_idem (e ∷ es) h =
      rw (hooked_fields_idem e.fields h.0.1, hooked_entities_idem es h.1) refl

  pub hooked_idem : (s : Schema) → IsNormal s → hooked (hooked s) ≡ hooked s
  hooked_idem s n =
      ap (λ (es : List Entity). record s { entities = es })
        (hooked_entities_idem s.entities n.entities)
