-- ===== src/Transformers/EntityRuns.antt =====
-- A second run of the transformers on an entity.
use mathlib.Core.List.{flat_map}
use ang.Common.{
  Bool, true, false, if◌then◌else◌, length-map, ◌≡◌, ◌↔◌, refl, ap, sym, ◌∙◌, subst, String, List,
  map, inl, inr, arith, All, All-map_of, map-fixed, length,
}
use ang.Ir.{Entity, Field}
use ang.Versioning.Invariants.{IsMade, IsMadeField, IsMadeEntity}
use ang.Transformers.Loops.{has_key}
use ang.Transformers.Entities.{
  image_entity, image_fields, validation_entity, validation_field, timestamp_entity,
  soft_delete_entity, suffix_of, timestamp_fields, soft_delete_fields,
}
use ang.Transformers.Images.{NoImages, image_fields-IsMade, image_fields_fixed, image_fields_grow}
use ang.Transformers.Fields.{
  added-IsSettled, IsSettled, validation_field-IsSettled, enrich, enrich_idem, enrich-All,
  length-enrich,
}

abbrev pub suffix : String
suffix = suffix_of ""

-- what the transformers make of the fields of an entity
abbrev pub fields_after : Entity → List Field → List Field
fields_after e fs = enrich (has_key "timestamps" e.metadata) (has_key "soft_delete" e.metadata) fs

-- the four transformers of entities, one after the other
abbrev pub run_entity : Entity → Entity
run_entity e = soft_delete_entity (timestamp_entity (validation_entity (image_entity suffix e)))

choose :
    (b : Bool) (e : Entity) (fs : List Field)
    → (if b then record e { fields = fs } else e) ≡ record e { fields = if b then fs else e.fields }
choose true e fs = refl
choose false e fs = refl

pub run_entity_fields :
    (e : Entity)
    → run_entity e ≡ record e {
      fields = fields_after e (map validation_field (flat_map (image_fields suffix) e.fields));
    }
run_entity_fields e =
    let fs = map validation_field (flat_map (image_fields suffix) e.fields) in
    let x = record e { fields = fs } in
    let t = has_key "timestamps" e.metadata in
    let gs = if t then timestamp_fields fs else fs in
    ap soft_delete_entity (choose t x (timestamp_fields fs))
    ∙ choose (has_key "soft_delete" e.metadata) (record e { fields = gs }) (soft_delete_fields gs)

-- An entity behind a run: its metadata are there, and the validation and what is added are as a
-- second run would leave them.
abbrev pub IsReady : Entity → Type 0
IsReady e = IsMade e.metadata × All IsSettled e.fields × (fields_after e e.fields ≡ e.fields)

pub run_entity-IsReady : (e : Entity) → IsMadeEntity e → IsReady (run_entity e)
run_entity-IsReady e h =
    let fs = flat_map (image_fields suffix) e.fields in
    let t = has_key "timestamps" e.metadata in
    let d = has_key "soft_delete" e.metadata in
    let made = image_fields-IsMade suffix e.fields h.1 in
    subst IsReady (sym (run_entity_fields e)) (
      h.0,
      enrich-All IsSettled t d (map validation_field fs) added-IsSettled
          (All-map_of IsMadeField IsSettled validation_field validation_field-IsSettled fs made),
      enrich_idem t d (map validation_field fs),
    )

-- A second run changes nothing in an entity exactly if it has no image.
pub run_entity-fixed_iff : (e : Entity) → IsReady e → (run_entity e ≡ e) ↔ NoImages e.fields
run_entity-fixed_iff e r = (
  λ same. elim (image_fields_grow suffix e.fields) [
    | inl plain ↦ plain
    | inr longer ↦
        let fs = flat_map (image_fields suffix) e.fields in
        let l = ap (λ (x : Entity). length x.fields) (sym (run_entity_fields e) ∙ same) in
        absurd (
          omega (
            arith,
            length-enrich (has_key "timestamps" e.metadata) (has_key "soft_delete" e.metadata)
                (map validation_field fs),
            length-map validation_field fs,
          ))
  ],
  λ plain.
      run_entity_fields e
      ∙ ap (λ (fs : List Field). record e { fields = fields_after e (map validation_field fs) })
          (image_fields_fixed suffix e.fields plain)
      ∙ ap (λ (fs : List Field). record e { fields = fields_after e fs })
          (map-fixed validation_field (λ f s. s.1) e.fields r.1)
      ∙ ap (λ (fs : List Field). record e { fields = fs }) r.2,
)
