-- ===== src/Transformers/Reruns.antt =====
-- A second run of the default registry on a schema.
use mathlib.Core.List.{map-map}
use ang.Common.{
  true, ◌≡◌, ◌↔◌, refl, ap, sym, ◌∙◌, subst, String, none, some, List, [], ◌∷◌, map, inl, inr, All,
  All-map_of, All-weaken, Option, ◌≢◌, map-fixed, fixed-map,
}
use mathlib.Core.Option.{some_inj}
use ang.Common.Writes.{put_all, put_all_idem}
use ang.Values.{Json, entries}
use ang.Ir.{Schema, Entity, Service}
use ang.Versioning.{Migrated, migrate_to_version}
use ang.Versioning.Upgrade.{IsUpgrade, Refused, two, migrate_fixed, migrate_to_version-upgrades}
use ang.Versioning.Invariants.{IsMadeField, IsMadeEntity, IsMadeService, IsNormal}
use ang.Transformers.Registry.{apply, apply_migrated, apply_each, continue_with, default_registry}
use ang.Transformers.Entities.{
  image_entity, validation_entity, timestamp_entity, soft_delete_entity,
}
use ang.Transformers.Services.{transform_profiling, caching_service, tracing_service}
use ang.Transformers.Images.{NoImages}
use ang.Transformers.Fields.{IsSettled}
use ang.Transformers.Methods.{
  trace_and_cache_all, trace_and_cache_all_idem, trace_and_cache_all-IsMade,
}
use ang.Transformers.EntityRuns.{
  suffix, run_entity, IsReady, run_entity-IsReady, run_entity-fixed_iff,
}

-- all seven transformers, one after the other
abbrev pub run : Schema → Schema
run s = transform_profiling (record s {
  entities = map run_entity s.entities;
  services = map trace_and_cache_all s.services;
})

all_entities :
    (es : List Entity)
    → map soft_delete_entity
        (map timestamp_entity (map validation_entity (map (image_entity suffix) es)))
      ≡ map run_entity es
all_entities [] = refl
all_entities (e ∷ es) = ap (◌∷◌ (run_entity e)) (all_entities es)

pub apply_each-run :
    (s : Schema) → apply_each default_registry s ≡ record { err = none; schema = some (run s) }
unfolding apply_each continue_with
apply_each-run s = λ i. record {
  err = none;
  schema = some (
      transform_profiling (record s {
        entities = all_entities s.entities i;
        services = map-map caching_service tracing_service s.services i;
      }));
}

profiling_writes : List (String × Json)
profiling_writes =
    ("profiling_enabled", Json.boolean true) ∷ ("pprof_endpoint", Json.text "/debug/pprof") ∷ []

profiling_metadata :
    (s : Schema) → (run s).metadata ≡ some (put_all profiling_writes (entries s.metadata))
unfolding profiling_writes put_all entries
profiling_metadata s = refl

profiling_idem : (s : Schema) → (run (run s)).metadata ≡ (run s).metadata
unfolding entries
profiling_idem s =
    profiling_metadata (run s)
    ∙ ap (λ x. some (put_all profiling_writes (entries x))) (profiling_metadata s)
    ∙ ap some (put_all_idem profiling_writes (entries s.metadata))
    ∙ sym (profiling_metadata s)

services_idem :
    (ss : List Service)
    → map trace_and_cache_all (map trace_and_cache_all ss) ≡ map trace_and_cache_all ss
services_idem [] = refl
services_idem (s ∷ ss) = rw (trace_and_cache_all_idem s, services_idem ss) refl

-- No field of the schema has an image attribute.
abbrev pub HasNoImages : Schema → Type 0
HasNoImages s = All (λ (e : Entity). NoImages e.fields) s.entities

entities-fixed_iff :
    (es : List Entity)
    → All IsReady es
    → (map run_entity es ≡ es) ↔ All (λ (e : Entity). NoImages e.fields) es
entities-fixed_iff [] r = (λ e. tt, λ t. refl)
entities-fixed_iff (e ∷ es) r =
    let one = run_entity-fixed_iff e r.0 in
    let rest = entities-fixed_iff es r.1 in
    (
      λ q.
          let fixed = fixed-map run_entity (e ∷ es) q in
          (one.0 fixed.0, rest.0 (map-fixed run_entity (λ x h. h) es fixed.1)),
      λ h. rw (one.1 h.0, rest.1 h.1) refl,
    )

-- A second run changes nothing in a schema exactly if it has no image.
pub run-fixed_iff : (s : Schema) → IsNormal s → (run (run s) ≡ run s) ↔ HasNoImages (run s)
run-fixed_iff s n =
    let ready =
      All-map_of IsMadeEntity IsReady run_entity run_entity-IsReady s.entities n.entities in
    let es = entities-fixed_iff (map run_entity s.entities) ready in
    (
      λ q. es.0 (ap (λ (x : Schema). x.entities) q),
      λ h i. record s {
        entities = es.1 h i;
        services = services_idem s.services i;
        metadata = profiling_idem s i;
      },
    )

pub run-IsNormal : (s : Schema) → IsNormal s → IsNormal (run s)
run-IsNormal s n = record {
  schema = tt;
  entities =
      All-map_of IsMadeEntity IsMadeEntity run_entity
        (λ e h.
          let r = run_entity-IsReady e h in
          (r.0, All-weaken IsSettled IsMadeField (λ f k. k.0) (run_entity e).fields r.1))
        s.entities n.entities;
  services =
      All-map_of IsMadeService IsMadeService trace_and_cache_all
        (λ v h. trace_and_cache_all-IsMade v h.1) s.services n.services;
  events = n.events;
  endpoints = n.endpoints;
}

-- what Apply leaves of a schema that the migration has upgraded
pub apply-upgraded :
    (s s' : Schema)
    → migrate_to_version (some s) "2" ≡ record { err = none; schema = some s' }
    → apply default_registry (some s) ≡ record { err = none; schema = some (run s') }
unfolding apply apply_migrated
apply-upgraded s s' e = rw e (apply_each-run s')

apply_migrated_failed :
    (e : Option String) (s : Option Schema)
    → e ≢ none
    → (apply_migrated default_registry e s).err ≢ none
unfolding apply_migrated
apply_migrated_failed none s n = absurd (n refl)
apply_migrated_failed (some err) s n = λ q. cc q

apply-Refused :
    (s : Schema)
    → Refused s (migrate_to_version (some s) "2")
    → (apply default_registry (some s)).err ≢ none
unfolding apply
apply-Refused s r = apply_migrated_failed _ _ r.0

apply-again :
    (s s' : Schema)
    → IsUpgrade s s'
    → (apply default_registry (some (run s')) ≡ record { err = none; schema = some (run s') })
      ↔ HasNoImages (run s')
apply-again s s' u =
    let fixed = migrate_fixed (run s') "2" two u.version (run-IsNormal s' u.normal) in
    let again = apply-upgraded (run s') (run s') fixed in
    let iff = run-fixed_iff s' u.normal in
    (
      λ e. iff.0 (some_inj.0 (ap (λ (m : Migrated). m.schema) (sym again ∙ e))),
      λ h. again ∙ ap (λ (x : Schema). record { err = none; schema = some x }) (iff.1 h),
    )

-- Of a schema that Apply of the default registry has let pass, a second Apply makes the same schema
-- again exactly if no field of an entity of the schema has an image attribute.
pub apply_idempotent_iff :
    (s s' : Schema)
    → apply default_registry (some s) ≡ record { err = none; schema = some s' }
    → (apply default_registry (some s') ≡ record { err = none; schema = some s' }) ↔ HasNoImages s'
apply_idempotent_iff s s' e = elim (migrate_to_version-upgrades s "2") [
  | inr h ↦ absurd (apply-Refused s h.1 (ap (λ (m : Migrated). m.err) e))
  | inl h ↦
      let (t, m, u) = h.1 in
      let same : run t ≡ s' =
        some_inj.0 (ap (λ (r : Migrated). r.schema) (sym (apply-upgraded s t m) ∙ e)) in
      subst
        (λ x.
          (apply default_registry (some x) ≡ record { err = none; schema = some x })
          ↔ HasNoImages x)
        same (apply-again s t u)
]
