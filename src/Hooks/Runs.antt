-- ===== src/Hooks/Runs.antt =====
-- A run of the registered hooks over a schema whose metadata are JSON values.
use mathlib.Core.List.{map-id}
use ang.Common.{
  ◌≡◌, ◌≢◌, refl, String, Option, none, some, List, [], lookup, All, All_trivial, All-weaken,
}
use ang.Values.{Json, Metadata, entries}
use ang.Ir.{Attribute, Schema, Entity, Service, Method}
use ang.Versioning.{migrate_to_version}
use ang.Versioning.Upgrade.{Refused}
use ang.Abi.Contract.{IsJson, IsJsonMap, HasJson}
use ang.Hooks.Builtin.{Range}
use ang.Hooks.Process.{
  default_hook_registry, held_in, attributes_in, process_field, process_method, process_entity,
  process_service, process_parts, process_migrated, process, run_attributes, after,
}
use ang.Hooks.Fields.{hooked_field, process_field-hooked}
use ang.Hooks.Schemas.{hooked_entity, hooked, each_done, lookup-IsJson}

process_migrated_failed :
    (range : Range) (held : Json → List Attribute) (e : Option String) (s : Option Schema)
    → e ≢ none
    → (process_migrated held (default_hook_registry range) e s).err ≢ none
unfolding process_migrated
process_migrated_failed range held none s n = absurd (n refl)
process_migrated_failed range held (some err) s n = λ q. cc q

-- A JSON value is no list of attributes.
abbrev pub HoldsNothing : (Json → List Attribute) → Type 0
HoldsNothing held = (v : Json) → IsJson v → held v ≡ []

module _ (range : Range) (held : Json → List Attribute) (nothing : HoldsNothing held) where
  held_in_none :
      (m : List (String × Json)) (found : Option Json)
      → All (λ (e : String × Json). IsJson e.1) m
      → lookup "attributes" m ≡ found
      → held_in held found ≡ []
  unfolding held_in
  held_in_none m none h e = refl
  held_in_none m (some v) h e = nothing v (lookup-IsJson "attributes" m h e)

  attributes_in_none : (m : Metadata) → IsJsonMap m → attributes_in held m ≡ []
  unfolding entries lookup held_in
  attributes_in_none none h = refl
  attributes_in_none (some m) h = held_in_none m (lookup "attributes" m) h refl

  entity_hooked :
      (e : Entity)
      → IsJsonMap e.metadata
      → process_entity held (default_hook_registry range) e ≡ ((hooked_entity range) e, none)
  unfolding run_attributes after
  entity_hooked e h =
      rw
        (
          attributes_in_none e.metadata h,
          each_done (process_field (default_hook_registry range) e.name) (hooked_field range)
              (λ f t. process_field-hooked range e.name f) e.fields (All_trivial e.fields),
        )
        refl

  method_hooked :
      (service : String) (m : Method)
      → IsJsonMap m.metadata
      → process_method held (default_hook_registry range) service m ≡ (m, none)
  unfolding run_attributes
  method_hooked service m h = rw (attributes_in_none m.metadata h) refl

  service_hooked :
      (s : Service)
      → (IsJsonMap s.metadata × All (λ (m : Method). IsJsonMap m.metadata) s.methods)
      → process_service held (default_hook_registry range) s ≡ (s, none)
  unfolding run_attributes after
  service_hooked s h =
      let methods =
        each_done (process_method held (default_hook_registry range) s.name) (λ m. m)
          (λ m k. method_hooked s.name m k) s.methods h.1 in
      rw (attributes_in_none s.metadata h.0, methods, map-id s.methods) refl

  -- The hooks leave a schema with JSON metadata (hooked range), and report no error.
  parts_hooked :
      (s : Schema)
      → HasJson s
      → process_parts held (default_hook_registry range) s ≡ ((hooked range) s, none)
  unfolding after
  parts_hooked s h =
      let es =
        each_done {P = λ e. IsJsonMap e.metadata}
          (process_entity held (default_hook_registry range)) (hooked_entity range) entity_hooked
          s.entities (All-weaken _ _ (λ e k. k.0) s.entities h.1.0) in
      let vs =
        each_done (process_service held (default_hook_registry range)) (λ v. v) service_hooked
          s.services
          (All-weaken _ _ (λ v k. (k.0, All-weaken _ _ (λ m i. i.0) v.methods k.1)) s.services
            h.1.1.0) in
      rw (es, vs, map-id s.services) refl

  pub process-upgraded :
      (s s' : Schema)
      → migrate_to_version (some s) "2" ≡ record { err = none; schema = some s' }
      → HasJson s'
      → process held (default_hook_registry range) (some s)
        ≡ record { err = none; schema = some ((hooked range) s') }
  unfolding process process_migrated
  process-upgraded s s' e h = rw (e, parts_hooked s' h) refl

  pub process-Refused :
      (s : Schema)
      → Refused s (migrate_to_version (some s) "2")
      → (process held (default_hook_registry range) (some s)).err ≢ none
  unfolding process
  process-Refused s r = process_migrated_failed range held _ _ r.0
