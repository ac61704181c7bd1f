-- ===== src/Hooks/Process.antt =====
-- The registry of hooks, and its run over a schema.
use ang.Common.{String, Option, none, some, List, [], ◌∷◌, ◌++◌, lookup, ◌==◌, if◌then◌else◌}
use ang.Common.Writes.{put}
use ang.Text.{concat}
use ang.Values.{Json, Metadata, entries}
use ang.Ir.{Schema, Entity, Field, Attribute, Service, Method}
use ang.Versioning.{Migrated, migrate_to_current}
use ang.Hooks.Builtin.{Hook, Range, default_hooks}

-- the map of the registry, from the name of an attribute to its hooks
abbrev pub Registry : Type 0
Registry = List (String × List Hook)

-- `r.hooks[name]`, which is nil if it is missing
unfoldable pub hooks_for : Registry → String → List Hook
hooks_for [] name = []
hooks_for ((key, hs) ∷ r) name = if key == name then hs else hooks_for r name

-- `HookRegistry.Register`
abbrev pub register : Registry → Hook → Registry
register r h = put h.attribute (hooks_for r h.attribute ++ h ∷ []) r

unfoldable pub register_all : Registry → List Hook → Registry
register_all r [] = r
register_all r (h ∷ hs) = register_all (register r h) hs

-- `DefaultHookRegistry`
abbrev pub default_hook_registry : Range → Registry
default_hook_registry range = register_all [] (default_hooks range)

-- the next statement, unless an error has been returned
unfoldable pub after {ℓ} :
    {A : Type ℓ} → A × Option String → (A → A × Option String) → A × Option String
after (x, none) next = next x
after (x, some err) next = (x, some err)

-- the error of a call on something, with what is known about the call
abbrev pub wrap {ℓ} : {A : Type ℓ} → List String → A × Option String → A × Option String
wrap context (x, none) = (x, none)
wrap context (x, some err) = (x, some (concat (context ++ ": " ∷ err ∷ [])))

unfoldable pub each_after {ℓ} :
    {A : Type ℓ} → A × Option String → List A → List A × Option String → List A × Option String
each_after (x, none) xs (ys, err) = (x ∷ ys, err)
each_after (x, some err) xs rest = (x ∷ xs, some err)

-- a loop over a slice whose elements are changed in place, up to the first error
unfoldable pub each {ℓ} : {A : Type ℓ} → (A → A × Option String) → List A → List A × Option String
each change [] = ([], none)
each change (x ∷ xs) = each_after (change x) xs (each change xs)

-- the loop over the hooks of an attribute
unfoldable pub run_hooks {ℓ} :
    {A : Type ℓ}
    → (Hook → A → Attribute → A × Option String)
    → List String
    → List Hook
    → Attribute
    → A
    → A × Option String
run_hooks call context [] a x = (x, none)
run_hooks call context (h ∷ hs) a x =
    after (wrap context (call h x a)) (run_hooks call context hs a)

-- the loop over the attributes of something that is called this, such as `entity User`
unfoldable pub run_attributes {ℓ} :
    {A : Type ℓ}
    → (Hook → A → Attribute → A × Option String)
    → Registry
    → List String
    → List Attribute
    → A
    → A × Option String
run_attributes call r name [] x = (x, none)
run_attributes call r name (a ∷ rest) x =
    after (run_hooks call ("hook " ∷ a.name ∷ " on " ∷ name) (hooks_for r a.name) a x)
      (run_attributes call r name rest)

abbrev pub process_field : Registry → String → Field → Field × Option String
process_field r entity f =
    run_attributes (λ h. h.on_field) r ("field " ∷ entity ∷ "." ∷ f.name ∷ []) f.attributes f

-- an entity with these fields, and an error
abbrev pub with_fields : Entity → List Field × Option String → Entity × Option String
with_fields e (fs, err) = (record e { fields = fs }, err)

abbrev pub with_methods : Service → List Method × Option String → Service × Option String
with_methods s (ms, err) = (record s { methods = ms }, err)

abbrev pub with_entities : Schema → List Entity × Option String → Schema × Option String
with_entities s (es, err) = (record s { entities = es }, err)

abbrev pub with_services : Schema → List Service × Option String → Schema × Option String
with_services s (vs, err) = (record s { services = vs }, err)

abbrev pub as_migrated : Schema × Option String → Migrated
as_migrated (s, err) = record { err = err; schema = some s }

-- the attributes that a value of a Go type that is none of JSON's holds, if it is a []ir.Attribute
module _ (held : Json → List Attribute) where
  unfoldable pub held_in : Option Json → List Attribute
  held_in none = []
  held_in (some v) = held v

  -- `getEntityAttrs`, `getServiceAttrs` and `getMethodAttrs`, given the metadata
  abbrev pub attributes_in : Metadata → List Attribute
  attributes_in m = held_in (lookup "attributes" (entries m))

  abbrev pub process_entity : Registry → Entity → Entity × Option String
  process_entity r e =
      after
        (run_attributes (λ h. h.on_entity) r ("entity " ∷ e.name ∷ []) (attributes_in e.metadata) e)
        (λ e'. with_fields e' (each (process_field r e'.name) e'.fields))

  abbrev pub process_method : Registry → String → Method → Method × Option String
  process_method r service m =
      run_attributes (λ h. h.on_method) r ("method " ∷ service ∷ "." ∷ m.name ∷ [])
        (attributes_in m.metadata) m

  abbrev pub process_service : Registry → Service → Service × Option String
  process_service r s =
      after
        (run_attributes (λ h. h.on_service) r ("service " ∷ s.name ∷ []) (attributes_in s.metadata)
          s)
        (λ s'. with_methods s' (each (process_method r s'.name) s'.methods))

  -- the two loops over a schema
  abbrev pub process_parts : Registry → Schema → Schema × Option String
  process_parts r s =
      after (with_entities s (each (process_entity r) s.entities))
        (λ s'. with_services s' (each (process_service r) s'.services))

  -- the loops after the migration
  unfoldable pub process_migrated : Registry → Option String → Option Schema → Migrated
  process_migrated r none (some s) = as_migrated (process_parts r s)
  process_migrated r none none = record { err = none; schema = none }
  process_migrated r (some err) s = record {
    err = some (concat ("ir version migration: " ∷ err ∷ []));
    schema = s;
  }

  -- `HookRegistry.Process`
  unfoldable pub process : Registry → Option Schema → Migrated
  unfolding process_migrated
  process r s = let m = migrate_to_current s in process_migrated r m.err m.schema
