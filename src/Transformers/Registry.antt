-- ===== src/Transformers/Registry.antt =====
-- The registry of transformers, in compiler/transformers/transformer.go.
use Prim.Native.String.{String, ◌++◌}
use ang.Common.{Option, none, some, List, [], ◌∷◌}
use ang.Ir.{Schema}
use ang.Versioning.{Migrated, migrate_to_current}
use ang.Transformers.Entities.{
  transform_images, transform_validations, transform_timestamps, transform_soft_deletes,
}
use ang.Transformers.Services.{transform_tracing, transform_caching, transform_profiling}

-- a transformer: what it makes of a schema, and its error
pub record Transformer : Type 0 where
  pub name : String
  pub transform : Schema → Schema × Option String

-- one that never fails
abbrev pub transformer : String → (Schema → Schema) → Transformer
transformer name change = record { name = name; transform = λ s. (change s, none) }

-- the loop over the transformers, after one that left this
unfoldable pub continue_with : (Schema → Migrated) → Schema × Option String → Migrated
continue_with next (s, none) = next s
continue_with next (s, some err) = record { err = some err; schema = some s }

unfoldable pub apply_each : List Transformer → Schema → Migrated
unfolding continue_with
apply_each [] s = record { err = none; schema = some s }
apply_each (t ∷ ts) s = continue_with (apply_each ts) (t.transform s)

-- the loop after the migration
unfoldable pub apply_migrated : List Transformer → Option String → Option Schema → Migrated
apply_migrated ts none (some s) = apply_each ts s
apply_migrated ts none none = record { err = none; schema = none }
apply_migrated ts (some err) s = record { err = some ("ir version migration: " ++ err); schema = s }

-- `Registry.Apply`
unfoldable pub apply : List Transformer → Option Schema → Migrated
unfolding apply_migrated apply_each
apply ts s = let m = migrate_to_current s in apply_migrated ts m.err m.schema

-- `DefaultRegistry`
abbrev pub default_registry : List Transformer
default_registry =
    transformer "image" (transform_images "")
    ∷ transformer "validation" transform_validations
    ∷ transformer "timestamps" transform_timestamps
    ∷ transformer "soft_delete" transform_soft_deletes
    ∷ transformer "tracing" transform_tracing
    ∷ transformer "caching" transform_caching
    ∷ transformer "profiling" transform_profiling
    ∷ []
