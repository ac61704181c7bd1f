-- ===== src/Versioning.antt =====
-- compiler/ir/versioning.go: upgrades of a schema, in place, to the current version of the IR.
-- Its proofs are in the modules below.
pub mod Invariants
pub mod Upgrade
mod Examples
use ang.Common.{
  ℕ, zero, suc, String, Bool, true, false, not, ◌||◌, Option, none, some, List, [], ◌∷◌, ◌==◌, map,
  if◌then◌else◌,
}
use ang.Text.{trim_space, concat, quote}
use ang.Ir.{Schema, Entity, Field, Service, Method, Source, Event, Endpoint}
use ang.Values.{Metadata}

-- `CurrentVersion`
abbrev pub current_version : String
current_version = "2"

-- `ensureMap`: a nil map becomes an empty one
unfoldable pub ensure_map : Metadata → Metadata
ensure_map none = some []
ensure_map (some m) = some m

abbrev pub ensure_field : Field → Field
ensure_field f = record f { metadata = ensure_map f.metadata }

abbrev pub ensure_entity : Entity → Entity
ensure_entity e = record e { metadata = ensure_map e.metadata; fields = map ensure_field e.fields }

abbrev pub ensure_source : Source → Source
ensure_source s = record s { metadata = ensure_map s.metadata }

abbrev pub ensure_method : Method → Method
ensure_method m = record m {
  sources = map ensure_source m.sources;
  metadata = ensure_map m.metadata;
}

abbrev pub ensure_service : Service → Service
ensure_service s = record s {
  methods = map ensure_method s.methods;
  metadata = ensure_map s.metadata;
}

abbrev pub ensure_event : Event → Event
ensure_event e = record e { metadata = ensure_map e.metadata }

abbrev pub ensure_endpoint : Endpoint → Endpoint
ensure_endpoint e = record e { metadata = ensure_map e.metadata }

abbrev pub normalize_v1_invariants : Schema → Schema
normalize_v1_invariants s = record s {
  entities = map ensure_entity s.entities;
  services = map ensure_service s.services;
  events = map ensure_event s.events;
  endpoints = map ensure_endpoint s.endpoints;
  metadata = ensure_map s.metadata;
}

abbrev pub normalize_v2_invariants : Schema → Schema
normalize_v2_invariants s = normalize_v1_invariants s

abbrev pub migrate_v0_to_v1 : Schema → Schema
migrate_v0_to_v1 s = normalize_v1_invariants (record s { ir_version = "1" })

abbrev pub migrate_v1_to_v2 : Schema → Schema
migrate_v1_to_v2 s =
    normalize_v2_invariants (record (normalize_v1_invariants s) { ir_version = "2" })

pub record MigrationStep : Type 0 where
  pub from : String
  pub to : String
  pub apply : Schema → Schema

abbrev pub migration_registry : List MigrationStep
migration_registry =
    record { from = "0"; to = "1"; apply = migrate_v0_to_v1 }
    ∷ record { from = "1"; to = "2"; apply = migrate_v1_to_v2 }
    ∷ []

unfoldable pub first_from : String → List MigrationStep → Option MigrationStep
first_from from [] = none
first_from from (step ∷ steps) = if step.from == from then some step else first_from from steps

-- `nextMigrationStep`
abbrev pub next_migration_step : String → Option MigrationStep
next_migration_step from = first_from from migration_registry

unfoldable pub normalize_version : String → String
normalize_version raw = let v = trim_space raw in if v == "" || v == "0" then "0" else v

pub data Loop : Type 0 where
  reached : Schema → Loop
  no_path : (from : String) → Schema → Loop
  out_of_fuel : Loop

-- the body of the loop, with `again` for its next round
unfoldable pub apply_step : (String → Schema → Loop) → String → Schema → Option MigrationStep → Loop
apply_step again current s none = no_path current s
apply_step again current s (some step) =
    let s' = step.apply s in again (normalize_version s'.ir_version) s'

-- `for current != target`
unfoldable pub migrate_loop : ℕ → String → String → Schema → Loop
unfolding apply_step first_from
migrate_loop zero target current s = out_of_fuel
migrate_loop (suc fuel) target current s =
    if current == target
    then reached s
    else apply_step (migrate_loop fuel target) current s (next_migration_step current)

-- An error, and the schema as the call leaves it.
pub record Migrated : Type 0 where
  pub err : Option String
  pub schema : Option Schema

abbrev pub failed : List String → Option Schema → Migrated
failed message s = record { err = some (concat message); schema = s }

-- the invariants of the target
unfoldable pub finish : String → Loop → Migrated
finish target (reached s) =
    if target == "1"
    then record { err = none; schema = some (normalize_v1_invariants s) }
    else if target == "2"
    then record { err = none; schema = some (normalize_v2_invariants s) }
    else failed
        ("unsupported target ir_version "
          ∷ quote target
          ∷ " (current="
          ∷ current_version
          ∷ ")"
          ∷ [])
        (some s)
finish target (no_path from s) =
    failed ("no migration path from ir_version " ∷ quote from ∷ " to " ∷ quote target ∷ []) (some s)
finish target out_of_fuel = record { err = none; schema = none }

-- Two steps lead from the oldest version to the current one, so the loop tests its condition at
-- most three times.
abbrev pub rounds : ℕ
rounds = 3

-- `MigrateToVersion`, where none is a nil schema
unfoldable pub migrate_to_version : Option Schema → String → Migrated
unfolding normalize_version migrate_loop finish
migrate_to_version none target_version = failed ("nil schema" ∷ []) none
migrate_to_version (some s) target_version =
    let target = normalize_version target_version in
    let current = normalize_version s.ir_version in
    if not (target == current_version)
    then failed
        ("unsupported target ir_version "
          ∷ quote target_version
          ∷ " (current="
          ∷ current_version
          ∷ ")"
          ∷ [])
        (some s)
    else if not (current == "0" || current == "1" || current == "2")
    then failed
        ("unsupported ir_version " ∷ quote s.ir_version ∷ " (current=" ∷ current_version ∷ ")" ∷ [])
        (some s)
    else finish target (migrate_loop rounds target current s)

-- `MigrateToCurrent`
abbrev pub migrate_to_current : Option Schema → Migrated
migrate_to_current s = migrate_to_version s current_version
