-- ===== src/Hooks.antt =====
-- compiler/transformers/hooks.go: hooks on the attributes of entities, fields, services and methods,
-- and the registry that runs them over a schema, in place. A hook gets what the attribute stands on
-- and gives it back changed; those of the registry change nothing else.
pub mod Builtin
pub mod Process
pub mod Writes
pub mod Fields
pub mod Schemas
pub mod Runs
pub mod Reruns
