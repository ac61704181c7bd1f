-- ===== src/Transformers.antt =====
-- compiler/transformers/transformer.go and compiler/transformers/advanced.go: the transformers, which
-- add fields and metadata to a schema in place, and their registry. The maps of metadata are taken to
-- be distinct.
pub mod Loops
pub mod Entities
pub mod Services
pub mod Registry
pub mod Writes
pub mod Images
pub mod Fields
pub mod Methods
pub mod JsonRuns
pub mod EntityRuns
pub mod Reruns
mod Examples
