-- ===== src/Projections.antt =====
-- compiler/pipeline.go: the projections for finders that select some fields of an entity
-- (synthesizeImplicitProjections), and the warnings about those that return a part of an entity
-- (emitSelectProjectionDiagnostics). Texts are mapped to lower case on the letters of ASCII.
mod Tokens
mod Fields
mod Finders
pub mod Counting
pub mod Keys
pub mod Selection
pub mod Reruns
mod Examples
unfoldable pub use Tokens.*
unfoldable pub use Fields.*
unfoldable pub use Finders.*
