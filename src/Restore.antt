-- ===== src/Restore.antt =====
-- compiler/emitter/ir_emitter.go: the way back, from the intermediate representation to the types
-- of the normalizer, which the templates of the emitters read. Its proofs are in RoundTrip.
mod Fields
mod Entities
mod Methods
mod Repositories
mod Flows
mod Endpoints
unfoldable pub use Fields.*
unfoldable pub use Entities.*
unfoldable pub use Methods.*
unfoldable pub use Repositories.*
unfoldable pub use Flows.*
unfoldable pub use Endpoints.*
