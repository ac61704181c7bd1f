-- ===== src/Convert.antt =====
-- compiler/ir/convert.go: the conversion of what the normalizer has read to the representation that
-- the emitters work on. A nil slice and an empty one are the same list, so initializeSlice leaves a
-- list as it is. The inline fields of an item type are left out.
mod Fields
mod Entities
mod Methods
mod Repositories
mod Flows
mod Endpoints
mod Settings
mod Schema
unfoldable pub use Fields.*
unfoldable pub use Entities.*
unfoldable pub use Methods.*
unfoldable pub use Repositories.*
unfoldable pub use Flows.*
unfoldable pub use Endpoints.*
unfoldable pub use Settings.*
unfoldable pub use Schema.*
