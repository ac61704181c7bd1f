-- ===== src/Normalizer.antt =====
-- compiler/normalizer/types.go: the application as it is read from CUE. A slice and a map are lists,
-- and nil is the empty one; a pointer is an option. The inline fields of an item type are left out.
-- A zero value that is needed has the name of its type.
mod Fields
mod Entities
mod Methods
mod Endpoints
mod Repositories
mod Settings
pub use Fields.*
pub use Entities.*
pub use Methods.*
pub use Endpoints.*
pub use Repositories.*
pub use Settings.*
