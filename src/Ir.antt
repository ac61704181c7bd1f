-- ===== src/Ir.antt =====
-- compiler/ir/ir.go: the language-agnostic representation of an application. A slice and a map are
-- lists, but the nil map of metadata is told apart; a pointer is an option. A field that none of the
-- modelled operations reads or writes is left out. A zero value that is needed has the name of its type.
mod Fields
mod Entities
mod Methods
mod Endpoints
mod Repositories
mod Settings
mod Schemas
pub use Fields.*
pub use Entities.*
pub use Methods.*
pub use Endpoints.*
pub use Repositories.*
pub use Settings.*
pub use Schemas.*
