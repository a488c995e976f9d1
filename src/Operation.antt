-- ===== src/Operation.antt =====
-- internal/operation: the requests of the protocol, each with its body and the reading of its response.
-- The interface Operation is a record of functions; KeyBytes is `none` for an operation that is no
-- KeyedOperation. A method that ignores its reader takes nothing from it.
mod Interface
pub mod Entry
pub mod Key
pub mod Bulk
pub mod Service
pub mod Iteration
pub mod Transaction
pub mod Listener
pub mod Counter
pub mod Multimap
pub use Interface.*
pub mod Tests
