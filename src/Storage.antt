-- ===== src/Storage.antt =====
-- crates/storage/src: the stores over the database, one module to a source file.
mod PaymentStore
mod TokenStore
mod StateStore
mod Connection
mod Schema
mod Builder
pub mod Moves
pub mod TokenMoves
pub mod Replies
pub mod Runs
pub mod TokenRuns
pub mod Catalog
pub mod SchemaLaws
unfoldable pub use PaymentStore.*
unfoldable pub use TokenStore.*
unfoldable pub use StateStore.*
unfoldable pub use Connection.*
unfoldable pub use Schema.*
unfoldable pub use Builder.*
