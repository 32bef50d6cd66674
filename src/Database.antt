-- ===== src/Database.antt =====
-- The database below crates/storage: the rows of its three tables, the statements that the crate
-- builds, and the engine that runs them, which is a parameter with its laws.
mod Table
mod Entity
mod Statements
pub use Table.*
pub use Entity.*
pub use Statements.*
