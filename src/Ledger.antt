-- ===== src/Ledger.antt =====
-- The ledger that the stores keep, as an abstract state machine over the three tables: what the
-- API and the monitor may do to it, one statement at a time and in any order.
mod History
pub mod Growth
pub mod Soundness
pub use History.*
