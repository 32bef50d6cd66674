-- ===== src/Monitor.antt =====
-- crates/monitor/src: reading transfers from the wallet and storing the payments among them.
mod Rpc
mod Pipeline
mod Worker
mod Wallet
pub mod Moves
pub mod Hints
pub mod Redeemable
pub mod Stored
pub mod Credits
pub mod Admitted
pub mod Conversion
unfoldable pub use Rpc.*
unfoldable pub use Pipeline.*
unfoldable pub use Worker.*
unfoldable pub use Wallet.*
pub mod Cursor
pub mod Asked
pub mod Advance
pub mod Survival
