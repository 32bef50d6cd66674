-- ===== src/Model.antt =====
-- crates/domain/src/model/mod.rs: payment ids, service tokens and the records that the crates share.
mod Hex
mod Pid
mod Token
mod Records
pub mod PidLaws
pub mod TokenLaws
unfoldable pub use Hex.*
unfoldable pub use Pid.*
unfoldable pub use Token.*
pub use Records.*
