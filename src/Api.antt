-- ===== src/Api.antt =====
-- crates/api/src: the handlers over the shared state.
mod Http
mod Redeem
mod Tokens
mod Metrics
pub mod RedeemMoves
pub mod TokenMoves
pub mod RedeemBranches
pub mod RedeemAnswers
unfoldable pub use Http.*
unfoldable pub use Redeem.*
unfoldable pub use Tokens.*
unfoldable pub use Metrics.*
pub mod TokenAnswers
