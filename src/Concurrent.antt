-- ===== src/Concurrent.antt =====
-- The handlers and the monitor as tasks of one process: the code between two `await`s is a step, and
-- the steps of different tasks interleave.
pub mod Task
pub mod Redeem
pub mod RedeemAlone
pub mod Tokens
pub mod Monitor
pub mod MonitorAlone
pub mod IssueLawful
pub mod RedeemLawful
pub mod TokensLawful
pub mod MonitorLawful
pub mod Schedule
pub mod Winning
pub mod Once
pub mod Race
pub mod Overtake
