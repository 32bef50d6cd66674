-- ===== src/Tests.antt =====
-- A concrete surrounding for the program, and the theorems applied in it.
mod Hex
mod Setting
mod Ledger
mod Monitor
mod Follow
mod Codes
mod Tokens
mod Config
mod Schedule
mod Address
mod Host
mod Boot
mod Wallet
