-- ===== src/Topics.antt =====
-- The topics of the events that the contracts publish, the events.rs of each contract.
mod Symbols
mod Checkpoint
mod RevenuePool
mod Settlement
mod Vault
