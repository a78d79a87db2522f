-- ===== src/Vault.antt =====
-- The vault contract, contracts/vault/src/lib.rs with timelock.rs and limits.rs.
pub mod Types
pub mod Access
pub mod Money
pub mod Timelock
pub mod System
pub mod Rate
pub mod Codes
pub mod Cold
pub mod Rescue
pub mod Validators
mod Examples
