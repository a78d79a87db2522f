-- ===== src/RevenuePool.antt =====
-- The revenue pool contract, contracts/revenue_pool/src/lib.rs and emergency.rs.
pub mod Types
pub mod Access
pub mod Yield
pub mod Distribute
pub mod Drain
pub mod Chunks
pub mod System
mod Examples
