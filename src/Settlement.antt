-- ===== src/Settlement.antt =====
-- The settlement contract (contracts/settlement/src).
pub mod Types
pub mod Access
pub mod Index
pub mod Limits
pub mod Payments
pub mod Withdraw
pub mod Migration
pub mod Storage
pub mod Pages
pub mod Archive
pub mod Batch
pub mod System
pub mod Liabilities
mod Examples
