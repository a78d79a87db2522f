-- ===== src/Checkpoint.antt =====
-- The checkpoint contract, contracts/checkpoint/src/lib.rs and errors.rs.
pub mod Types
pub mod Access
pub mod Records
pub mod Log
pub mod Range
pub mod System
mod Examples
