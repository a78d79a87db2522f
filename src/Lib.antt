-- ===== src/Lib.antt =====
-- The Callora contracts: a model of the settlement, checkpoint, revenue pool and vault contracts, and
-- the theorems about them.
--
-- The repository holds four Soroban contracts. The vault takes deposits and forwards what callers
-- spend; the settlement contract (contracts/settlement) credits developers with what the vault pays
-- in, and pays them out; the revenue pool (contracts/revenue_pool) holds protocol revenue and
-- distributes it; the checkpoint contract (contracts/checkpoint) is a log of balance snapshots. They
-- share nothing but the ledger and the token contracts.
--
-- Prelude: lists, maps and tests over the native numbers, and the integers with the checked and
--   saturating operations of i128, u64 and u32 (Prelude/Int).
-- Host: a contract call as a function from a state to an outcome and a state. The outcome is a
--   value, an `Err`, or a panic; what was written before an `Err` is in the state that comes back, and
--   `commit` is the transaction: unless the call returned a value, the host restores the state.
--   `require_auth` asks the environment's `authorized`. The token contracts are outside the
--   repository: their balances are the field `ledger`, their `transfer` is an argument of the
--   operations that call it and may do anything, or panic, except where a theorem assumes that it
--   moves what it is told to (Host/Token, `IsToken`).
--
-- Settlement, contracts/settlement/src. `Store` is the storage, a field for each StorageKey.
--   Types: types.rs, errors.rs, timelock.rs. Access: init, set_usdc_token, set_admin, accept_admin,
--   cancel_admin_transfer, propose_vault, accept_vault, broadcast and upgrade of lib.rs. Index:
--   sorted_insert. Limits: limits.rs, and the caps and claim windows of lib.rs. Payments:
--   receive_payment, batch_receive_payment, force_credit_developer, and replay_guard.rs. Withdraw:
--   withdraw_developer_balance. Batch: batch.rs. Migration: admin.rs. Storage: migrate.rs. Pages:
--   pagination.rs and the balance views. Archive: archive.rs, with a store of its own. System: every
--   entry point that writes as a `Request`, a transaction as `step`, a sequence of transactions as
--   `run`. Liabilities: what the developers hold together, and how payments, batches of payments (Paid)
--   and withdrawals change it.
-- Checkpoint, contracts/checkpoint/src/lib.rs: Access for the admin, Records for the checkpoints, Log
--   and Range for what is proved of them, System for histories.
-- RevenuePool, contracts/revenue_pool/src: Access, Yield, Distribute, Drain (emergency.rs), Chunks
--   (chunk_iter), System for histories.
-- Vault, contracts/vault/src: Access for the owner's and the admin's operations of lib.rs, Money for
--   deposit, deduct and batch_deduct, Timelock for the timelocked actions of lib.rs and timelock.rs,
--   System for histories. What the settlement client's record_deduction does is an argument. Rate:
--   rate_limit.rs. Cold: cold_storage.rs. Rescue: rescue.rs, views.rs and the guard of limits.rs.
--   Validators: validators.rs. Codes: errors.rs, whose VaultError Cold and the guard use; that of lib.rs
--   is in Types. The entry points of lib.rs call none of Rate, Cold, Rescue and Validators.
-- Topics: the events.rs of the four contracts, each function as a constructor with its text,
--   and the topic that migrate.rs writes out.
-- Examples, below each contract, applies the theorems to concrete transactions.
--
-- Bounds and fuel: addresses, hashes and symbols are numbers that are compared and stored; an i128 is
-- an integer and every operation on it carries the range test of the source; timestamps and counters
-- are natural numbers, with the test of `checked_add` where the source has it. Loops are recursion on
-- the list they run over, or on the rounds that a batch size leaves. The reader of pages (Pages/Walk,
-- Pages/Reader) and the caller's loop over the pages of the migration (Storage/Loop) run on fuel, one
-- unit per call: more units than the index has entries are enough, since a page that has a successor
-- is not empty.
--
-- Not modelled: the capability bitmap of the vault, storage TTLs and archival, the encoding of keys and
-- of the events' payloads, the numeric error codes of lib.rs and of the other contracts, the effect of
-- installing new code, and that the host refuses a second authorisation of one address in one frame. A
-- model's event list is what the contract published, the newest first.
pub mod Prelude
pub mod Host
pub mod Settlement
pub mod Checkpoint
pub mod RevenuePool
pub mod Vault
pub mod Topics
