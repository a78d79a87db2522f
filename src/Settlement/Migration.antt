-- ===== src/Settlement/Migration.antt =====
-- The timelocked move of a developer's balance: contracts/settlement/src/admin.rs and timelock.rs.
pub mod Effect
use callora_contracts.Prelude.{◌==◌, ltb, Option, none, some, put, put₂, remove, if◌then◌else◌}
use callora_contracts.Prelude.Int.{ℤ, pos, leb_ℤ, checked_add, checked_sub, checked_add_u64}
use callora_contracts.Host.{Address, Env, with_error, ◌>>=◌, ◌>>◌, gets, modify, abort_if, or_abort}
use callora_contracts.Settlement.Types.{
  Call, Event, PendingDeveloperMigration, developer_overflow, usdc_token_not_configured,
  migration_same_address, invalid_migration_target, no_developer_balance, timelock_overflow,
  migration_not_found, timelock_not_expired, migration_balance_changed,
  developer_migration_timelock_seconds,
}
use callora_contracts.Settlement.Access.{publish, require_admin}
use callora_contracts.Settlement.Index.{sorted_insert}
use callora_contracts.Settlement.Payments.{balance_of, index_of}

-- `get_usdc` of admin.rs
abbrev pub get_usdc : Call Address
get_usdc = do or_abort (with_error usdc_token_not_configured) (← gets (λ s. s.usdc))

unfoldable pub propose_balance_migration : Env → Address → Address → Address → Call (Unit {0})
unfolding require_admin
propose_balance_migration env caller from to = do
  admin ← require_admin env caller
  abort_if (from == to) (with_error migration_same_address)
  abort_if (to == env.contract) (with_error invalid_migration_target)
  usdc ← get_usdc
  amount ← gets (λ s. balance_of s from usdc)
  abort_if (leb_ℤ amount (pos 0)) (with_error no_developer_balance)
  execute_after ←
      or_abort (with_error timelock_overflow)
        (checked_add_u64 env.timestamp developer_migration_timelock_seconds)
  let migration : PendingDeveloperMigration = record {
    from = from;
    to = to;
    amount = amount;
    proposed_at = env.timestamp;
    execute_after = execute_after;
  }
  modify λ s. record s { pending_migration = put from migration s.pending_migration }
  publish (Event.admin_migration_proposed from migration)

-- `checked_sub(amount).filter(|b| *b >= 0)`
abbrev pub debit : ℤ → ℤ → Option ℤ
debit balance amount = elim (checked_sub balance amount) [
  | none ↦ none
  | some b ↦ if leb_ℤ (pos 0) b then some b else none
]

unfoldable pub execute_balance_migration : Env → Address → Address → Call (Unit {0})
unfolding require_admin
execute_balance_migration env caller from = do
  admin ← require_admin env caller
  pending ← gets (λ s. s.pending_migration from)
  migration ← or_abort (with_error migration_not_found) pending
  abort_if (ltb env.timestamp migration.execute_after) (with_error timelock_not_expired)
  usdc ← get_usdc
  source ← gets (λ s. balance_of s from usdc)
  new_source ← or_abort (with_error migration_balance_changed) (debit source migration.amount)
  destination ← gets (λ s. balance_of s migration.to usdc)
  new_destination ←
      or_abort (with_error developer_overflow) (checked_add destination migration.amount)
  modify λ s. record s {
    developer_balance =
        put₂ migration.to usdc new_destination (put₂ from usdc new_source s.developer_balance);
    developer_index = some (sorted_insert migration.to (index_of s));
    pending_migration = remove from s.pending_migration;
  }
  publish (
      Event.admin_migration from migration.to (record {
        from = from;
        to = migration.to;
        amount = migration.amount;
        executed_at = env.timestamp;
      }))
