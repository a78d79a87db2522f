-- ===== src/Vault/Timelock.antt =====
-- The timelocked actions of the vault: pausing, upgrading and sweeping, of lib.rs with timelock.rs.
pub mod Delay
use callora_contracts.Prelude.{
  ℕ, ◌+◌, ◌-◌, ◌^◌, Bool, true, Option, none, some, get_or, ◌==◌, ◌||◌, ltb, is_some, if◌then◌else◌,
}
use callora_contracts.Prelude.Int.{ℤ, pos, leb_ℤ, ltb_ℤ, checked_add_u64}
use callora_contracts.Host.{
  Address, Hash, Env, Transfer, ◌>>=◌, ◌>>◌, pure, gets, modify, fail_if, or_fail,
}
use callora_contracts.Vault.Types.{
  Event, Store, Call, PendingPause, PendingUpgrade, PendingSweep, default_timelock_seconds,
  min_timelock_seconds, max_timelock_seconds,
}
use callora_contracts.Vault.Types.VaultError.{
  not_initialized, amount_not_positive, insufficient_balance, proposal_not_found,
  timelock_not_expired, timelock_overflow, invalid_timelock_window,
}
use callora_contracts.Vault.Access.{publish, get_admin, require_admin}
use callora_contracts.Vault.Money.{move_tokens}

abbrev pub get_timelock_window : Store → ℕ
get_timelock_window s = get_or default_timelock_seconds s.timelock_window

-- The difference of `u64::MAX` and a `u64` is never missing.
unfoldable pub saturating_deadline : ℕ → ℕ → Option ℕ
saturating_deadline proposed_at window =
    if window == 0
    then some proposed_at
    else if ltb (2 ^ 64 - 1 - proposed_at) window
    then none
    else checked_add_u64 proposed_at window

-- The event carries the window that is stored by then as the old one.
unfoldable pub set_timelock_window : Env → Address → ℕ → Call (Unit {0})
unfolding require_admin
set_timelock_window env caller window = do
  require_admin env caller
  fail_if (ltb window min_timelock_seconds || ltb max_timelock_seconds window)
      invalid_timelock_window
  modify λ s. record s { timelock_window = some window }
  old ← gets get_timelock_window
  publish (Event.timelock_window_changed caller old window)

-- `proposed_at + window`, or `TimelockOverflow`.
unfoldable pub deadline : Env → Call ℕ
unfolding saturating_deadline
deadline env = do
  window ← gets get_timelock_window
  or_fail timelock_overflow (saturating_deadline env.timestamp window)

unfoldable pub propose_pause : Env → Address → Call (Unit {0})
unfolding require_admin deadline
propose_pause env caller = do
  require_admin env caller
  execute_after ← deadline env
  let proposal : PendingPause = record {
    proposed_at = env.timestamp;
    execute_after = execute_after;
  }
  modify λ s. record s { pending_pause = some proposal }
  publish (Event.pause_proposed caller env.timestamp execute_after)

unfoldable pub execute_pause : Env → Address → Call (Unit {0})
unfolding require_admin
execute_pause env caller = do
  require_admin env caller
  pending ← gets (λ s. s.pending_pause)
  proposal ← or_fail proposal_not_found pending
  fail_if (ltb env.timestamp proposal.execute_after) timelock_not_expired
  modify λ s. record s { paused = some true }
  modify λ s. record s { pending_pause = none }
  publish (Event.pause_executed caller env.timestamp)
  publish (Event.vault_paused caller)

unfoldable pub cancel_pause : Env → Address → Call (Unit {0})
unfolding require_admin
cancel_pause env caller = do
  require_admin env caller
  existing ← gets (λ s. s.pending_pause)
  modify λ s. record s { pending_pause = none }
  publish (Event.pause_cancelled caller (is_some existing))

unfoldable pub propose_upgrade : Env → Address → Hash → Call (Unit {0})
unfolding require_admin deadline
propose_upgrade env caller new_wasm_hash = do
  require_admin env caller
  execute_after ← deadline env
  let proposal : PendingUpgrade = record {
    wasm_hash = new_wasm_hash;
    proposed_at = env.timestamp;
    execute_after = execute_after;
  }
  modify λ s. record s { pending_upgrade = some proposal }
  publish (Event.upgrade_proposed caller new_wasm_hash env.timestamp execute_after)

unfoldable pub execute_upgrade : Env → Address → Call (Unit {0})
unfolding require_admin
execute_upgrade env caller = do
  require_admin env caller
  pending ← gets (λ s. s.pending_upgrade)
  proposal ← or_fail proposal_not_found pending
  fail_if (ltb env.timestamp proposal.execute_after) timelock_not_expired
  admin ← get_admin
  modify λ s. record s { code = some proposal.wasm_hash }
  modify λ s. record s { contract_version = some proposal.wasm_hash }
  modify λ s. record s { pending_upgrade = none }
  publish (Event.upgrade_executed caller env.timestamp)
  publish (Event.upgraded caller proposal.wasm_hash)

unfoldable pub cancel_upgrade : Env → Address → Call (Unit {0})
unfolding require_admin
cancel_upgrade env caller = do
  require_admin env caller
  existing ← gets (λ s. s.pending_upgrade)
  modify λ s. record s { pending_upgrade = none }
  publish (Event.upgrade_cancelled caller (is_some existing))

unfoldable pub propose_sweep : Env → Address → Address → ℤ → Call (Unit {0})
unfolding require_admin deadline
propose_sweep env caller to amount = do
  require_admin env caller
  fail_if (leb_ℤ amount (pos 0)) amount_not_positive
  execute_after ← deadline env
  let proposal : PendingSweep = record {
    to = to;
    amount = amount;
    proposed_at = env.timestamp;
    execute_after = execute_after;
  }
  modify λ s. record s { pending_sweep = some proposal }
  publish (Event.sweep_proposed caller to amount env.timestamp execute_after)

unfoldable pub execute_sweep : Transfer → Env → Address → Call (Unit {0})
unfolding require_admin
execute_sweep transfer env caller = do
  require_admin env caller
  pending ← gets (λ s. s.pending_sweep)
  proposal ← or_fail proposal_not_found pending
  fail_if (ltb env.timestamp proposal.execute_after) timelock_not_expired
  configured ← gets (λ s. s.usdc_token)
  usdc ← or_fail not_initialized configured
  held ← gets (λ s. s.ledger usdc env.contract)
  fail_if (ltb_ℤ held proposal.amount) insufficient_balance
  move_tokens transfer usdc env.contract proposal.to proposal.amount
  publish (Event.sweep_executed caller proposal.to proposal.amount env.timestamp)
  publish (Event.distribute proposal.to proposal.amount)
  modify λ s. record s { pending_sweep = none }

unfoldable pub cancel_sweep : Env → Address → Call (Unit {0})
unfolding require_admin
cancel_sweep env caller = do
  require_admin env caller
  existing ← gets (λ s. s.pending_sweep)
  modify λ s. record s { pending_sweep = none }
  publish (Event.sweep_cancelled caller (is_some existing))
