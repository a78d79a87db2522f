-- ===== src/RevenuePool/Drain.antt =====
-- The emergency drain and its timelock.
pub mod Timelock
use callora_contracts.Prelude.{ℕ, none, some, ◌==◌, ltb}
use callora_contracts.Prelude.Int.{ℤ, pos, leb_ℤ, ltb_ℤ, checked_add_u64}
use callora_contracts.Host.{
  Address, Env, Transfer, ◌>>=◌, ◌>>◌, gets, modify, abort_if, or_abort, require_auth,
}
use callora_contracts.Host.Fault.{message}
use callora_contracts.RevenuePool.Types.{
  Event, Store, Call, PendingEmergencyDrain, emergency_drain_timelock_seconds,
}
use callora_contracts.RevenuePool.Access.{publish, require_admin, get_usdc_token}
use callora_contracts.RevenuePool.Yield.{transfer_tokens}

unfoldable pub propose_emergency_drain : Env → Address → Address → ℤ → Call (Unit {0})
propose_emergency_drain env caller treasury amount = do
  require_auth env caller
  require_admin caller
  abort_if (leb_ℤ amount (pos 0)) (message "amount must be positive")
  abort_if (treasury == env.contract)
      (message "invalid recipient: cannot drain to the contract itself")
  execute_after ←
      or_abort (message "timelock overflow")
        (checked_add_u64 env.timestamp emergency_drain_timelock_seconds)
  let drain : PendingEmergencyDrain = record {
    to = treasury;
    amount = amount;
    proposed_at = env.timestamp;
    execute_after = execute_after;
  }
  modify λ s. record s { emergency_drain = some drain }
  publish (Event.emergency_drain_proposed caller drain)

unfoldable pub execute_emergency_drain : Transfer → Env → Address → Call (Unit {0})
execute_emergency_drain transfer env caller = do
  require_auth env caller
  require_admin caller
  pending ← gets (λ s. s.emergency_drain)
  drain ← or_abort (message "no pending emergency drain") pending
  abort_if (ltb env.timestamp drain.execute_after)
      (message "emergency drain timelock has not expired")
  usdc ← get_usdc_token
  held ← gets (λ s. s.ledger usdc env.contract)
  abort_if (ltb_ℤ held drain.amount) (message "insufficient USDC balance")
  modify λ s. record s { emergency_drain = none }
  transfer_tokens transfer usdc env.contract drain.to drain.amount
  publish
      (Event.emergency_drain_executed caller drain.to drain.amount drain.proposed_at env.timestamp)

unfoldable pub cancel_emergency_drain : Env → Address → Call (Unit {0})
cancel_emergency_drain env caller = do
  require_auth env caller
  require_admin caller
  pending ← gets (λ s. s.emergency_drain)
  drain ← or_abort (message "no pending emergency drain") pending
  modify λ s. record s { emergency_drain = none }
  publish (Event.emergency_drain_cancelled caller drain)
