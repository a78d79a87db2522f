-- ===== src/Vault/Timelock/Delay.antt =====
-- What a proposal of the vault waits for, and what its execution does.
use callora_contracts.Prelude.{
  ℕ, ◌+◌, ◌≡◌, ◌≤◌, ◌<◌, ◌^◌, none, some, Option-cases, inl, inr, ◌⊎◌, arith,
}
use callora_contracts.Prelude.Int.{ℤ, pos, ◌≤ℤ◌, ◌<ℤ◌}
use callora_contracts.Host.{Address, Env, Transfer, ok}
use callora_contracts.Vault.Types.{Store, min_timelock_seconds, max_timelock_seconds}
use callora_contracts.Vault.Money.{tracked}
use callora_contracts.Vault.Timelock.{
  get_timelock_window, saturating_deadline, deadline, set_timelock_window, propose_sweep,
  execute_sweep,
}

-- For a time of the proposal that is a u64, the deadline is the sum of the time of the proposal and
-- the window, and missing exactly where that is no u64.
pub saturating_deadline_lem :
    (proposed_at window : ℕ)
    → proposed_at < 2 ^ 64
    → ((proposed_at + window < 2 ^ 64)
        × (saturating_deadline proposed_at window ≡ some (proposed_at + window)))
      ⊎ ((2 ^ 64 ≤ proposed_at + window) × (saturating_deadline proposed_at window ≡ none))
unfolding saturating_deadline
saturating_deadline_lem proposed_at window small = ground arith

-- The window that `set_timelock_window` accepts is at least an hour and at most 30 days.
pub set_timelock_window-bounds :
    (env : Env) (caller : Address) (window : ℕ) (s s' : Store)
    → set_timelock_window env caller window s ≡ (ok tt, s')
    → (min_timelock_seconds ≤ get_timelock_window s')
      × (get_timelock_window s' ≤ max_timelock_seconds)
      × (s.admin ≡ some caller)
unfolding set_timelock_window
set_timelock_window-bounds env caller window s s' h = (ground arith, ground arith, ground arith)

-- A sweep that is proposed, at a time that is a u64, and later executed by calls that return, the
-- proposal being unchanged between them, waits for the whole window, transfers exactly the positive
-- amount that was proposed to the recipient that was proposed, from a vault that held it, and uses
-- the proposal up; the tracked balance is not touched, even where the sweep leaves less than it.
pub sweep_delay :
    (transfer : Transfer) (env env' : Env) (caller caller' to : Address) (amount : ℤ)
    (s s₁ s₂ s' : Store)
    → env.timestamp < 2 ^ 64
    → propose_sweep env caller to amount s ≡ (ok tt, s₁)
    → s₂.pending_sweep ≡ s₁.pending_sweep
    → execute_sweep transfer env' caller' s₂ ≡ (ok tt, s')
    → (env.timestamp + get_timelock_window s ≤ env'.timestamp)
      × (pos 0 <ℤ amount)
      × (s'.pending_sweep ≡ none)
      × (tracked s' ≡ tracked s₂)
      × ((usdc : Address) × (s₂.usdc_token ≡ some usdc)
          × (amount ≤ℤ s₂.ledger usdc env'.contract)
          × (transfer s₂.ledger usdc env'.contract to amount ≡ some s'.ledger))
unfolding propose_sweep execute_sweep deadline saturating_deadline
sweep_delay transfer env env' caller caller' to amount s s₁ s₂ s' small proposed same executed = (
  ground arith,
  ground arith,
  ground arith,
  ground arith,
  elim (Option-cases s₂.usdc_token) [
    | inl gone ↦ ground (arith, gone)
    | inr (usdc, e) ↦ (usdc, e, ground (arith, e), ground (arith, e))
  ],
)
