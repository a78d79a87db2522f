-- ===== src/Vault/System.antt =====
-- The vault as a state machine: its entry points that write, one transaction at a time.
pub mod Quiet
mod Guards
mod Locks
pub mod History
use callora_contracts.Prelude.{ℕ, Option, List, [], ◌∷◌}
use callora_contracts.Prelude.Int.{ℤ}
use callora_contracts.Host.{Address, Hash, Env, Transfer, commit}
use callora_contracts.Vault.Types.{Store, Call}
use callora_contracts.Vault.Access
use callora_contracts.Vault.Money
use callora_contracts.Vault.Money.{Recorder}
use callora_contracts.Vault.Timelock

pub data Request : Type 0 where
  init : Address → Address → ℤ → Address → ℤ → Option Address → ℤ → Address → Request
  set_authorized_caller pause unpause : Address → Request
  set_max_deduct : Address → ℤ → Request
  set_settlement set_admin : Address → Address → Request
  accept_admin : Request
  prune_processed_requests : Address → List ℕ → Request
  set_reserve_cap : Address → Address → ℤ → Request
  deposit : Address → ℤ → Request
  deduct : Address → ℤ → ℕ → Request
  batch_deduct : Address → List (ℤ × ℕ) → Request
  set_timelock_window : Address → ℕ → Request
  propose_pause execute_pause cancel_pause : Address → Request
  propose_upgrade : Address → Hash → Request
  execute_upgrade cancel_upgrade execute_sweep cancel_sweep : Address → Request
  propose_sweep : Address → Address → ℤ → Request

module _ (transfer : Transfer) (recorder : Recorder) where
  unfoldable pub dispatch : Env → Request → Call (Unit {0})
  dispatch env (init owner usdc balance caller min_deposit pool max_deduct settlement) =
      Access.init owner usdc balance caller min_deposit pool max_deduct settlement
  dispatch env (set_authorized_caller caller) = Access.set_authorized_caller env caller
  dispatch env (pause caller) = Access.pause env caller
  dispatch env (unpause caller) = Access.unpause env caller
  dispatch env (set_max_deduct caller max_deduct) = Access.set_max_deduct env caller max_deduct
  dispatch env (set_settlement caller settlement) = Access.set_settlement env caller settlement
  dispatch env (set_admin caller new_admin) = Access.set_admin env caller new_admin
  dispatch env accept_admin = Access.accept_admin env
  dispatch env (prune_processed_requests caller ids) =
      Access.prune_processed_requests env caller ids
  dispatch env (set_reserve_cap caller token cap) = Access.set_reserve_cap env caller token cap
  dispatch env (deposit caller amount) = Money.deposit transfer env caller amount
  dispatch env (deduct caller amount request_id) =
      Money.deduct transfer recorder env caller amount request_id
  dispatch env (batch_deduct caller items) = Money.batch_deduct transfer recorder env caller items
  dispatch env (set_timelock_window caller window) = Timelock.set_timelock_window env caller window
  dispatch env (propose_pause caller) = Timelock.propose_pause env caller
  dispatch env (execute_pause caller) = Timelock.execute_pause env caller
  dispatch env (cancel_pause caller) = Timelock.cancel_pause env caller
  dispatch env (propose_upgrade caller hash) = Timelock.propose_upgrade env caller hash
  dispatch env (execute_upgrade caller) = Timelock.execute_upgrade env caller
  dispatch env (cancel_upgrade caller) = Timelock.cancel_upgrade env caller
  dispatch env (propose_sweep caller to amount) = Timelock.propose_sweep env caller to amount
  dispatch env (execute_sweep caller) = Timelock.execute_sweep transfer env caller
  dispatch env (cancel_sweep caller) = Timelock.cancel_sweep env caller

  unfoldable pub step : Env → Request → Store → Store
  step env request s = commit (dispatch env request) s

  unfoldable pub run : List (Env × Request) → Store → Store
  run [] s = s
  run ((env, request) ∷ rest) s = run rest (step env request s)
