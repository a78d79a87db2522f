-- ===== src/RevenuePool/System.antt =====
-- The revenue pool as a state machine: its entry points that write, one transaction at a time.
pub mod Keeping
pub mod History
use callora_contracts.Prelude.{ℕ, Bool, List, [], ◌∷◌}
use callora_contracts.Prelude.Int.{ℤ}
use callora_contracts.Host.{Address, Hash, Env, Transfer, commit}
use callora_contracts.RevenuePool.Types.{Store, Call, Severity, Message}
use callora_contracts.RevenuePool.Access
use callora_contracts.RevenuePool.Yield
use callora_contracts.RevenuePool.Distribute
use callora_contracts.RevenuePool.Drain

pub data Request : Type 0 where
  init set_admin : Address → Address → Request
  accept_admin claim_admin cancel_admin_transfer : Address → Request
  set_pause_guardian : Address → Address → Request
  clear_pause_guardian pause unpause : Address → Request
  receive_payment : Address → ℤ → Bool → Request
  deposit_yield : Address → ℤ → ℕ → Request
  set_max_distribute : Address → ℤ → Request
  distribute : Address → Address → ℤ → Request
  batch_distribute : Address → List (Address × ℤ) → Request
  upgrade : Address → Hash → Request
  broadcast : Address → Severity → Message → Request
  propose_emergency_drain : Address → Address → ℤ → Request
  execute_emergency_drain cancel_emergency_drain : Address → Request

unfoldable pub dispatch : Transfer → Env → Request → Call (Unit {0})
dispatch transfer env (init admin usdc) = Access.init env admin usdc
dispatch transfer env (set_admin caller new_admin) = Access.set_admin env caller new_admin
dispatch transfer env (accept_admin caller) = Access.accept_admin env caller
dispatch transfer env (claim_admin caller) = Access.claim_admin env caller
dispatch transfer env (cancel_admin_transfer caller) = Access.cancel_admin_transfer env caller
dispatch transfer env (set_pause_guardian caller guardian) =
    Access.set_pause_guardian env caller guardian
dispatch transfer env (clear_pause_guardian caller) = Access.clear_pause_guardian env caller
dispatch transfer env (pause caller) = Access.pause env caller
dispatch transfer env (unpause caller) = Access.unpause env caller
dispatch transfer env (receive_payment caller amount from_vault) =
    Yield.receive_payment env caller amount from_vault
dispatch transfer env (deposit_yield treasury amount source) =
    Yield.deposit_yield transfer env treasury amount source
dispatch transfer env (set_max_distribute caller max) = Yield.set_max_distribute env caller max
dispatch transfer env (distribute caller to amount) =
    Distribute.distribute transfer env caller to amount
dispatch transfer env (batch_distribute caller payments) =
    Distribute.batch_distribute transfer env caller payments
dispatch transfer env (upgrade caller hash) = Access.upgrade env caller hash
dispatch transfer env (broadcast caller severity text) = Access.broadcast env caller severity text
dispatch transfer env (propose_emergency_drain caller treasury amount) =
    Drain.propose_emergency_drain env caller treasury amount
dispatch transfer env (execute_emergency_drain caller) =
    Drain.execute_emergency_drain transfer env caller
dispatch transfer env (cancel_emergency_drain caller) = Drain.cancel_emergency_drain env caller

unfoldable pub step : Transfer → Env → Request → Store → Store
step transfer env request s = commit (dispatch transfer env request) s

unfoldable pub run : Transfer → List (Env × Request) → Store → Store
run transfer [] s = s
run transfer ((env, request) ∷ rest) s = run transfer rest (step transfer env request s)
