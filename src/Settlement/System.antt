-- ===== src/Settlement/System.antt =====
-- The settlement contract as a state machine: its entry points that write, one transaction at a time.
-- A call that does not return a value changes nothing, since the host undoes it.
pub mod Sound
pub mod Quiet
pub mod Credits
pub mod Debits
pub mod Proposals
pub mod Moves
pub mod History
use callora_contracts.Prelude.{ℕ, Bool, Option, List, [], ◌∷◌, String}
use callora_contracts.Prelude.Int.{ℤ}
use callora_contracts.Host.{Address, Hash, Env, Transfer, ◌>>=◌, ◌>>◌, pure, commit}
use callora_contracts.Settlement.Types.{Store, Call, Severity}
use callora_contracts.Settlement.Access
use callora_contracts.Settlement.Limits
use callora_contracts.Settlement.Payments
use callora_contracts.Settlement.Withdraw
use callora_contracts.Settlement.Batch
use callora_contracts.Settlement.Batch.{SettleInput}
use callora_contracts.Settlement.Migration
use callora_contracts.Settlement.Storage

-- The entry points that can write, with their arguments.
pub data Request : Type 0 where
  init : Address → Address → Request
  receive_payment : Address → ℤ → Bool → Option Address → Address → ℕ → Request
  batch_receive_payment : Address → List (Address × ℤ) → Address → ℕ → Request
  force_credit_developer : Address → Address → ℤ → Address → Hash → Request
  set_usdc_token : Address → Address → Request
  withdraw_developer_balance : Address → ℤ → Option Address → Request
  batch_settle : List SettleInput → Request
  propose_balance_migration : Address → Address → Address → Request
  execute_balance_migration : Address → Address → Request
  set_daily_withdraw_cap set_developer_min_balance : Address → Address → ℤ → Request
  set_developer_claim_window : Address → Address → ℕ → ℕ → Request
  clear_developer_claim_window : Address → Address → Request
  set_admin propose_vault : Address → Address → Request
  accept_admin : Request
  cancel_admin_transfer accept_vault migrate_v1_to_v2 : Address → Request
  broadcast : Address → Severity → String → Request
  upgrade : Address → Hash → Request
  migrate_v1_to_v2_page : Address → ℕ → ℕ → Request
  migrate_single_developer : Address → Address → Request

-- Values that an entry point returns are dropped.
abbrev drop_value : {A : Type 0} → Call A → Call (Unit {0})
drop_value m = m >>= λ _. pure tt

unfoldable pub dispatch : Transfer → Env → Request → Call (Unit {0})
dispatch transfer env (init admin vault) = Access.init env admin vault
dispatch transfer env (receive_payment caller amount to_pool developer token seq) =
    Payments.receive_payment env caller amount to_pool developer token seq
dispatch transfer env (batch_receive_payment caller items token seq) =
    Payments.batch_receive_payment env caller items token seq
dispatch transfer env (force_credit_developer caller developer amount token reason) =
    Payments.force_credit_developer env caller developer amount token reason
dispatch transfer env (set_usdc_token caller usdc) = Access.set_usdc_token env caller usdc
dispatch transfer env (withdraw_developer_balance developer amount to) =
    Withdraw.withdraw_developer_balance transfer env developer amount to
dispatch transfer env (batch_settle inputs) = drop_value (Batch.batch_settle transfer env inputs)
dispatch transfer env (propose_balance_migration caller from to) =
    Migration.propose_balance_migration env caller from to
dispatch transfer env (execute_balance_migration caller from) =
    Migration.execute_balance_migration env caller from
dispatch transfer env (set_daily_withdraw_cap caller developer cap) =
    Limits.set_daily_withdraw_cap env caller developer cap
dispatch transfer env (set_developer_min_balance caller developer min) =
    Limits.set_developer_min_balance env caller developer min
dispatch transfer env (set_developer_claim_window caller developer start end) =
    Limits.set_developer_claim_window env caller developer start end
dispatch transfer env (clear_developer_claim_window caller developer) =
    Limits.clear_developer_claim_window env caller developer
dispatch transfer env (set_admin caller new_admin) = Access.set_admin env caller new_admin
dispatch transfer env (propose_vault caller new_vault) = Access.propose_vault env caller new_vault
dispatch transfer env accept_admin = Access.accept_admin env
dispatch transfer env (cancel_admin_transfer caller) = Access.cancel_admin_transfer env caller
dispatch transfer env (accept_vault caller) = Access.accept_vault env caller
dispatch transfer env (migrate_v1_to_v2 caller) = Storage.migrate_v1_to_v2 env caller
dispatch transfer env (broadcast caller severity text) = Access.broadcast env caller severity text
dispatch transfer env (upgrade caller hash) = Access.upgrade env caller hash
dispatch transfer env (migrate_v1_to_v2_page caller offset size) =
    drop_value (Storage.migrate_v1_to_v2_page env caller offset size)
dispatch transfer env (migrate_single_developer caller developer) =
    Storage.migrate_single_developer env caller developer

-- One transaction.
unfoldable pub step : Transfer → Env → Request → Store → Store
step transfer env request s = commit (dispatch transfer env request) s

-- The transactions of a history, with the ledger's clock and authorisations of each.
unfoldable pub run : Transfer → List (Env × Request) → Store → Store
run transfer [] s = s
run transfer ((env, request) ∷ rest) s = run transfer rest (step transfer env request s)
