-- ===== src/Settlement/Types.antt =====
-- The data of the settlement contract: contracts/settlement/src/types.rs, errors.rs, limits.rs and
-- timelock.rs. The record `Store` has a field for each storage key; an absent entry is `none`.
use callora_contracts.Prelude.{ℕ, Bool, Option, List, String}
use callora_contracts.Prelude.Int.{ℤ}
use callora_contracts.Host.{Address, Hash, Op, Ledger}

pub data SettlementError : Type 0 where
  not_initialized already_initialized unauthorized amount_not_positive : SettlementError
  developer_required developer_must_be_none pool_overflow developer_overflow : SettlementError
  usdc_token_not_configured insufficient_developer_balance : SettlementError
  developer_balance_underflow insufficient_contract_balance : SettlementError
  daily_withdraw_cap_exceeded gas_exhaustion_risk reason_too_long : SettlementError
  migration_same_address invalid_migration_target no_developer_balance : SettlementError
  timelock_overflow migration_not_found timelock_not_expired : SettlementError
  migration_balance_changed over_draft invalid_claim_window claim_window_closed : SettlementError
  min_balance_violation replay_detected : SettlementError

-- The constants of types.rs, timelock.rs and the length of a day.
abbrev pub max_batch_size : ℕ
max_batch_size = 50

abbrev pub max_developer_balances_page_size : ℕ
max_developer_balances_page_size = 100

abbrev pub seconds_per_day : ℕ
seconds_per_day = 86400

abbrev pub developer_migration_timelock_seconds : ℕ
developer_migration_timelock_seconds = 86400

pub data Severity : Type 0 where
  info warn crit : Severity

pub record GlobalPool : Type 0 where
  pub total_balance : ℤ
  pub last_updated : ℕ

pub record DailyWithdrawState : Type 0 where
  pub day : ℕ
  pub amount : ℤ

pub record DeveloperClaimWindow : Type 0 where
  pub start_ts : ℕ
  pub end_ts : ℕ

pub record DeveloperBalance : Type 0 where
  pub address : Address
  pub token : Address
  pub balance : ℤ

pub record PendingDeveloperMigration : Type 0 where
  pub from : Address
  pub to : Address
  pub amount : ℤ
  pub proposed_at : ℕ
  pub execute_after : ℕ

pub record PaymentReceivedEvent : Type 0 where
  pub from_vault : Address
  pub amount : ℤ
  pub to_pool : Bool
  pub developer : Option Address
  pub token : Address

pub record BalanceCreditedEvent : Type 0 where
  pub developer : Address
  pub amount : ℤ
  pub new_balance : ℤ
  pub token : Address

pub record DeveloperWithdrawEvent : Type 0 where
  pub developer : Address
  pub amount : ℤ
  pub remaining_balance : ℤ
  pub to : Address
  pub token : Address

pub record DeveloperForceCreditedEvent : Type 0 where
  pub developer : Address
  pub amount : ℤ
  pub reason : Hash
  pub new_balance : ℤ
  pub token : Address

pub record DeveloperClaimWindowChanged : Type 0 where
  pub developer : Address
  pub start_ts : ℕ
  pub end_ts : ℕ
  pub enabled : Bool

pub record AdminMigrationEvent : Type 0 where
  pub from : Address
  pub to : Address
  pub amount : ℤ
  pub executed_at : ℕ

pub record VaultProposedEvent : Type 0 where
  pub current_vault : Address
  pub proposed_vault : Address

pub record VaultAcceptedEvent : Type 0 where
  pub old_vault : Address
  pub new_vault : Address
  pub accepted_by : Address

-- A published event: the topics behind its name, then its payload.
pub data Event : Type 0 where
  payment_received : Address → PaymentReceivedEvent → Event
  balance_credited : Address → BalanceCreditedEvent → Event
  developer_withdraw : Address → DeveloperWithdrawEvent → Event
  developer_force_credited : Address → DeveloperForceCreditedEvent → Event
  developer_claim_window_changed : Address → DeveloperClaimWindowChanged → Event
  daily_withdraw_cap_changed : Address → (developer : Address) → (new_cap : ℤ) → Event
  developer_min_balance_changed : Address → (developer : Address) → (new_min_balance : ℤ) → Event
  admin_migration_proposed : Address → PendingDeveloperMigration → Event
  admin_migration : Address → Address → AdminMigrationEvent → Event
  admin_nominated admin_accepted : Address → Address → Address → Event
  admin_cancelled : Address → Address → Event
  vault_proposed : Address → VaultProposedEvent → Event
  vault_accepted : Address → VaultAcceptedEvent → Event
  admin_broadcast : Address → Severity → String → Event
  upgraded : Address → Hash → Event
  mig_v1_v2_done : ℕ → Event

-- `ledger` is the state of the token contracts and `code` the installed WASM, which the contract
-- changes through the host; `events` holds what was published, the newest first.
pub record Store : Type 0 where
  pub admin : Option Address
  pub high_water_mark : Address → Option ℕ
  pub pool_high_water_mark : Option ℕ
  pub vault : Option Address
  pub pending_admin : Option Address
  pub pending_vault : Option Address
  pub developer_index : Option (List Address)
  pub developer_balance_v1 : Address → Option ℤ
  pub developer_balance : Address → Address → Option ℤ
  pub developer_min_balance : Address → Option ℤ
  pub global_pool : Option GlobalPool
  pub usdc : Option Address
  pub daily_withdraw_cap : Address → Option ℤ
  pub withdrawal_today : Address → Option DailyWithdrawState
  pub contract_version : Option Hash
  pub pending_migration : Address → Option PendingDeveloperMigration
  pub storage_version : Option ℕ
  pub developer_claim_window : Address → Option DeveloperClaimWindow
  pub total_received : Option ℤ
  pub ledger : Ledger
  pub code : Option Hash
  pub events : List Event

abbrev pub Call : Type 0 → Type 0
Call A = Op Store SettlementError A
