-- ===== src/Vault/Types.antt =====
-- The data of the vault: the errors and keys of lib.rs, and the proposals of timelock.rs.
use callora_contracts.Prelude.{ℕ, Bool, Option, List}
use callora_contracts.Prelude.Int.{ℤ}
use callora_contracts.Host.{Address, Hash, Ledger, Op}

pub data VaultError : Type 0 where
  not_initialized already_initialized unauthorized paused insufficient_balance : VaultError
  amount_not_positive exceeds_max_deduct below_min_deposit overflow : VaultError
  initial_balance_negative min_deposit_not_positive max_deduct_not_positive : VaultError
  min_deposit_exceeds_max_deduct usdc_token_cannot_be_vault : VaultError
  revenue_pool_cannot_be_vault authorized_caller_cannot_be_vault : VaultError
  initial_balance_exceeds_on_ledger already_paused not_paused settlement_not_set : VaultError
  batch_empty batch_too_large new_owner_same_as_current no_ownership_transfer_pending : VaultError
  no_admin_transfer_pending offering_id_too_long metadata_too_long price_parse_error : VaultError
  duplicate_request_id offering_id_invalid metadata_invalid stale_nonce : VaultError
  new_revenue_pool_same_as_current no_revenue_pool_transfer_pending slippage : VaultError
  rate_limited proposal_not_found timelock_not_expired timelock_overflow : VaultError
  invalid_timelock_window : VaultError

abbrev pub default_timelock_seconds : ℕ
default_timelock_seconds = 172800

abbrev pub min_timelock_seconds : ℕ
min_timelock_seconds = 3600

abbrev pub max_timelock_seconds : ℕ
max_timelock_seconds = 2592000

pub record PendingPause : Type 0 where
  pub proposed_at : ℕ
  pub execute_after : ℕ

pub record PendingUpgrade : Type 0 where
  pub wasm_hash : Hash
  pub proposed_at : ℕ
  pub execute_after : ℕ

pub record PendingSweep : Type 0 where
  pub to : Address
  pub amount : ℤ
  pub proposed_at : ℕ
  pub execute_after : ℕ

-- A published event: the topics behind its name, then its payload.
pub data Event : Type 0 where
  timelock_window_changed : Address → ℕ → ℕ → Event
  pause_proposed : Address → ℕ → ℕ → Event
  pause_executed : Address → ℕ → Event
  vault_paused : Address → Event
  pause_cancelled upgrade_cancelled sweep_cancelled : Address → Bool → Event
  upgrade_proposed : Address → Hash → ℕ → ℕ → Event
  upgrade_executed : Address → ℕ → Event
  upgraded : Address → Hash → Event
  sweep_proposed : Address → Address → ℤ → ℕ → ℕ → Event
  sweep_executed : Address → Address → ℤ → ℕ → Event
  distribute : Address → ℤ → Event
  request_id_pruned : Address → ℕ → Event
  reserve_cap_set : Address → Address → Option ℤ → ℤ → Event

-- `refill_rate` is the refill per ledger.
pub record RateLimitConfig : Type 0 where
  pub capacity : ℤ
  pub refill_rate : ℤ

pub record RateLimitState : Type 0 where
  pub tokens : ℤ
  pub last_updated_ledger : ℕ

-- `ledger` is the state of the token contracts and `code` the installed WASM; `events` holds what was
-- published, the newest first.
pub record Store : Type 0 where
  pub owner : Option Address
  pub usdc_token : Option Address
  pub balance : Option ℤ
  pub authorized_caller : Option Address
  pub min_deposit : Option ℤ
  pub revenue_pool : Option Address
  pub max_deduct : Option ℤ
  pub settlement : Option Address
  pub paused : Option Bool
  pub depositor : Address → Option Bool
  pub processed_request : ℕ → Option Bool
  pub reserve_cap : Address → Option ℤ
  pub timelock_window : Option ℕ
  pub pending_pause : Option PendingPause
  pub pending_upgrade : Option PendingUpgrade
  pub pending_sweep : Option PendingSweep
  pub developer_config : Address → Option RateLimitConfig
  pub developer_state : Address → Option RateLimitState
  pub admin : Option Address
  pub pending_admin : Option Address
  pub contract_version : Option Hash
  pub ledger : Ledger
  pub code : Option Hash
  pub events : List Event

abbrev pub Call : Type 0 → Type 0
Call A = Op Store VaultError A
