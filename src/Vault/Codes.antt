-- ===== src/Vault/Codes.antt =====
-- The errors of the vault with their codes, contracts/vault/src/errors.rs.
use callora_contracts.Prelude.{ℕ}

pub data VaultError : Type 0 where
  not_initialized already_initialized unauthorized paused : VaultError
  insufficient_balance amount_not_positive exceeds_max_deduct below_min_deposit : VaultError
  overflow initial_balance_negative min_deposit_not_positive max_deduct_not_positive : VaultError
  min_deposit_exceeds_max_deduct usdc_token_cannot_be_vault revenue_pool_cannot_be_vault
        authorized_caller_cannot_be_vault :
      VaultError
  initial_balance_exceeds_on_ledger already_paused not_paused settlement_not_set : VaultError
  batch_empty batch_too_large new_owner_same_as_current no_ownership_transfer_pending : VaultError
  no_admin_transfer_pending offering_id_too_long metadata_too_long price_parse_error : VaultError
  duplicate_request_id offering_id_invalid metadata_invalid stale_nonce : VaultError
  new_revenue_pool_same_as_current no_revenue_pool_transfer_pending slippage rate_limited :
      VaultError
  paused_state invalid_hot_bps invalid_rebalance_threshold cold_signers_empty : VaultError
  invalid_cold_threshold duplicate_cold_signer exceeds_reserve_cap : VaultError

-- The discriminant, which callers branch on.
abbrev pub code : VaultError → ℕ
code not_initialized = 1
code already_initialized = 2
code unauthorized = 3
code paused = 4
code insufficient_balance = 5
code amount_not_positive = 6
code exceeds_max_deduct = 7
code below_min_deposit = 8
code overflow = 9
code initial_balance_negative = 10
code min_deposit_not_positive = 11
code max_deduct_not_positive = 12
code min_deposit_exceeds_max_deduct = 13
code usdc_token_cannot_be_vault = 14
code revenue_pool_cannot_be_vault = 15
code authorized_caller_cannot_be_vault = 16
code initial_balance_exceeds_on_ledger = 17
code already_paused = 18
code not_paused = 19
code settlement_not_set = 20
code batch_empty = 21
code batch_too_large = 22
code new_owner_same_as_current = 23
code no_ownership_transfer_pending = 24
code no_admin_transfer_pending = 25
code offering_id_too_long = 26
code metadata_too_long = 27
code price_parse_error = 28
code duplicate_request_id = 29
code offering_id_invalid = 30
code metadata_invalid = 31
code stale_nonce = 32
code new_revenue_pool_same_as_current = 33
code no_revenue_pool_transfer_pending = 34
code slippage = 35
code rate_limited = 36
code paused_state = 37
code invalid_hot_bps = 38
code invalid_rebalance_threshold = 39
code cold_signers_empty = 40
code invalid_cold_threshold = 41
code duplicate_cold_signer = 42
code exceeds_reserve_cap = 43
