-- ===== src/Vault/Cold.antt =====
-- The hot and cold split of the vault's balance, contracts/vault/src/cold_storage.rs.
pub mod Rebalance
pub mod Signers
use callora_contracts.Prelude.{
  ℕ, zero, Bool, true, false, List, [], ◌∷◌, ◌==◌, ◌||◌, ◌&&◌, ltb, length, contains, if◌then◌else◌,
  Option, none, some,
}
use callora_contracts.Prelude.Int.{
  ℤ, pos, leb_ℤ, in_i128, abs_ℤ, checked_add, checked_sub, checked_mul, checked_div,
}
use callora_contracts.Host.{Address, Fault, Op, ◌>>=◌, ◌>>◌, pure, fail_if, or_fail, or_abort}
use callora_contracts.Vault.Codes.{VaultError}
use callora_contracts.Vault.Codes.VaultError.{
  overflow, invalid_hot_bps, invalid_rebalance_threshold, cold_signers_empty,
  invalid_cold_threshold, duplicate_cold_signer,
}

abbrev pub default_rebalance_threshold_bps : ℕ
default_rebalance_threshold_bps = 500

abbrev pub bps_denominator : ℕ
bps_denominator = 10000

pub record ColdConfig : Type 0 where
  pub hot_bps : ℕ
  pub rebalance_threshold_bps : ℕ
  pub cold_signers : List Address
  pub cold_threshold : ℕ

pub record ColdBalances : Type 0 where
  pub hot : ℤ
  pub cold : ℤ

pub record PendingColdSweep : Type 0 where
  pub amount : ℤ
  pub destination : Address
  pub approvals : List Address
  pub proposed_at : ℕ

-- Two positions of the list hold the same address.
abbrev pub has_duplicate : List Address → Bool
has_duplicate [] = false
has_duplicate (x ∷ xs) = contains x xs || has_duplicate xs

-- These functions read and write no storage, whatever the store is.
module _ {S : Type 0} where
  unfoldable pub validate : ColdConfig → Op S VaultError (Unit {0})
  validate config = do
    fail_if (config.hot_bps == 0 || ltb bps_denominator config.hot_bps) invalid_hot_bps
    fail_if
        (config.rebalance_threshold_bps == 0 || ltb bps_denominator config.rebalance_threshold_bps)
        invalid_rebalance_threshold
    fail_if (length config.cold_signers == 0) cold_signers_empty
    fail_if (config.cold_threshold == 0 || ltb (length config.cold_signers) config.cold_threshold)
        invalid_cold_threshold
    fail_if (has_duplicate config.cold_signers) duplicate_cold_signer

  abbrev pub total : ColdBalances → Op S VaultError ℤ
  total balances = or_fail overflow (checked_add balances.hot balances.cold)

  unfoldable pub hot_share_bps : ℤ → ℤ → Op S VaultError ℤ
  hot_share_bps hot (pos zero) = pure (pos 0)
  hot_share_bps hot sum = do
    scaled ← or_fail overflow (checked_mul hot (pos bps_denominator))
    or_fail overflow (checked_div scaled sum)

  unfoldable pub target_hot : ℤ → ℕ → Op S VaultError ℤ
  target_hot sum hot_bps = do
    scaled ← or_fail overflow (checked_mul sum (pos hot_bps))
    or_fail overflow (checked_div scaled (pos bps_denominator))

  -- The public name of `target_hot`.
  abbrev pub target_hot_pub : ℤ → ℕ → Op S VaultError ℤ
  target_hot_pub sum hot_bps = target_hot sum hot_bps

  -- `(a - b).abs()`, which panics where a result is no `i128`.
  unfoldable pub distance : ℤ → ℤ → Op S VaultError ℤ
  distance a b = do
    difference ← or_abort Fault.overflow (checked_sub a b)
    or_abort Fault.overflow (if in_i128 (abs_ℤ difference) then some (abs_ℤ difference) else none)

  -- The split with the hot pool at its target.
  unfoldable pub rebalanced : ColdBalances → ColdConfig → ℤ → Op S VaultError ColdBalances
  rebalanced balances config sum = do
    new_hot ← target_hot sum config.hot_bps
    moved ← or_fail overflow (checked_sub balances.hot new_hot)
    new_cold ← or_fail overflow (checked_add balances.cold moved)
    let balances' : ColdBalances = record { hot = new_hot; cold = new_cold }
    pure balances'

  -- The choice for a total that is not zero.
  unfoldable pub rebalance : ColdBalances → ColdConfig → ℤ → Op S VaultError ColdBalances
  rebalance balances config sum = do
    current_share ← hot_share_bps balances.hot sum
    drift ← distance current_share (pos config.hot_bps)
    (if leb_ℤ drift (pos config.rebalance_threshold_bps)
        then pure balances
        else (if leb_ℤ current_share (pos config.hot_bps)
            then pure balances
            else rebalanced balances config sum))

  unfoldable pub maybe_rebalance : ColdBalances → ColdConfig → Op S VaultError ColdBalances
  maybe_rebalance balances config = do
    sum ← total balances
    (if leb_ℤ sum (pos 0) && leb_ℤ (pos 0) sum
        then pure balances
        else rebalance balances config sum)

-- The address is a configured cold signer.
abbrev pub is_cold_signer : ColdConfig → Address → Bool
is_cold_signer config addr = contains addr config.cold_signers
