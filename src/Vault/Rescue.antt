-- ===== src/Vault/Rescue.antt =====
-- The rescue of tokens, the preview of a sweep and the reserve cap's guard: contracts/vault/src/
-- rescue.rs, views.rs and limits.rs.
pub mod Preview
use callora_contracts.Prelude.{
  ℕ, ◌≡◌, ◌≢◌, ◌⊎◌, Bool-cases, Bool, Option, none, some, get_or, ◌&&◌, if◌then◌else◌, arith,
  Option-cases, inl, inr,
}
use callora_contracts.Prelude.Int.{
  ℤ, pos, leb_ℤ, ltb_ℤ, checked_add, checked_sub, i128_max, ◌≤ℤ◌, ◌<ℤ◌, ◌-ℤ◌, ◌+ℤ◌, int_laws,
  IsI128,
}
use callora_contracts.Host.{
  Address, Env, Op, Transfer, ok, err, ◌>>=◌, ◌>>◌, pure, gets, fail_if, or_fail, or_abort,
}
use callora_contracts.Host.Fault.{overflow}
use callora_contracts.Host.Token.{IsToken}
use callora_contracts.Vault.Types.{VaultError, Store, Call}
use callora_contracts.Vault.Codes
use callora_contracts.Vault.Access.{get_reserve_cap}
use callora_contracts.Vault.Money.{tracked, move_tokens}

-- What of the balance may be rescued.
abbrev pub available : ℤ → Option ℤ → Call ℤ
available on_ledger none = pure on_ledger
available on_ledger (some protected) =
    or_fail VaultError.insufficient_balance (checked_sub on_ledger protected)

unfoldable pub rescue_funds : Transfer → Env → Address → Address → ℤ → Option ℤ → Call (Unit {0})
rescue_funds transfer env token_address to amount protected_balance = do
  fail_if (leb_ℤ amount (pos 0)) VaultError.amount_not_positive
  on_ledger ← gets (λ s. s.ledger token_address env.contract)
  free ← available on_ledger protected_balance
  fail_if (ltb_ℤ free amount) VaultError.insufficient_balance
  move_tokens transfer token_address env.contract to amount

pub record SweepPreview : Type 0 where
  pub on_ledger_balance : ℤ
  pub tracked_balance : ℤ
  pub idle_balance : ℤ
  pub has_idle : Bool

unfoldable pub dry_run_sweep_idle_balance : Env → Call SweepPreview
dry_run_sweep_idle_balance env = do
  tracked_balance ← gets tracked
  configured ← gets (λ s. s.usdc_token)
  usdc ← or_fail VaultError.not_initialized configured
  on_ledger ← gets (λ s. s.ledger usdc env.contract)
  idle ←
      (if ltb_ℤ tracked_balance on_ledger
        then or_abort overflow (checked_sub on_ledger tracked_balance)
        else pure (pos 0))
  let preview : SweepPreview = record {
    on_ledger_balance = on_ledger;
    tracked_balance = tracked_balance;
    idle_balance = idle;
    has_idle = ltb_ℤ (pos 0) idle;
  }
  pure preview

-- The guard of a deposit's reserve cap, `limits::check`, which no code calls.
unfoldable pub check : Address → ℤ → ℤ → Op Store Codes.VaultError (Unit {0})
check token current_balance deposit_amount = do
  cap ← gets (λ s. get_reserve_cap s token)
  (if leb_ℤ cap i128_max && leb_ℤ i128_max cap then pure tt else (do
    post_balance ← or_fail Codes.VaultError.overflow (checked_add current_balance deposit_amount)
    fail_if (ltb_ℤ cap post_balance) Codes.VaultError.exceeds_reserve_cap))
