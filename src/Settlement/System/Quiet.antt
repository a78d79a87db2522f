-- ===== src/Settlement/System/Quiet.antt =====
-- The entry points that set configuration touch neither money, nor the index, nor the guard.
use callora_contracts.Prelude.{ℕ, ◌≡◌, String, arith}
use callora_contracts.Prelude.Int.{ℤ}
use callora_contracts.Host.{Address, Hash, Env, ok}
use callora_contracts.Settlement.Types.{Store, Severity}
use callora_contracts.Settlement.Access.{
  init, set_usdc_token, set_admin, accept_admin, cancel_admin_transfer, propose_vault, accept_vault,
  broadcast, upgrade,
}
use callora_contracts.Settlement.Limits.{
  set_developer_min_balance, set_developer_claim_window, clear_developer_claim_window,
  set_daily_withdraw_cap,
}
use callora_contracts.Settlement.System.Sound.{IsQuiet}

module _ (env : Env) (s s' : Store) where
  pub init-IsQuiet : (a v : Address) → init env a v s ≡ (ok tt, s') → IsQuiet s s'
  unfolding init
  init-IsQuiet a v h = ground arith

  pub set_usdc_token-IsQuiet :
      (c u : Address) → set_usdc_token env c u s ≡ (ok tt, s') → IsQuiet s s'
  unfolding set_usdc_token
  set_usdc_token-IsQuiet c u h = ground arith

  pub set_admin-IsQuiet : (c a : Address) → set_admin env c a s ≡ (ok tt, s') → IsQuiet s s'
  unfolding set_admin
  set_admin-IsQuiet c a h = ground arith

  pub accept_admin-IsQuiet : accept_admin env s ≡ (ok tt, s') → IsQuiet s s'
  unfolding accept_admin
  accept_admin-IsQuiet h = ground arith

  pub cancel_admin_transfer-IsQuiet :
      (c : Address) → cancel_admin_transfer env c s ≡ (ok tt, s') → IsQuiet s s'
  unfolding cancel_admin_transfer
  cancel_admin_transfer-IsQuiet c h = ground arith

  pub propose_vault-IsQuiet : (c v : Address) → propose_vault env c v s ≡ (ok tt, s') → IsQuiet s s'
  unfolding propose_vault
  propose_vault-IsQuiet c v h = ground arith

  pub accept_vault-IsQuiet : (c : Address) → accept_vault env c s ≡ (ok tt, s') → IsQuiet s s'
  unfolding accept_vault
  accept_vault-IsQuiet c h = ground arith

  pub broadcast-IsQuiet :
      (c : Address) (v : Severity) (m : String) → broadcast env c v m s ≡ (ok tt, s') → IsQuiet s s'
  unfolding broadcast
  broadcast-IsQuiet c v m h = ground arith

  pub upgrade-IsQuiet : (c : Address) (w : Hash) → upgrade env c w s ≡ (ok tt, s') → IsQuiet s s'
  unfolding upgrade
  upgrade-IsQuiet c w h = ground arith

  pub set_developer_min_balance-IsQuiet :
      (c d : Address) (m : ℤ) → set_developer_min_balance env c d m s ≡ (ok tt, s') → IsQuiet s s'
  unfolding set_developer_min_balance
  set_developer_min_balance-IsQuiet c d m h = ground arith

  pub set_developer_claim_window-IsQuiet :
      (c d : Address) (a b : ℕ)
      → set_developer_claim_window env c d a b s ≡ (ok tt, s')
      → IsQuiet s s'
  unfolding set_developer_claim_window
  set_developer_claim_window-IsQuiet c d a b h = ground arith

  pub clear_developer_claim_window-IsQuiet :
      (c d : Address) → clear_developer_claim_window env c d s ≡ (ok tt, s') → IsQuiet s s'
  unfolding clear_developer_claim_window
  clear_developer_claim_window-IsQuiet c d h = ground arith

  pub set_daily_withdraw_cap-IsQuiet :
      (c d : Address) (m : ℤ) → set_daily_withdraw_cap env c d m s ≡ (ok tt, s') → IsQuiet s s'
  unfolding set_daily_withdraw_cap
  set_daily_withdraw_cap-IsQuiet c d m h = ground arith
