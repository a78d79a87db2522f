-- ===== src/RevenuePool/Distribute.antt =====
-- Money that goes out: `distribute`, `batch_distribute` and `balance`.
pub mod Effect
pub mod Checks
pub mod Paid
use callora_contracts.Prelude.{ℕ, Bool, List, [], ◌∷◌, ◌==◌, length, contains, ltb, if◌then◌else◌}
use callora_contracts.Prelude.Int.{ℤ, pos, ltb_ℤ, leb_ℤ, checked_add}
use callora_contracts.Host.{
  Address, Env, Transfer, Fault, ◌>>=◌, ◌>>◌, pure, gets, modify, abort_if, fail_if, or_abort,
  require_auth,
}
use callora_contracts.Host.Fault.{message}
use callora_contracts.RevenuePool.Types.{Event, Store, Call, max_batch_size}
use callora_contracts.RevenuePool.Types.RevenuePoolError.{batch_empty, batch_too_large}
use callora_contracts.RevenuePool.Access.{
  publish, require_admin, require_not_paused, validate_recipient, get_usdc_token,
}
use callora_contracts.RevenuePool.Yield.{transfer_tokens, get_max_distribute}

unfoldable pub distribute : Transfer → Env → Address → Address → ℤ → Call (Unit {0})
distribute transfer env caller to amount = do
  require_auth env caller
  require_not_paused
  require_admin caller
  abort_if (leb_ℤ amount (pos 0)) (message "amount must be positive")
  max_distribute ← gets get_max_distribute
  abort_if (ltb_ℤ max_distribute amount) (message "amount exceeds max_distribute")
  usdc ← get_usdc_token
  validate_recipient to env.contract
  held ← gets (λ s. s.ledger usdc env.contract)
  abort_if (ltb_ℤ held amount) (message "insufficient USDC balance")
  transfer_tokens transfer usdc env.contract to amount
  publish (Event.distribute to amount)

-- The validating loop, with the recipients it has seen and the total so far.
unfoldable pub check_payments : ℤ → List Address → ℤ → List (Address × ℤ) → Call ℤ
check_payments max_distribute seen total [] = pure total
check_payments max_distribute seen total ((to, amount) ∷ rest) = do
  abort_if (contains to seen) (message "duplicate recipient in batch")
  abort_if (leb_ℤ amount (pos 0)) (message "amount must be positive")
  abort_if (ltb_ℤ max_distribute amount) (message "amount exceeds max_distribute")
  total' ← or_abort (message "total overflow") (checked_add total amount)
  check_payments max_distribute (to ∷ seen) total' rest

unfoldable pub pay_one : Transfer → Env → Address → Address → ℤ → Call (Unit {0})
pay_one transfer env usdc to amount = do
  validate_recipient to env.contract
  transfer_tokens transfer usdc env.contract to amount
  publish (Event.batch_distribute to amount)

-- The paying loop.
unfoldable pub pay_all : Transfer → Env → Address → List (Address × ℤ) → Call (Unit {0})
unfolding pay_one
pay_all transfer env usdc [] = pure tt
pay_all transfer env usdc ((to, amount) ∷ rest) = do
  pay_one transfer env usdc to amount
  pay_all transfer env usdc rest

-- The half behind the validating loop.
unfoldable pub pay_checked : Transfer → Env → List (Address × ℤ) → ℤ → Call (Unit {0})
unfolding pay_all
pay_checked transfer env payments total_amount = do
  usdc ← get_usdc_token
  held ← gets (λ s. s.ledger usdc env.contract)
  abort_if (ltb_ℤ held total_amount) (message "insufficient USDC balance")
  pay_all transfer env usdc payments

unfoldable pub batch_distribute : Transfer → Env → Address → List (Address × ℤ) → Call (Unit {0})
unfolding check_payments pay_checked
batch_distribute transfer env caller payments = do
  require_auth env caller
  require_not_paused
  require_admin caller
  let n = length payments
  fail_if (n == 0) batch_empty
  fail_if (ltb max_batch_size n) batch_too_large
  max_distribute ← gets get_max_distribute
  total_amount ← check_payments max_distribute [] (pos 0) payments
  pay_checked transfer env payments total_amount

unfoldable pub balance : Env → Call ℤ
balance env = do usdc ← get_usdc_token; gets (λ s. s.ledger usdc env.contract)
