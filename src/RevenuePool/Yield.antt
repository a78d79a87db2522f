-- ===== src/RevenuePool/Yield.antt =====
-- Money that comes in, and the cap on what goes out.
use callora_contracts.Prelude.{ℕ, ◌≡◌, Bool, some, get_or, ◌==◌, not, arith, Option-cases, inl, inr}
use callora_contracts.Prelude.Int.{ℤ, pos, ◌+ℤ◌, ◌<ℤ◌, leb_ℤ, checked_add}
use callora_contracts.Host.{
  Address, Env, Transfer, ok, ◌>>=◌, ◌>>◌, gets, modify, abort_if, or_abort, require_auth,
}
use callora_contracts.Host.Fault.{message, token_panic}
use callora_contracts.RevenuePool.Types.{Event, Store, Call, default_max_distribute}
use callora_contracts.RevenuePool.Access.{publish, get_admin, require_admin, get_usdc_token}

-- `usdc.transfer(from, to, amount)`
abbrev pub transfer_tokens : Transfer → Address → Address → Address → ℤ → Call (Unit {0})
transfer_tokens transfer token from to amount = do
  old ← gets (λ s. s.ledger)
  ledger ← or_abort token_panic (transfer old token from to amount)
  modify λ s. record s { ledger = ledger }

unfoldable pub receive_payment : Env → Address → ℤ → Bool → Call (Unit {0})
receive_payment env caller amount from_vault = do
  require_auth env caller
  require_admin caller
  publish (Event.receive_payment caller amount from_vault)

abbrev pub get_cumulative_yield_deposited : Store → ℤ
get_cumulative_yield_deposited s = get_or (pos 0) s.cumulative_yield

unfoldable pub deposit_yield : Transfer → Env → Address → ℤ → ℕ → Call (Unit {0})
deposit_yield transfer env treasury amount source = do
  require_auth env treasury
  admin ← get_admin
  abort_if (not (treasury == admin)) (message "unauthorized: caller is not treasury")
  abort_if (leb_ℤ amount (pos 0)) (message "amount must be positive")
  previous_total ← gets get_cumulative_yield_deposited
  new_total ← or_abort (message "cumulative yield overflow") (checked_add previous_total amount)
  usdc ← get_usdc_token
  modify λ s. record s { cumulative_yield = some new_total }
  transfer_tokens transfer usdc treasury env.contract amount
  publish (Event.yield_deposited treasury amount source new_total)

abbrev pub get_max_distribute : Store → ℤ
get_max_distribute s = get_or default_max_distribute s.max_distribute

unfoldable pub set_max_distribute : Env → Address → ℤ → Call (Unit {0})
set_max_distribute env caller max_distribute = do
  require_auth env caller
  require_admin caller
  abort_if (leb_ℤ max_distribute (pos 0)) (message "max_distribute must be positive")
  old_max ← gets get_max_distribute
  modify λ s. record s { max_distribute = some max_distribute }
  admin ← get_admin
  publish (Event.set_max_distribute admin old_max max_distribute)

-- A deposit that returns comes from the admin, adds its positive amount to the running total, and
-- makes the token contract move it to the pool.
pub deposit_yield_effect :
    (transfer : Transfer) (env : Env) (treasury : Address) (amount : ℤ) (source : ℕ) (s s' : Store)
    → deposit_yield transfer env treasury amount source s ≡ (ok tt, s')
    → (s.admin ≡ some treasury)
      × (pos 0 <ℤ amount)
      × (get_cumulative_yield_deposited s' ≡ get_cumulative_yield_deposited s +ℤ amount)
      × ((usdc : Address) × (s.usdc ≡ some usdc)
          × (transfer s.ledger usdc treasury env.contract amount ≡ some s'.ledger))
unfolding deposit_yield
deposit_yield_effect transfer env treasury amount source s s' h = (
  ground arith,
  ground arith,
  ground arith,
  elim (Option-cases s.usdc) [
    | inl gone ↦ ground (arith, gone)
    | inr (usdc, e) ↦ (usdc, e, ground (arith, e))
  ],
)
