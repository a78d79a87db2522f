-- ===== src/Vault/Money.antt =====
-- The money of the vault: `deposit`, `deduct` and `batch_deduct`.
pub mod Steps
pub mod Effect
pub mod Single
use callora_contracts.Prelude.{
  ℕ, Bool, Option, none, some, get_or, List, [], ◌∷◌, ◌==◌, ◌&&◌, not, false, if◌then◌else◌,
}
use callora_contracts.Prelude.Int.{ℤ, pos, leb_ℤ, ltb_ℤ, checked_add, checked_sub}
use callora_contracts.Host.{
  Address, Env, Transfer, Ledger, ◌>>=◌, ◌>>◌, pure, gets, modify, abort_if, or_abort, require_auth,
}
use callora_contracts.Host.Fault.{message, unwrap_none, overflow, token_panic}
use callora_contracts.Vault.Types.{Store, Call}
use callora_contracts.Vault.Access.{stored, is_paused}

-- `record_deduction(amount, request_id)` of the settlement contract at an address, as the imported
-- client calls it: what it does to the token contracts, or a panic.
abbrev pub Recorder : Type 0
Recorder = Ledger → Address → ℤ → ℕ → Option Ledger

abbrev pub check_running : Call (Unit {0})
check_running = do paused ← gets is_paused; abort_if paused (message "Contract paused")

abbrev pub require_valid_deposit_amount : ℤ → ℤ → Call (Unit {0})
require_valid_deposit_amount amount min_deposit = do
  abort_if (leb_ℤ amount (pos 0)) (message "amount must be positive")
  abort_if (ltb_ℤ amount min_deposit) (message "deposit below minimum")

abbrev pub require_valid_deduct_amount : ℤ → ℤ → ℤ → Call (Unit {0})
require_valid_deduct_amount amount min_amount max_deduct = do
  abort_if (leb_ℤ amount (pos 0)) (message "amount must be positive")
  abort_if (ltb_ℤ amount min_amount) (message "deduct below minimum")
  abort_if (ltb_ℤ max_deduct amount) (message "deduct amount exceeds max_deduct")

abbrev pub tracked : Store → ℤ
tracked s = get_or (pos 0) s.balance

-- `token.transfer(from, to, amount)`
abbrev pub move_tokens : Transfer → Address → Address → Address → ℤ → Call (Unit {0})
move_tokens transfer token from to amount = do
  old ← gets (λ s. s.ledger)
  ledger ← or_abort token_panic (transfer old token from to amount)
  modify λ s. record s { ledger = ledger }

unfoldable pub deposit : Transfer → Env → Address → ℤ → Call (Unit {0})
deposit transfer env caller amount = do
  require_auth env caller
  check_running
  min_dep ← stored (λ s. s.min_deposit)
  require_valid_deposit_amount amount min_dep
  owner ← stored (λ s. s.owner)
  is_allowed ← gets (λ s. get_or false (s.depositor caller))
  abort_if (not (caller == owner) && not is_allowed) (message "Not authorized depositor")
  current_bal ← gets tracked
  new_bal ← or_abort unwrap_none (checked_add current_bal amount)
  modify λ s. record s { balance = some new_bal }
  token ← stored (λ s. s.usdc_token)
  move_tokens transfer token caller env.contract amount

-- The caller's tests and the limits that `deduct` and `batch_deduct` have in common.
unfoldable pub deduct_limits : Env → Address → Call (ℤ × ℤ)
deduct_limits env caller = do
  require_auth env caller
  auth_caller ← stored (λ s. s.authorized_caller)
  abort_if (not (caller == auth_caller)) (message "Not authorized caller")
  check_running
  min_dep ← stored (λ s. s.min_deposit)
  max_deduct ← stored (λ s. s.max_deduct)
  pure (min_dep, max_deduct)

-- The debit of the tracked balance and the transfer to the settlement contract.
unfoldable pub take_out : Transfer → Env → ℤ → Call Address
take_out transfer env amount = do
  current_bal ← gets tracked
  abort_if (ltb_ℤ current_bal amount) (message "insufficient balance")
  new_bal ← or_abort overflow (checked_sub current_bal amount)
  modify λ s. record s { balance = some new_bal }
  usdc ← stored (λ s. s.usdc_token)
  settlement_addr ← stored (λ s. s.settlement)
  move_tokens transfer usdc env.contract settlement_addr amount
  pure settlement_addr

abbrev pub record_deduction : Recorder → Address → ℤ → ℕ → Call (Unit {0})
record_deduction recorder settlement amount request_id = do
  old ← gets (λ s. s.ledger)
  ledger ← or_abort token_panic (recorder old settlement amount request_id)
  modify λ s. record s { ledger = ledger }

unfoldable pub deduct : Transfer → Recorder → Env → Address → ℤ → ℕ → Call (Unit {0})
unfolding deduct_limits take_out
deduct transfer recorder env caller amount request_id = do
  (min_dep, max_deduct) ← deduct_limits env caller
  require_valid_deduct_amount amount min_dep max_deduct
  settlement_addr ← take_out transfer env amount
  record_deduction recorder settlement_addr amount request_id

-- The validating loop, with the total so far.
unfoldable pub check_items : ℤ → ℤ → ℤ → List (ℤ × ℕ) → Call ℤ
check_items min_dep max_deduct total [] = pure total
check_items min_dep max_deduct total ((amount, _) ∷ rest) = do
  require_valid_deduct_amount amount min_dep max_deduct
  total' ← or_abort (message "overflow") (checked_add total amount)
  check_items min_dep max_deduct total' rest

unfoldable pub record_each : Recorder → Address → List (ℤ × ℕ) → Call (Unit {0})
record_each recorder settlement [] = pure tt
record_each recorder settlement ((amount, request_id) ∷ rest) = do
  record_deduction recorder settlement amount request_id
  record_each recorder settlement rest

unfoldable pub batch_deduct : Transfer → Recorder → Env → Address → List (ℤ × ℕ) → Call (Unit {0})
unfolding deduct_limits check_items take_out record_each
batch_deduct transfer recorder env caller items = do
  (min_dep, max_deduct) ← deduct_limits env caller
  total_amount ← check_items min_dep max_deduct (pos 0) items
  settlement_addr ← take_out transfer env total_amount
  record_each recorder settlement_addr items
