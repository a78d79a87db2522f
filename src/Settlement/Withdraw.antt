-- ===== src/Settlement/Withdraw.antt =====
-- Money that goes out: `withdraw_developer_balance` of contracts/settlement/src/lib.rs. The token contract's `transfer` is a parameter.
pub mod Effect
pub mod Cap
pub mod Failure
use callora_contracts.Prelude.{◌/◌, ◌==◌, Option, none, some, get_or, put, put₂, if◌then◌else◌}
use callora_contracts.Prelude.Int.{ℤ, pos, leb_ℤ, ltb_ℤ, checked_add, checked_sub, saturating_add}
use callora_contracts.Host.{
  Address, Env, Transfer, message, token_panic, ◌>>=◌, ◌>>◌, pure, gets, modify, fail_if, abort_if,
  or_fail, or_abort, require_auth,
}
use callora_contracts.Settlement.Types.{
  Store, Call, Event, DailyWithdrawState, amount_not_positive, usdc_token_not_configured,
  insufficient_developer_balance, developer_balance_underflow, insufficient_contract_balance,
  daily_withdraw_cap_exceeded, seconds_per_day,
}
use callora_contracts.Settlement.Access.{publish}
use callora_contracts.Settlement.Limits.{check_min_balance, require_claim_window_open, cap_of}
use callora_contracts.Settlement.Payments.{balance_of}

-- The day's withdrawals so far: a missing record or one of another day reads as 0.
abbrev pub daily_of : Env → Store → Address → DailyWithdrawState
daily_of env s developer =
    let today = env.timestamp / seconds_per_day in
    let fresh : DailyWithdrawState = record { day = today; amount = pos 0 } in
    elim (s.withdrawal_today developer) [
      | none ↦ fresh
      | some d ↦ if d.day == today then d else fresh
    ]

abbrev pub get_usdc_token : Call Address
get_usdc_token = do or_fail usdc_token_not_configured (← gets (λ s. s.usdc))

-- The cap is tested only where it is positive.
unfoldable pub check_daily_cap : ℤ → ℤ → ℤ → Call (Unit {0})
check_daily_cap cap spent amount =
    if ltb_ℤ (pos 0) cap
    then (do
      projected ← or_fail daily_withdraw_cap_exceeded (checked_add spent amount)
      fail_if (ltb_ℤ cap projected) daily_withdraw_cap_exceeded)
    else pure tt

-- `token::Client::transfer`
unfoldable pub pay : Transfer → Address → Address → Address → ℤ → Call (Unit {0})
pay transfer token from to amount = do
  ledger ← gets (λ s. s.ledger)
  ledger' ← or_abort token_panic (transfer ledger token from to amount)
  modify λ s. record s { ledger = ledger' }

-- What the checks of a withdrawal settle on.
pub record Approval : Type 0 where
  pub recipient : Address
  pub usdc : Address
  pub daily : DailyWithdrawState
  pub new_balance : ℤ

-- The checks up to the developer's minimum balance: the token and the recipient.
unfoldable pub approve_request : Env → Address → ℤ → Option Address → Call (Address × Address)
unfolding require_claim_window_open check_min_balance
approve_request env developer amount to = do
  require_auth env developer
  fail_if (leb_ℤ amount (pos 0)) amount_not_positive
  let recipient = get_or developer to
  abort_if (recipient == env.contract)
      (message "invalid recipient: cannot withdraw to contract itself")
  require_claim_window_open env developer
  usdc ← get_usdc_token
  dev_balance ← gets (λ s. balance_of s developer usdc)
  remaining ← or_fail insufficient_developer_balance (checked_sub dev_balance amount)
  check_min_balance developer remaining
  pure (recipient, usdc)

-- The checks after it: the balance, the daily cap and what the contract holds.
unfoldable pub approve_amount : Env → Address → ℤ → Address → Address → Call Approval
unfolding check_daily_cap
approve_amount env developer amount recipient usdc = do
  current_balance ← gets (λ s. balance_of s developer usdc)
  fail_if (ltb_ℤ current_balance amount) insufficient_developer_balance
  daily ← gets (λ s. daily_of env s developer)
  cap ← gets (λ s. cap_of s developer)
  check_daily_cap cap daily.amount amount
  new_balance ← or_fail developer_balance_underflow (checked_sub current_balance amount)
  held ← gets (λ s. s.ledger usdc env.contract)
  fail_if (ltb_ℤ held amount) insufficient_contract_balance
  pure (record { recipient = recipient; usdc = usdc; daily = daily; new_balance = new_balance })

-- The writes, once every check has passed.
unfoldable pub perform : Transfer → Env → Address → ℤ → Approval → Call (Unit {0})
unfolding pay
perform transfer env developer amount a = do
  pay transfer a.usdc env.contract a.recipient amount
  modify λ s. record s {
    developer_balance = put₂ developer a.usdc a.new_balance s.developer_balance;
    withdrawal_today =
        put developer (record { day = a.daily.day; amount = saturating_add a.daily.amount amount })
          s.withdrawal_today;
  }
  publish (
      Event.developer_withdraw developer (record {
        developer = developer;
        amount = amount;
        remaining_balance = a.new_balance;
        to = a.recipient;
        token = a.usdc;
      }))

unfoldable pub withdraw_developer_balance :
    Transfer → Env → Address → ℤ → Option Address → Call (Unit {0})
unfolding approve_request approve_amount perform
withdraw_developer_balance transfer env developer amount to = do
  (recipient, usdc) ← approve_request env developer amount to
  approval ← approve_amount env developer amount recipient usdc
  perform transfer env developer amount approval
