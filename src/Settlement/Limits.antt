-- ===== src/Settlement/Limits.antt =====
-- The limits on a developer's withdrawals: contracts/settlement/src/limits.rs, and the claim windows
-- and daily caps of lib.rs.
use callora_contracts.Prelude.{
  ℕ, ◌/◌, ◌==◌, ltb, Bool, true, false, ◌&&◌, ◌||◌, Option, none, some, get_or, put, remove,
  if◌then◌else◌,
}
use callora_contracts.Prelude.Int.{ℤ, pos, ltb_ℤ}
use callora_contracts.Host.{Address, Env, message, ◌>>=◌, ◌>>◌, gets, modify, fail_if, abort_if}
use callora_contracts.Settlement.Types.{
  Store, Call, Event, DeveloperClaimWindow, invalid_claim_window, claim_window_closed,
  min_balance_violation, seconds_per_day,
}
use callora_contracts.Settlement.Access.{publish, require_admin, require_admin_or_fail}

-- `set_developer_min_balance`, also reached as `set_minimum_balance`
unfoldable pub set_developer_min_balance : Env → Address → Address → ℤ → Call (Unit {0})
unfolding require_admin
set_developer_min_balance env caller developer min_balance = do
  admin ← require_admin env caller
  abort_if (ltb_ℤ min_balance (pos 0)) (message "minimum balance must be non-negative")
  modify λ s. record s { developer_min_balance = put developer min_balance s.developer_min_balance }
  publish (Event.developer_min_balance_changed developer developer min_balance)

-- `get_developer_min_balance`
abbrev pub min_balance_of : Store → Address → ℤ
min_balance_of s developer = get_or (pos 0) (s.developer_min_balance developer)

unfoldable pub check_min_balance : Address → ℤ → Call (Unit {0})
check_min_balance developer remaining_balance = do
  min ← gets (λ s. min_balance_of s developer)
  fail_if (ltb_ℤ (pos 0) min && ltb_ℤ remaining_balance min) min_balance_violation

unfoldable pub set_developer_claim_window : Env → Address → Address → ℕ → ℕ → Call (Unit {0})
unfolding require_admin_or_fail
set_developer_claim_window env caller developer start_ts end_ts = do
  admin ← require_admin_or_fail env caller
  fail_if (ltb end_ts start_ts) invalid_claim_window
  modify λ s. record s {
    developer_claim_window =
        put developer (record { start_ts = start_ts; end_ts = end_ts }) s.developer_claim_window;
  }
  publish (
      Event.developer_claim_window_changed developer
        (record { developer = developer; start_ts = start_ts; end_ts = end_ts; enabled = true }))

unfoldable pub clear_developer_claim_window : Env → Address → Address → Call (Unit {0})
unfolding require_admin_or_fail
clear_developer_claim_window env caller developer = do
  admin ← require_admin_or_fail env caller
  modify λ s. record s { developer_claim_window = remove developer s.developer_claim_window }
  publish (
      Event.developer_claim_window_changed developer
        (record { developer = developer; start_ts = 0; end_ts = 0; enabled = false }))

-- `require_claim_window_open`: the window is inclusive at both ends, and no window is no limit.
abbrev pub window_is_closed : ℕ → Option DeveloperClaimWindow → Bool
window_is_closed now none = false
window_is_closed now (some window) = ltb now window.start_ts || ltb window.end_ts now

unfoldable pub require_claim_window_open : Env → Address → Call (Unit {0})
require_claim_window_open env developer = do
  window ← gets (λ s. s.developer_claim_window developer)
  fail_if (window_is_closed env.timestamp window) claim_window_closed

unfoldable pub set_daily_withdraw_cap : Env → Address → Address → ℤ → Call (Unit {0})
unfolding require_admin
set_daily_withdraw_cap env caller developer cap = do
  admin ← require_admin env caller
  modify λ s. record s { daily_withdraw_cap = put developer cap s.daily_withdraw_cap }
  publish (Event.daily_withdraw_cap_changed caller developer cap)

-- `get_daily_withdraw_cap`: 0 is no cap.
abbrev pub cap_of : Store → Address → ℤ
cap_of s developer = get_or (pos 0) (s.daily_withdraw_cap developer)

-- `get_withdrawal_today`
unfoldable pub get_withdrawal_today : Env → Store → Address → ℤ
get_withdrawal_today env s developer = elim (s.withdrawal_today developer) [
  | none ↦ pos 0
  | some d ↦ if d.day == env.timestamp / seconds_per_day then d.amount else pos 0
]
