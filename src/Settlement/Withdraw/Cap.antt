-- ===== src/Settlement/Withdraw/Cap.antt =====
-- The daily cap: what `get_withdrawal_today` reports grows by each withdrawal and stays under the cap.
use callora_contracts.Prelude.{◌≡◌, ◌/◌, Option, arith}
use callora_contracts.Prelude.Int.{ℤ, pos, ◌+ℤ◌, ◌<ℤ◌, ◌≤ℤ◌}
use callora_contracts.Host.{Address, Env, Transfer, ok}
use callora_contracts.Settlement.Types.{Store, seconds_per_day}
use callora_contracts.Settlement.Limits.{cap_of, get_withdrawal_today}
use callora_contracts.Settlement.Withdraw.{withdraw_developer_balance, daily_of}
use callora_contracts.Settlement.Withdraw.Effect.{withdraw_effect}

-- The accumulator that a withdrawal reads is the day's total, and is dated today.
daily_of-today :
    (env : Env) (s : Store) (developer : Address)
    → ((daily_of env s developer).amount ≡ get_withdrawal_today env s developer)
      × ((daily_of env s developer).day ≡ env.timestamp / seconds_per_day)
unfolding get_withdrawal_today
daily_of-today env s developer = ground arith

-- With a positive cap, a withdrawal that returns raises the day's total by its amount, and the new
-- total is within the cap.
pub withdraw-cap :
    (transfer : Transfer) (env : Env) (developer : Address) (amount : ℤ) (to : Option Address)
    (s s' : Store)
    → pos 0 <ℤ cap_of s developer
    → withdraw_developer_balance transfer env developer amount to s ≡ (ok tt, s')
    → (get_withdrawal_today env s' developer ≡ get_withdrawal_today env s developer +ℤ amount)
      × (get_withdrawal_today env s' developer ≤ℤ cap_of s developer)
unfolding get_withdrawal_today
withdraw-cap transfer env developer amount to s s' capped h =
    let (usdc, request, covered, done) = withdraw_effect transfer env developer amount to s s' h in
    let (fits, under) = covered.cap capped in
    let (total, today) = daily_of-today env s developer in
    let spent = done.spent in
    (ground (arith, fits, total, today, spent), ground (arith, fits, under, today, spent))
