-- ===== src/Settlement/Withdraw/Effect.antt =====
-- What a withdrawal that returns has checked and changed.
use callora_contracts.Prelude.{◌≡◌, ◌≢◌, subst, ◌⊎◌, true, false, Option, some, arith, get_or}
use callora_contracts.Prelude.Int.{ℤ, pos, ◌+ℤ◌, ◌-ℤ◌, in_i128, ◌<ℤ◌, ◌≤ℤ◌, saturating_add}
use callora_contracts.Host.{Address, Env, Transfer, ok, >>=-eq-ok, ◌>>=◌}
use callora_contracts.Settlement.Types.{Store}
use callora_contracts.Settlement.Payments.{balance_of}
use callora_contracts.Settlement.Limits.{min_balance_of, cap_of, window_is_closed}
use callora_contracts.Settlement.Withdraw.{
  Approval, withdraw_developer_balance, daily_of, approve_request, approve_amount, perform,
}

-- The first half of the checks.
pub record IsRequest (env : Env) (developer : Address) (amount : ℤ) (to : Option Address)
    (s : Store) (usdc : Address) : Type 0 where
  pub authorized : env.authorized developer ≡ true
  pub positive : pos 0 <ℤ amount
  pub recipient : get_or developer to ≢ env.contract
  pub open_window : window_is_closed env.timestamp (s.developer_claim_window developer) ≡ false
  pub configured : s.usdc ≡ some usdc
  pub minimum :
      pos 0 <ℤ min_balance_of s developer
      → min_balance_of s developer ≤ℤ balance_of s developer usdc -ℤ amount

pub approve_request-IsRequest :
    (env : Env) (developer : Address) (amount : ℤ) (to : Option Address) (r : Address × Address)
    (s s' : Store)
    → approve_request env developer amount to s ≡ (ok r, s')
    → (s' ≡ s) × (r.0 ≡ get_or developer to) × IsRequest env developer amount to s r.1
unfolding approve_request
approve_request-IsRequest env developer amount to r s s' h = (
  ground arith,
  ground arith,
  record {
    authorized = ground arith;
    positive = ground arith;
    recipient = ground arith;
    open_window = ground arith;
    configured = ground arith;
    minimum = λ p. ground arith;
  },
)

-- The second half.
pub record IsCovered (env : Env) (developer : Address) (amount : ℤ) (s : Store) (usdc : Address)
    : Type 0 where
  pub balance : amount ≤ℤ balance_of s developer usdc
  pub held : amount ≤ℤ s.ledger usdc env.contract
  pub cap :
      pos 0 <ℤ cap_of s developer
      → (in_i128 ((daily_of env s developer).amount +ℤ amount) ≡ true)
        × ((daily_of env s developer).amount +ℤ amount ≤ℤ cap_of s developer)

pub approve_amount-IsCovered :
    (env : Env) (developer recipient usdc : Address) (amount : ℤ) (a : Approval) (s s' : Store)
    → approve_amount env developer amount recipient usdc s ≡ (ok a, s')
    → (s' ≡ s)
      × (a ≡ record {
        recipient = recipient;
        usdc = usdc;
        daily = daily_of env s developer;
        new_balance = balance_of s developer usdc -ℤ amount;
      })
      × IsCovered env developer amount s usdc
unfolding approve_amount
approve_amount-IsCovered env developer recipient usdc amount a s s' h = (
  ground arith,
  ground arith,
  record { balance = ground arith; held = ground arith; cap = λ p. (ground arith, ground arith) },
)

-- The writes.
pub record IsWithdrawn (transfer : Transfer) (env : Env) (developer : Address) (amount : ℤ)
    (recipient : Address) (usdc : Address) (s s' : Store) : Type 0 where
  pub debited : balance_of s' developer usdc ≡ balance_of s developer usdc -ℤ amount
  pub transferred : transfer s.ledger usdc env.contract recipient amount ≡ some s'.ledger
  pub spent :
      s'.withdrawal_today developer
      ≡ some (record {
        day = (daily_of env s developer).day;
        amount = saturating_add (daily_of env s developer).amount amount;
      })
  pub others : (d t : Address) → (d ≢ developer) ⊎ (t ≢ usdc) → balance_of s' d t ≡ balance_of s d t
  pub pool : s'.global_pool ≡ s.global_pool
  pub marks : s'.high_water_mark ≡ s.high_water_mark
  pub pool_mark : s'.pool_high_water_mark ≡ s.pool_high_water_mark
  pub index : s'.developer_index ≡ s.developer_index
  pub legacy : s'.developer_balance_v1 ≡ s.developer_balance_v1
  pub proposals : s'.pending_migration ≡ s.pending_migration

perform-IsWithdrawn :
    (transfer : Transfer) (env : Env) (developer : Address) (amount : ℤ) (recipient usdc : Address)
    (s s' : Store)
    → perform transfer env developer amount
        (record {
          recipient = recipient;
          usdc = usdc;
          daily = daily_of env s developer;
          new_balance = balance_of s developer usdc -ℤ amount;
        })
        s
      ≡ (ok tt, s')
    → IsWithdrawn transfer env developer amount recipient usdc s s'
unfolding perform
perform-IsWithdrawn transfer env developer amount recipient usdc s s' h = record {
  debited = ground arith;
  transferred = ground arith;
  spent = ground arith;
  others = λ d t n. ground arith;
  pool = ground arith;
  marks = ground arith;
  pool_mark = ground arith;
  index = ground arith;
  legacy = ground arith;
  proposals = ground arith;
}

-- A withdrawal that returns was authorised by the developer, inside the claim window, for a positive
-- amount that the balance, the minimum balance, the daily cap and the contract's tokens cover. It
-- has moved exactly that amount from the contract to the recipient, who is not the contract, and
-- debited exactly that developer's balance.
pub withdraw_effect :
    (transfer : Transfer) (env : Env) (developer : Address) (amount : ℤ) (to : Option Address)
    (s s' : Store)
    → withdraw_developer_balance transfer env developer amount to s ≡ (ok tt, s')
    → (usdc : Address) × IsRequest env developer amount to s usdc
      × IsCovered env developer amount s usdc
      × IsWithdrawn transfer env developer amount (get_or developer to) usdc s s'
unfolding withdraw_developer_balance
withdraw_effect transfer env developer amount to s s' h =
    let (r, s₁, asked, rest) =
      >>=-eq-ok (approve_request env developer amount to)
        (λ (r : Address × Address).
          approve_amount env developer amount r.0 r.1 >>= perform transfer env developer amount)
        s s' tt h in
    let (a, s₂, covered, performed) =
      >>=-eq-ok (approve_amount env developer amount r.0 r.1)
        (perform transfer env developer amount) s₁ s' tt rest in
    let (same₁, recipient, request) =
      approve_request-IsRequest env developer amount to r s s₁ asked in
    let (same₂, approval, cover) =
      approve_amount-IsCovered env developer r.0 r.1 amount a s₁ s₂ covered in
    (
      r.1,
      request,
      subst (λ (x : Store). IsCovered env developer amount x r.1) same₁ cover,
      perform-IsWithdrawn transfer env developer amount (get_or developer to) r.1 s s'
          (cc (same₁, same₂, recipient, approval, performed)),
    )
