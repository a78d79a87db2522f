-- ===== src/RevenuePool/Distribute/Paid.antt =====
-- What a batch of distributions pays, on a token contract that moves what it is told to.
use callora_contracts.Prelude.{
  Option-cases, inl, inr, ◌≡◌, ◌≢◌, ◌≤◌, false, some, arith, List, [], ◌∷◌, length, All,
}
use callora_contracts.Prelude.Int.{ℤ, pos, ◌≤ℤ◌, ◌<ℤ◌, ◌+ℤ◌, ◌-ℤ◌}
use callora_contracts.Host.{Address, Env, Transfer, ok, ◌>>=◌, >>=-eq-ok}
use callora_contracts.RevenuePool.Types.{Store, max_batch_size}
use callora_contracts.RevenuePool.Access.{is_paused}
use callora_contracts.RevenuePool.Yield.{get_max_distribute}
use callora_contracts.RevenuePool.Distribute.{
  check_payments, pay_one, pay_all, pay_checked, batch_distribute,
}
use callora_contracts.Prelude.{Distinct}
use callora_contracts.Host.Token.{amount_for, developers, total_of}
use callora_contracts.RevenuePool.Distribute.Checks.{check_payments-IsChecked, pay_one_lem}

pub record IsBatch (env : Env) (caller usdc : Address) (payments : List (Address × ℤ))
    (s s' : Store) : Type 0 where
  pub admin : s.admin ≡ some caller
  pub running : is_paused s ≡ false
  pub sized : (1 ≤ length payments) × (length payments ≤ max_batch_size)
  pub amounts : All (λ (p : Address × ℤ). (pos 0 <ℤ p.1) × (p.1 ≤ℤ get_max_distribute s)) payments
  pub distinct : Distinct (developers payments)
  pub outside : All (λ (p : Address × ℤ). p.0 ≢ env.contract) payments
  pub covered : total_of payments ≤ℤ s.ledger usdc env.contract
  pub taken : s'.ledger usdc env.contract ≡ s.ledger usdc env.contract -ℤ total_of payments
  pub given :
      (d : Address) → d ≢ env.contract → s'.ledger usdc d ≡ s.ledger usdc d +ℤ amount_for d payments
  pub frame : s' ≡ record s { ledger = s'.ledger; events = s'.events }

batch_distribute-loops :
    (transfer : Transfer) (env : Env) (caller : Address) (payments : List (Address × ℤ))
    (s s' : Store)
    → batch_distribute transfer env caller payments s ≡ (ok tt, s')
    → (s.admin ≡ some caller)
      × (is_paused s ≡ false)
      × (1 ≤ length payments)
      × (length payments ≤ max_batch_size)
      × ((check_payments (get_max_distribute s) [] (pos 0) payments >>= λ (total : ℤ).
              pay_checked transfer env payments total)
            s
          ≡ (ok tt, s'))
unfolding batch_distribute pay_checked
batch_distribute-loops transfer env caller payments s s' h =
    (ground arith, ground arith, ground arith, ground arith, ground arith)

pay_checked-pays :
    (transfer : Transfer) (env : Env) (payments : List (Address × ℤ)) (total : ℤ) (s s' : Store)
    → pay_checked transfer env payments total s ≡ (ok tt, s')
    → (usdc : Address) × (s.usdc ≡ some usdc)
      × (total ≤ℤ s.ledger usdc env.contract)
      × (pay_all transfer env usdc payments s ≡ (ok tt, s'))
unfolding pay_checked
pay_checked-pays transfer env payments total s s' h = elim (Option-cases s.usdc) [
  | inl gone ↦ ground (arith, gone)
  | inr (usdc, e) ↦ (usdc, e, ground (arith, e), ground (arith, e))
]

pay_all-frame :
    (transfer : Transfer) (env : Env) (usdc : Address) (payments : List (Address × ℤ))
    (s s' : Store)
    → pay_all transfer env usdc payments s ≡ (ok tt, s')
    → s' ≡ record s { ledger = s'.ledger; events = s'.events }
unfolding pay_all
pay_all-frame transfer env usdc [] s s' h = cc
pay_all-frame transfer env usdc ((to, amount) ∷ rest) s s' h =
    let (_, s₁, first, more) =
      >>=-eq-ok (pay_one transfer env usdc to amount) (λ _. pay_all transfer env usdc rest) s s' tt
        h in
    let (_, _, frame) = pay_one_lem transfer env usdc to amount s s₁ first in
    ground (arith, pay_all-frame transfer env usdc rest s₁ s' more, frame)

-- Whatever the token contract does, a batch writes no entry of the pool's own.
pub batch_distribute-frame :
    (transfer : Transfer) (env : Env) (caller : Address) (payments : List (Address × ℤ))
    (s s' : Store)
    → batch_distribute transfer env caller payments s ≡ (ok tt, s')
    → s' ≡ record s { ledger = s'.ledger; events = s'.events }
batch_distribute-frame transfer env caller payments s s' h =
    let (_, _, _, _, loops) = batch_distribute-loops transfer env caller payments s s' h in
    let (total, t, checked, behind) =
      >>=-eq-ok (check_payments (get_max_distribute s) [] (pos 0) payments)
        (λ (total : ℤ). pay_checked transfer env payments total) s s' tt loops in
    let c = check_payments-IsChecked (get_max_distribute s) [] (pos 0) total payments s t checked in
    let (usdc, _, _, ran) =
      pay_checked-pays transfer env payments total s s' (cc (behind, c.same)) in
    pay_all-frame transfer env usdc payments s s' ran
