-- ===== src/RevenuePool/Distribute/Checks.antt =====
-- The loops of a batch: what the first one checks, and what the second one pays.
use callora_contracts.Prelude.{
  ◌≡◌, ◌≢◌, true, false, some, arith, List, [], ◌∷◌, contains, All, refl, sym, ap, ◌∙◌,
}
use callora_contracts.Prelude.Int.{ℤ, pos, ◌≤ℤ◌, ◌<ℤ◌, ◌+ℤ◌, ◌-ℤ◌, int_laws, +ℤ_zero, +ℤ_assoc}
use callora_contracts.Host.{Address, Env, Transfer, ok, >>=-eq-ok}
use callora_contracts.RevenuePool.Types.{Store}
use callora_contracts.RevenuePool.Distribute.{check_payments, pay_one, pay_all}
use callora_contracts.Prelude.{Distinct}
use callora_contracts.Host.Token.{IsToken, amount_for, developers, total_of}

-- What the validating loop has found when it returns `total'`.
pub record IsChecked (max : ℤ) (seen : List Address) (total total' : ℤ)
    (payments : List (Address × ℤ)) (s s' : Store) : Type 0 where
  pub same : s' ≡ s
  pub sum : total' ≡ total +ℤ total_of payments
  pub amounts : All (λ (p : Address × ℤ). (pos 0 <ℤ p.1) × (p.1 ≤ℤ max)) payments
  pub distinct : Distinct (developers payments)
  pub unseen : (d : Address) → contains d seen ≡ true → contains d (developers payments) ≡ false

pub check_payments-step :
    (max : ℤ) (seen : List Address) (total : ℤ) (to : Address) (amount : ℤ)
    (rest : List (Address × ℤ)) (total' : ℤ) (s s' : Store)
    → check_payments max seen total ((to, amount) ∷ rest) s ≡ (ok total', s')
    → (contains to seen ≡ false)
      × (pos 0 <ℤ amount)
      × (amount ≤ℤ max)
      × (check_payments max (to ∷ seen) (total +ℤ amount) rest s ≡ (ok total', s'))
unfolding check_payments
check_payments-step max seen total to amount rest total' s s' h =
    (ground arith, ground arith, ground arith, ground arith)

pub check_payments-IsChecked :
    (max : ℤ) (seen : List Address) (total total' : ℤ) (payments : List (Address × ℤ))
    (s s' : Store)
    → check_payments max seen total payments s ≡ (ok total', s')
    → IsChecked max seen total total' payments s s'
unfolding check_payments
check_payments-IsChecked max seen total total' [] s s' h = record {
  same = cc;
  sum = ground (arith, +ℤ_zero total);
  amounts = tt;
  distinct = tt;
  unseen = λ d c. refl;
}
check_payments-IsChecked max seen total total' ((to, amount) ∷ rest) s s' h =
    let (new, positive, capped, more) =
      check_payments-step max seen total to amount rest total' s s' h in
    let i = check_payments-IsChecked max (to ∷ seen) (total +ℤ amount) total' rest s s' more in
    record {
      same = i.same;
      sum = i.sum ∙ +ℤ_assoc total amount (total_of rest);
      amounts = ((positive, capped), i.amounts);
      distinct = (i.unseen to (ground arith), i.distinct);
      unseen = λ d c. ground (arith, i.unseen d, c, new);
    }

-- What the paying loop has done.
pub record IsPaidOut (env : Env) (usdc : Address) (payments : List (Address × ℤ)) (s s' : Store)
    : Type 0 where
  pub outside : All (λ (p : Address × ℤ). p.0 ≢ env.contract) payments
  pub taken : s'.ledger usdc env.contract ≡ s.ledger usdc env.contract -ℤ total_of payments
  pub given :
      (d : Address) → d ≢ env.contract → s'.ledger usdc d ≡ s.ledger usdc d +ℤ amount_for d payments
  pub frame : s' ≡ record s { ledger = s'.ledger; events = s'.events }

pub pay_one_lem :
    (transfer : Transfer) (env : Env) (usdc to : Address) (amount : ℤ) (s s' : Store)
    → pay_one transfer env usdc to amount s ≡ (ok tt, s')
    → (to ≢ env.contract)
      × (transfer s.ledger usdc env.contract to amount ≡ some s'.ledger)
      × (s' ≡ record s { ledger = s'.ledger; events = s'.events })
unfolding pay_one
pay_one_lem transfer env usdc to amount s s' h = (ground arith, ground arith, ground arith)

pub minus_zero : (a : ℤ) → a ≡ a -ℤ pos 0
minus_zero a = omega int_laws

pub minus_sum : (a b c : ℤ) → a -ℤ b -ℤ c ≡ a -ℤ (b +ℤ c)
minus_sum a b c = omega int_laws

pub pay_all-IsPaidOut :
    (transfer : Transfer) (env : Env) (usdc : Address) (payments : List (Address × ℤ))
    (s s' : Store)
    → IsToken transfer
    → pay_all transfer env usdc payments s ≡ (ok tt, s')
    → IsPaidOut env usdc payments s s'
unfolding pay_all
pay_all-IsPaidOut transfer env usdc [] s s' token h = record {
  outside = tt;
  taken = ground (arith, minus_zero (s.ledger usdc env.contract));
  given = λ d n. ground (arith, +ℤ_zero (s.ledger usdc d));
  frame = cc;
}
pay_all-IsPaidOut transfer env usdc ((to, amount) ∷ rest) s s' token h =
    let (_, s₁, first, more) =
      >>=-eq-ok (pay_one transfer env usdc to amount) (λ _. pay_all transfer env usdc rest) s s' tt
        h in
    let (out, moved, frame) = pay_one_lem transfer env usdc to amount s s₁ first in
    let (debit, credit, others) =
      token.moves s.ledger s₁.ledger usdc env.contract to amount (λ e. out (sym e)) moved in
    let i = pay_all-IsPaidOut transfer env usdc rest s₁ s' token more in
    record {
      outside = (out, i.outside);
      taken =
          i.taken
          ∙ ap (λ x. x -ℤ total_of rest) debit
          ∙ minus_sum (s.ledger usdc env.contract) amount (total_of rest);
      given = λ d n. ground (
        arith,
        i.given d n,
        credit,
        others d n,
        +ℤ_assoc (s.ledger usdc d) amount (amount_for d rest),
      );
      frame = ground (arith, i.frame, frame);
    }
