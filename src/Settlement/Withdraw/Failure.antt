-- ===== src/Settlement/Withdraw/Failure.antt =====
-- A withdrawal that returns `Err` has written nothing, also before the host undoes the call.
use callora_contracts.Prelude.{◌≡◌, ◌∙◌, ◌≢◌, inl, inr, Option, arith}
use callora_contracts.Prelude.Int.{ℤ}
use callora_contracts.Host.{Address, Env, Transfer, ok, err, ◌>>=◌, >>=-eq-err}
use callora_contracts.Settlement.Types.{Store, SettlementError}
use callora_contracts.Settlement.Withdraw.{
  Approval, withdraw_developer_balance, approve_request, approve_amount, perform,
}
use callora_contracts.Settlement.Withdraw.Effect.{approve_request-IsRequest}

approve_request-err :
    (env : Env) (developer : Address) (amount : ℤ) (to : Option Address) (e : SettlementError)
    (s s' : Store)
    → approve_request env developer amount to s ≡ (err e, s')
    → s' ≡ s
unfolding approve_request
approve_request-err env developer amount to e s s' h = ground arith

approve_amount-err :
    (env : Env) (developer recipient usdc : Address) (amount : ℤ) (e : SettlementError)
    (s s' : Store)
    → approve_amount env developer amount recipient usdc s ≡ (err e, s')
    → s' ≡ s
unfolding approve_amount
approve_amount-err env developer recipient usdc amount e s s' h = ground arith

perform-ne-err :
    (transfer : Transfer) (env : Env) (developer : Address) (amount : ℤ) (a : Approval)
    (e : SettlementError) (s s' : Store)
    → perform transfer env developer amount a s ≢ (err e, s')
unfolding perform
perform-ne-err transfer env developer amount a e s s' h = ground arith

-- The store is untouched by a withdrawal that returns `Err`.
pub withdraw-err :
    (transfer : Transfer) (env : Env) (developer : Address) (amount : ℤ) (to : Option Address)
    (e : SettlementError) (s s' : Store)
    → withdraw_developer_balance transfer env developer amount to s ≡ (err e, s')
    → s' ≡ s
unfolding withdraw_developer_balance
withdraw-err transfer env developer amount to e s s' h =
    elim (>>=-eq-err (approve_request env developer amount to)
      (λ (r : Address × Address).
        approve_amount env developer amount r.0 r.1 >>= perform transfer env developer amount)
      s s' e h) [
        | inl asked ↦ approve_request-err env developer amount to e s s' asked
        | inr (r, s₁, asked, rest) ↦ behind r s₁ asked rest
      ]
  where
    behind :
        (r : Address × Address) (s₁ : Store)
        → approve_request env developer amount to s ≡ (ok r, s₁)
        → (approve_amount env developer amount r.0 r.1 >>= perform transfer env developer amount) s₁
          ≡ (err e, s')
        → s' ≡ s
    behind r s₁ asked rest =
        let same = (approve_request-IsRequest env developer amount to r s s₁ asked).0 in
        elim (>>=-eq-err (approve_amount env developer amount r.0 r.1)
          (perform transfer env developer amount) s₁ s' e rest) [
            | inl covered ↦ approve_amount-err env developer r.0 r.1 amount e s₁ s' covered ∙ same
            | inr (a, s₂, covered, performed) ↦
                absurd (perform-ne-err transfer env developer amount a e s₂ s' performed)
          ]
