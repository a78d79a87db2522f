-- ===== src/Vault/Money/Single.antt =====
-- A single deduction beside a batch of them.
use callora_contracts.Prelude.{ℕ, ◌≡◌, true, [], ◌∷◌, arith, ◌∙◌}
use callora_contracts.Prelude.Int.{ℤ, pos, ◌+ℤ◌, int_laws, in_i128}
use callora_contracts.Host.{Address, Env, Transfer, ok, ◌>>=◌, ◌>>◌, >>=-eq-ok, >>=-ok}
use callora_contracts.Vault.Types.{Store, Call}
use callora_contracts.Vault.Money.{
  Recorder, deduct_limits, take_out, record_deduction, deduct, check_items, record_each,
  batch_deduct, require_valid_deduct_amount,
}

zero_add : (a : ℤ) → pos 0 +ℤ a ≡ a
zero_add a = omega int_laws

check_items-one :
    (min_dep max_deduct amount : ℤ) (id : ℕ) (s s₁ : Store)
    → in_i128 amount ≡ true
    → require_valid_deduct_amount amount min_dep max_deduct s ≡ (ok tt, s₁)
    → check_items min_dep max_deduct (pos 0) ((amount, id) ∷ []) s ≡ (ok amount, s₁)
unfolding check_items
check_items-one min_dep max_deduct amount id s s₁ fits h = ground (arith, zero_add amount, fits)

record_each-one :
    (recorder : Recorder) (settlement : Address) (amount : ℤ) (id : ℕ) (s s' : Store)
    → record_deduction recorder settlement amount id s ≡ (ok tt, s')
    → record_each recorder settlement ((amount, id) ∷ []) s ≡ (ok tt, s')
unfolding record_each
record_each-one recorder settlement amount id s s' h = ground arith

-- A deduction of an i128 that returns does what a batch with it as the only item does.
pub deduct-batch_deduct :
    (transfer : Transfer) (recorder : Recorder) (env : Env) (spender : Address) (amount : ℤ)
    (id : ℕ) (s s' : Store)
    → in_i128 amount ≡ true
    → deduct transfer recorder env spender amount id s ≡ (ok tt, s')
    → batch_deduct transfer recorder env spender ((amount, id) ∷ []) s ≡ (ok tt, s')
unfolding deduct batch_deduct
deduct-batch_deduct transfer recorder env spender amount id s s' fits h =
    let behind : Address → Call (Unit {0}) = λ a. record_deduction recorder a amount id in
    let tail : Address → Call (Unit {0}) = λ a. record_each recorder a ((amount, id) ∷ []) in
    let (l, t, asked, more) =
      >>=-eq-ok (deduct_limits env spender)
        (λ (l : ℤ × ℤ).
          require_valid_deduct_amount amount l.0 l.1 >> (take_out transfer env amount >>= behind))
        s s' tt h in
    let (_, u, valid, rest) =
      >>=-eq-ok (require_valid_deduct_amount amount l.0 l.1)
        (λ _. take_out transfer env amount >>= behind) t s' tt more in
    let (a, v, taken, last) = >>=-eq-ok (take_out transfer env amount) behind u s' tt rest in
    >>=-ok (deduct_limits env spender)
      (λ (l : ℤ × ℤ). check_items l.0 l.1 (pos 0) ((amount, id) ∷ []) >>= λ (total : ℤ).
        take_out transfer env total >>= tail)
      s t l asked
    ∙ >>=-ok (check_items l.0 l.1 (pos 0) ((amount, id) ∷ []))
        (λ (total : ℤ). take_out transfer env total >>= tail) t u amount
        (check_items-one l.0 l.1 amount id t u fits valid)
    ∙ >>=-ok (take_out transfer env amount) tail u v a taken
    ∙ record_each-one recorder a amount id v s' last
