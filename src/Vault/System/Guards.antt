-- ===== src/Vault/System/Guards.antt =====
-- The operations of the vault that its guards are about.
use callora_contracts.Prelude.{ℕ, ◌≡◌, List, [], ◌∷◌, arith, ◌∙◌, subst}
use callora_contracts.Prelude.Int.{ℤ, pos, ◌≤ℤ◌, ◌+ℤ◌, ◌-ℤ◌}
use callora_contracts.Host.{Address, Env, Transfer, ok, ◌>>=◌, ◌>>◌, >>=-eq-ok}
use callora_contracts.Vault.Types.{Store, Call}
use callora_contracts.Vault.Money.{Recorder, tracked, deposit, deduct, batch_deduct}
use callora_contracts.Vault.System.Quiet.{IsSafe}
use callora_contracts.Vault.Money.Steps.{deduct-steps, deduct_limits_lem}
use callora_contracts.Vault.Money.{
  take_out, record_each, record_deduction, deduct_limits, require_valid_deduct_amount,
}

-- Only the tracked balance has changed, of what the guards are about.
record IsPaid (s s' : Store) : Type 0 where
  owner : s'.owner ≡ s.owner
  balance : pos 0 ≤ℤ tracked s → pos 0 ≤ℤ tracked s'
  window : s'.timelock_window ≡ s.timelock_window
  pausing : s'.pending_pause ≡ s.pending_pause
  upgrading : s'.pending_upgrade ≡ s.pending_upgrade
  sweeping : s'.pending_sweep ≡ s.pending_sweep

paid-IsSafe : (s s' : Store) → IsPaid s s' → IsSafe s → IsSafe s'
paid-IsSafe s s' q g = record {
  owned = ground (arith, q.owner, g.owned);
  solvent = q.balance g.solvent;
  window = ground (arith, q.window, g.window);
  pausing = λ p e. ground (arith, q.pausing, e, g.pausing p);
  upgrading = λ p e. ground (arith, q.upgrading, e, g.upgrading p);
  sweeping = λ p e. g.sweeping p (cc (q.sweeping, e));
}

IsPaid-trans : (s t u : Store) → IsPaid s t → IsPaid t u → IsPaid s u
IsPaid-trans s t u h k = record {
  owner = k.owner ∙ h.owner;
  balance = λ e. k.balance (h.balance e);
  window = k.window ∙ h.window;
  pausing = k.pausing ∙ h.pausing;
  upgrading = k.upgrading ∙ h.upgrading;
  sweeping = k.sweeping ∙ h.sweeping;
}

take_out-IsPaid :
    (transfer : Transfer) (env : Env) (amount : ℤ) (settlement : Address) (s s' : Store)
    → take_out transfer env amount s ≡ (ok settlement, s')
    → IsPaid s s'
unfolding take_out ◌-ℤ◌
take_out-IsPaid transfer env amount settlement s s' h = record {
  owner = ground arith;
  balance = λ e. ground arith;
  window = ground arith;
  pausing = ground arith;
  upgrading = ground arith;
  sweeping = ground arith;
}

recorded-IsPaid :
    (recorder : Recorder) (settlement : Address) (amount : ℤ) (id : ℕ) (s s' : Store)
    → record_deduction recorder settlement amount id s ≡ (ok tt, s')
    → IsPaid s s'
recorded-IsPaid recorder settlement amount id s s' h = record {
  owner = ground arith;
  balance = λ e. ground arith;
  window = ground arith;
  pausing = ground arith;
  upgrading = ground arith;
  sweeping = ground arith;
}

record_each-IsPaid :
    (recorder : Recorder) (settlement : Address) (items : List (ℤ × ℕ)) (s s' : Store)
    → record_each recorder settlement items s ≡ (ok tt, s')
    → IsPaid s s'
unfolding record_each
record_each-IsPaid recorder settlement [] s s' h = record {
  owner = ground arith;
  balance = λ e. ground arith;
  window = ground arith;
  pausing = ground arith;
  upgrading = ground arith;
  sweeping = ground arith;
}
record_each-IsPaid recorder settlement ((amount, id) ∷ rest) s s' h =
    let (_, s₁, first, more) =
      >>=-eq-ok (record_deduction recorder settlement amount id)
        (λ _. record_each recorder settlement rest) s s' tt h in
    IsPaid-trans s s₁ s' (recorded-IsPaid recorder settlement amount id s s₁ first)
      (record_each-IsPaid recorder settlement rest s₁ s' more)

valid_same :
    (a min max : ℤ) (s s' : Store) → require_valid_deduct_amount a min max s ≡ (ok tt, s') → s' ≡ s
valid_same a min max s s' h = ground arith

module _ (transfer : Transfer) (env : Env) (s s' : Store) (g : IsSafe s) where
  pub deposit-IsSafe : (c : Address) (a : ℤ) → deposit transfer env c a s ≡ (ok tt, s') → IsSafe s'
  unfolding deposit ◌+ℤ◌
  deposit-IsSafe c a h =
      paid-IsSafe s s'
        (record {
          owner = ground arith;
          balance = λ e. ground arith;
          window = ground arith;
          pausing = ground arith;
          upgrading = ground arith;
          sweeping = ground arith;
        })
        g

  pub batch_deduct-IsSafe :
      (recorder : Recorder) (c : Address) (items : List (ℤ × ℕ))
      → batch_deduct transfer recorder env c items s ≡ (ok tt, s')
      → IsSafe s'
  batch_deduct-IsSafe recorder c items h =
      let (_, total, settlement, s₁, _, _, taken, recorded) =
        deduct-steps transfer recorder env c items s s' h in
      paid-IsSafe s s'
        (IsPaid-trans s s₁ s' (take_out-IsPaid transfer env total settlement s s₁ taken)
          (record_each-IsPaid recorder settlement items s₁ s' recorded))
        g

  pub deduct-IsSafe :
      (recorder : Recorder) (c : Address) (a : ℤ) (id : ℕ)
      → deduct transfer recorder env c a id s ≡ (ok tt, s')
      → IsSafe s'
  unfolding deduct
  deduct-IsSafe recorder c a id h =
      let behind : Address → Call (Unit {0}) =
        λ settlement. record_deduction recorder settlement a id in
      let (l, t, asked, more) =
        >>=-eq-ok (deduct_limits env c)
          (λ (l : ℤ × ℤ).
            require_valid_deduct_amount a l.0 l.1 >> (take_out transfer env a >>= behind))
          s s' tt h in
      let (_, u, valid, rest) =
        >>=-eq-ok (require_valid_deduct_amount a l.0 l.1) (λ _. take_out transfer env a >>= behind)
          t s' tt more in
      let (settlement, v, taken, last) = >>=-eq-ok (take_out transfer env a) behind u s' tt rest in
      let same : u ≡ s =
        valid_same a l.0 l.1 t u valid ∙ (deduct_limits_lem env c l.0 l.1 s t asked).0 in
      paid-IsSafe s s'
        (subst (λ x. IsPaid x s') same
          (IsPaid-trans u v s' (take_out-IsPaid transfer env a settlement u v taken)
            (recorded-IsPaid recorder settlement a id v s' last)))
        g
