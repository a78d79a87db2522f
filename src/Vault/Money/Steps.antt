-- ===== src/Vault/Money/Steps.antt =====
-- The calls that `batch_deduct` consists of.
use callora_contracts.Prelude.{
  ℕ, ◌≡◌, false, some, Option-cases, inl, inr, List, [], ◌∷◌, All, arith, ◌∙◌,
}
use callora_contracts.Prelude.Int.{ℤ, pos, ◌≤ℤ◌, ◌<ℤ◌, ◌+ℤ◌, ◌-ℤ◌, +ℤ_zero, +ℤ_assoc}
use callora_contracts.Host.{Address, Env, Transfer, Ledger, ok, ◌>>=◌, >>=-eq-ok}
use callora_contracts.Vault.Types.{Store}
use callora_contracts.Vault.Access.{is_paused}
use callora_contracts.Vault.Money.{
  Recorder, tracked, deduct_limits, take_out, record_deduction, check_items, record_each,
  batch_deduct,
}

-- The settlement contract takes nothing from the vault when a deduction is recorded.
pub record IsRecorder (contract : Address) (recorder : Recorder) : Type 0 where
  pub keeps :
      (l l' : Ledger) (a t : Address) (amount : ℤ) (id : ℕ)
      → recorder l a amount id ≡ some l'
      → l' t contract ≡ l t contract

-- The limits come from the store, which they leave as it is.
pub deduct_limits_lem :
    (env : Env) (caller : Address) (min_dep max_deduct : ℤ) (s s' : Store)
    → deduct_limits env caller s ≡ (ok (min_dep, max_deduct), s')
    → (s' ≡ s)
      × (s.authorized_caller ≡ some caller)
      × (is_paused s ≡ false)
      × (s.min_deposit ≡ some min_dep)
      × (s.max_deduct ≡ some max_deduct)
unfolding deduct_limits
deduct_limits_lem env caller min_dep max_deduct s s' h =
    (ground arith, ground arith, ground arith, ground arith, ground arith)

-- What `take_out` has done.
pub record IsTakenOut (transfer : Transfer) (env : Env) (amount : ℤ) (settlement usdc : Address)
    (s s' : Store) : Type 0 where
  pub token : s.usdc_token ≡ some usdc
  pub target : s.settlement ≡ some settlement
  pub covered : amount ≤ℤ tracked s
  pub debited : tracked s' ≡ tracked s -ℤ amount
  pub transferred : transfer s.ledger usdc env.contract settlement amount ≡ some s'.ledger

pub take_out-IsTakenOut :
    (transfer : Transfer) (env : Env) (amount : ℤ) (settlement : Address) (s s' : Store)
    → take_out transfer env amount s ≡ (ok settlement, s')
    → (usdc : Address) × IsTakenOut transfer env amount settlement usdc s s'
unfolding take_out
take_out-IsTakenOut transfer env amount settlement s s' h = elim (Option-cases s.usdc_token) [
  | inl gone ↦ ground (arith, gone)
  | inr (usdc, e) ↦ (
    usdc,
    record {
      token = e;
      target = ground (arith, e);
      covered = ground (arith, e);
      debited = ground (arith, e);
      transferred = ground (arith, e);
    },
  )
]

pub record_each-keeps :
    (recorder : Recorder) (contract settlement t : Address) (items : List (ℤ × ℕ)) (s s' : Store)
    → IsRecorder contract recorder
    → record_each recorder settlement items s ≡ (ok tt, s')
    → (tracked s' ≡ tracked s) × (s'.ledger t contract ≡ s.ledger t contract)
unfolding record_each
record_each-keeps recorder contract settlement t [] s s' r h = (ground arith, ground arith)
record_each-keeps recorder contract settlement t ((amount, id) ∷ rest) s s' r h =
    let (_, s₁, first, more) =
      >>=-eq-ok (record_deduction recorder settlement amount id)
        (λ _. record_each recorder settlement rest) s s' tt h in
    let (same, held) = record_each-keeps recorder contract settlement t rest s₁ s' r more in
    let recorded : recorder s.ledger settlement amount id ≡ some s₁.ledger =
      ground (arith, first) in
    let one : tracked s₁ ≡ tracked s = ground (arith, first) in
    (same ∙ one, held ∙ r.keeps s.ledger s₁.ledger settlement t amount id recorded)

abbrev pub sum_of : List (ℤ × ℕ) → ℤ
sum_of [] = pos 0
sum_of ((amount, id) ∷ rest) = amount +ℤ sum_of rest

pub check_items_lem :
    (min_dep max_deduct total total' : ℤ) (items : List (ℤ × ℕ)) (s s' : Store)
    → check_items min_dep max_deduct total items s ≡ (ok total', s')
    → (s' ≡ s)
      × (total' ≡ total +ℤ sum_of items)
      × All (λ (i : ℤ × ℕ). (pos 0 <ℤ i.0) × (min_dep ≤ℤ i.0) × (i.0 ≤ℤ max_deduct)) items
unfolding check_items
check_items_lem min_dep max_deduct total total' [] s s' h = (cc, ground (arith, +ℤ_zero total), tt)
check_items_lem min_dep max_deduct total total' ((amount, id) ∷ rest) s s' h =
    let more : check_items min_dep max_deduct (total +ℤ amount) rest s ≡ (ok total', s') =
      ground arith in
    let (same, sum, all) =
      check_items_lem min_dep max_deduct (total +ℤ amount) total' rest s s' more in
    (
      same,
      sum ∙ +ℤ_assoc total amount (sum_of rest),
      ((ground arith, ground arith, ground arith), all),
    )

pub deduct-steps :
    (transfer : Transfer) (recorder : Recorder) (env : Env) (spender : Address)
    (items : List (ℤ × ℕ)) (s s' : Store)
    → batch_deduct transfer recorder env spender items s ≡ (ok tt, s')
    → (limits : ℤ × ℤ) × (total : ℤ) × (settlement : Address) × (s₁ : Store) × (deduct_limits env
          spender s
        ≡ (ok limits, s))
      × (check_items limits.0 limits.1 (pos 0) items s ≡ (ok total, s))
      × (take_out transfer env total s ≡ (ok settlement, s₁))
      × (record_each recorder settlement items s₁ ≡ (ok tt, s'))
unfolding batch_deduct
deduct-steps transfer recorder env spender items s s' h =
    let (limits, t, asked, more) =
      >>=-eq-ok (deduct_limits env spender)
        (λ (l : ℤ × ℤ). check_items l.0 l.1 (pos 0) items >>= λ (total : ℤ).
          take_out transfer env total >>= λ (a : Address). record_each recorder a items)
        s s' tt h in
    let same = (deduct_limits_lem env spender limits.0 limits.1 s t asked).0 in
    let (total, u, checked, rest) =
      >>=-eq-ok (check_items limits.0 limits.1 (pos 0) items)
        (λ (total : ℤ).
          take_out transfer env total >>= λ (a : Address). record_each recorder a items)
        t s' tt more in
    let same' = (check_items_lem limits.0 limits.1 (pos 0) total items t u checked).0 in
    let (settlement, s₁, taken, recorded) =
      >>=-eq-ok (take_out transfer env total) (λ (a : Address). record_each recorder a items) u s'
        tt rest in
    (
      limits,
      total,
      settlement,
      s₁,
      cc (asked, same),
      cc (checked, same, same'),
      cc (taken, same, same'),
      recorded,
    )
