-- ===== src/Settlement/Batch/Isolation.antt =====
-- `batch_settle` against a specification: every withdrawal is a transaction of its own.
use callora_contracts.Prelude.{
  ◌≤◌, ◌<◌, ◌⊎◌, ◌≡◌, refl, List, map, Bool-cases, inl, inr, [], ◌∷◌, arith, length, ltb,
}
use callora_contracts.Host.{
  Env, Transfer, Outcome, settle_state, ok, err, panic, commit, ◌>>=◌, >>=-eq-ok, pure,
}
use callora_contracts.Settlement.Types.{Store, Call, SettlementError}
use callora_contracts.Settlement.Withdraw.{withdraw_developer_balance}
use callora_contracts.Settlement.Withdraw.Failure.{withdraw-err}
use callora_contracts.Settlement.Batch.{
  SettleInput, SettleOutcome, success, other_error, outcome_of, catch, settle_each, batch_settle,
  max_settlements,
}

-- How one withdrawal is reported. A panic would end the batch.
abbrev pub report : Outcome SettlementError (Unit {0}) → SettleOutcome
report (ok u) = success
report (err e) = outcome_of e
report (panic x) = other_error

-- Each withdrawal runs as its own transaction: one that fails leaves no trace.
unfoldable pub run_alone : Transfer → Env → List SettleInput → Store → List SettleOutcome × Store
run_alone transfer env [] s = ([], s)
run_alone transfer env (i ∷ rest) s =
    let one = withdraw_developer_balance transfer env i.developer i.amount i.to in
    let (outcomes, s') = run_alone transfer env rest (commit one s) in
    (report (one s).0 ∷ outcomes, s')

catch-commit :
    (m : Call (Unit {0})) (o : SettleOutcome) (s s' : Store)
    → ((e : SettlementError) (t : Store) → m s ≡ (err e, t) → t ≡ s)
    → catch m s ≡ (ok o, s')
    → (o ≡ report (m s).0) × (s' ≡ commit m s)
unfolding catch
catch-commit m o s s' clean h = split (m s) refl h
  where
    report_of :
        Outcome SettlementError (Unit {0}) × Store → Outcome SettlementError SettleOutcome × Store
    report_of (r, t) =
        (elim r [ ok u ↦ ok success | err e ↦ ok (outcome_of e) | panic x ↦ panic x ], t)

    split :
        (r : Outcome SettlementError (Unit {0}) × Store)
        → m s ≡ r
        → report_of r ≡ (ok o, s')
        → (o ≡ report r.0) × (s' ≡ settle_state s r)
    split (ok u, t) e k = (cc, cc)
    split (err x, t) e k = (cc, cc (clean x t e))
    split (panic x, t) e k = (cc, cc)

cons-eq :
    (transfer : Transfer) (env : Env) (rest : List SettleInput) (o r : SettleOutcome)
    (os outcomes : List SettleOutcome) (s₁ t s₂ s' : Store)
    → o ≡ r
    → s₁ ≡ t
    → run_alone transfer env rest s₁ ≡ (os, s₂)
    → ◌≡◌ {A = Outcome SettlementError (List SettleOutcome) × Store}
        (ok (o ∷ os), s₂)
        (ok outcomes, s')
    → ◌≡◌ {A = List SettleOutcome × Store}
        (r ∷ (run_alone transfer env rest t).0, (run_alone transfer env rest t).1)
        (outcomes, s')
cons-eq transfer env rest o r os outcomes s₁ t s₂ s' reported committed behind last = cc

settle_each-run_alone :
    (transfer : Transfer) (env : Env) (inputs : List SettleInput) (outcomes : List SettleOutcome)
    (s s' : Store)
    → settle_each transfer env inputs s ≡ (ok outcomes, s')
    → run_alone transfer env inputs s ≡ (outcomes, s')
unfolding settle_each run_alone
settle_each-run_alone transfer env [] outcomes s s' h = ground arith
settle_each-run_alone transfer env (i ∷ rest) outcomes s s' h =
    let one = withdraw_developer_balance transfer env i.developer i.amount i.to in
    let (o, s₁, first, more) =
      >>=-eq-ok (catch one)
        (λ (o : SettleOutcome).
          settle_each transfer env rest >>= λ (outcomes : List SettleOutcome). pure (o ∷ outcomes))
        s s' outcomes h in
    let (os, s₂, others, last) =
      >>=-eq-ok (settle_each transfer env rest)
        (λ (outcomes : List SettleOutcome). pure (o ∷ outcomes)) s₁ s' outcomes more in
    let (reported, committed) =
      catch-commit one o s s₁ (λ e t. withdraw-err transfer env i.developer i.amount i.to e s t)
        first in
    let behind = settle_each-run_alone transfer env rest os s₁ s₂ others in
    cons-eq transfer env rest o (report (one s).0) os outcomes s₁ (commit one s) s₂ s' reported
      committed behind last

-- A batch that returns has run each withdrawal as a transaction of its own, in order, and reports
-- how each ended; above 64 withdrawals it runs none and reports an error for each.
pub batch_settle-run_alone :
    (transfer : Transfer) (env : Env) (inputs : List SettleInput) (outcomes : List SettleOutcome)
    (s s' : Store)
    → batch_settle transfer env inputs s ≡ (ok outcomes, s')
    → ((length inputs ≤ max_settlements) × (run_alone transfer env inputs s ≡ (outcomes, s')))
      ⊎ ((max_settlements < length inputs) × (s' ≡ s) × (outcomes ≡ map (λ _. other_error) inputs))
unfolding batch_settle
batch_settle-run_alone transfer env inputs outcomes s s' h =
    elim (Bool-cases (ltb max_settlements (length inputs))) [
      | inl long ↦ inr (ground arith, ground arith, ground arith)
      | inr short ↦
          inl (ground arith, settle_each-run_alone transfer env inputs outcomes s s' (ground arith))
    ]
