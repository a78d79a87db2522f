-- ===== src/Settlement/System/Debits.antt =====
-- Withdrawals, balance migrations and the storage migration keep the invariant.
use callora_contracts.Prelude.{◌≡◌, ◌≢◌, refl, Option, get_or, arith, List, [], ◌∷◌}
use callora_contracts.Prelude.Int.{ℤ, pos, ◌≤ℤ◌, ◌<ℤ◌, +ℤ_parts, -ℤ_parts}
use callora_contracts.Host.{Address, Env, Transfer, ok, err, panic, Outcome, settle_state, commit}
use callora_contracts.Settlement.Types.{Store, SettlementError}
use callora_contracts.Settlement.Index.Order.{sorted_insert-Ascending, contains-sorted_insert}
use callora_contracts.Settlement.Payments.{balance_of, index_of}
use callora_contracts.Settlement.Withdraw.{withdraw_developer_balance}
use callora_contracts.Settlement.Withdraw.Effect.{IsWithdrawn, withdraw_effect}
use callora_contracts.Settlement.Batch.{SettleInput}
use callora_contracts.Settlement.Batch.Isolation.{run_alone}
use callora_contracts.Settlement.Migration.Effect.{IsMoved}
use callora_contracts.Settlement.System.Sound.{Keeps, Keeps-refl, Keeps-trans}

IsWithdrawn-Keeps :
    (contract : Address) (transfer : Transfer) (env : Env) (d : Address) (amount : ℤ)
    (r usdc : Address) (s s' : Store)
    → pos 0 <ℤ amount
    → amount ≤ℤ balance_of s d usdc
    → IsWithdrawn transfer env d amount r usdc s s'
    → Keeps contract s s'
IsWithdrawn-Keeps contract transfer env d amount r usdc s s' positive covered w = record {
  sound = λ i. record {
    ordered = ground (arith, w.index, i.ordered);
    nonneg = λ e t.
        grind (arith, w.debited, w.others e t, i.nonneg e t, -ℤ_parts (balance_of s d usdc) amount);
    indexed = λ e t n.
        grind (
          arith,
          positive,
          covered,
          w.index,
          w.others e t,
          i.indexed e t (ground (arith, w.index)),
        );
    legacy_nonneg = λ e. ground (arith, w.legacy, i.legacy_nonneg e);
    legacy_indexed = λ e n. ground (arith, w.legacy, w.index, i.legacy_indexed e);
    proposals = λ from m e. i.proposals from m (ground (arith, w.proposals));
  };
  marks = λ e. ground (arith, w.marks);
  pool_mark = ground (arith, w.pool_mark);
}

pub withdraw-Keeps :
    (contract : Address) (transfer : Transfer) (env : Env) (d : Address) (amount : ℤ)
    (to : Option Address) (s s' : Store)
    → withdraw_developer_balance transfer env d amount to s ≡ (ok tt, s')
    → Keeps contract s s'
withdraw-Keeps contract transfer env d amount to s s' h =
    let (usdc, request, covered, done) = withdraw_effect transfer env d amount to s s' h in
    IsWithdrawn-Keeps contract transfer env d amount (get_or d to) usdc s s' request.positive
      covered.balance done

-- What returned keeps the invariant, and what did not is undone.
pub commit-Keeps :
    {A : Type 0} (contract : Address) (s : Store) (r : Outcome SettlementError A × Store)
    → ((a : A) → r.0 ≡ ok a → Keeps contract s r.1)
    → Keeps contract s (settle_state s r)
commit-Keeps contract s (ok a, s') k = k a refl
commit-Keeps contract s (err e, s') k = Keeps-refl contract s
commit-Keeps contract s (panic x, s') k = Keeps-refl contract s

pub run_alone-Keeps :
    (contract : Address) (transfer : Transfer) (env : Env) (inputs : List SettleInput) (s : Store)
    → Keeps contract s (run_alone transfer env inputs s).1
unfolding run_alone
run_alone-Keeps contract transfer env [] s = Keeps-refl contract s
run_alone-Keeps contract transfer env (i ∷ rest) s =
    let one = withdraw_developer_balance transfer env i.developer i.amount i.to in
    Keeps-trans contract s (commit one s) (run_alone transfer env rest (commit one s)).1
      (commit-Keeps contract s (one s)
        (λ u e. withdraw-Keeps contract transfer env i.developer i.amount i.to s (one s).1 (cc e)))
      (run_alone-Keeps contract transfer env rest (commit one s))

pub execute-Keeps :
    (env : Env) (from to usdc : Address) (amount : ℤ) (s s' : Store)
    → pos 0 <ℤ amount
    → to ≢ from
    → IsMoved from to usdc amount s s'
    → Keeps env.contract s s'
execute-Keeps env from to usdc amount s s' positive apart w = record {
  sound = λ i. record {
    ordered = rw (w.index) (sorted_insert-Ascending to (index_of s) i.ordered);
    nonneg = λ e t. grind (
      arith,
      w.nonneg,
      w.credited,
      w.others e t,
      i.nonneg e t,
      i.nonneg to usdc,
      +ℤ_parts (balance_of s to usdc) amount,
    );
    indexed = λ e t n. grind (
      arith,
      positive,
      w.nonneg,
      w.debited,
      w.others e t,
      contains-sorted_insert to e (index_of s),
      -ℤ_parts (balance_of s from usdc) amount,
      i.indexed e t (ground (arith, w.index, contains-sorted_insert to e (index_of s))),
    );
    legacy_nonneg = λ e. ground (arith, w.legacy, i.legacy_nonneg e);
    legacy_indexed = λ e n.
        ground
          (arith, w.legacy, w.index, contains-sorted_insert to e (index_of s), i.legacy_indexed e);
    proposals = λ d m e. i.proposals d m (ground (arith, w.other_proposals d, w.consumed));
  };
  marks = λ e. ground (arith, w.marks);
  pool_mark = ground (arith, w.pool_mark);
}
