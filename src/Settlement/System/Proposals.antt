-- ===== src/Settlement/System/Proposals.antt =====
-- The timelocked migration of a balance keeps the invariant.
use callora_contracts.Prelude.{
  ◌≡◌, ◌≤◌, inl, inr, Bool-cases, Option-cases, some, get_or, arith, subst, ◌==◌, [],
}
use callora_contracts.Host.{Address, Env, ok}
use callora_contracts.Settlement.Types.{Store, PendingDeveloperMigration}
use callora_contracts.Settlement.Payments.{mark_of}
use callora_contracts.Settlement.Migration.{propose_balance_migration, execute_balance_migration}
use callora_contracts.Settlement.Migration.Effect.{execute_effect}
use callora_contracts.Settlement.Index.Order.{Ascending}
use callora_contracts.Settlement.System.Sound.{Keeps}
use callora_contracts.Settlement.System.Debits.{execute-Keeps}

pub propose_balance_migration-Keeps :
    (env : Env) (caller from to : Address) (s s' : Store)
    → propose_balance_migration env caller from to s ≡ (ok tt, s')
    → Keeps env.contract s s'
unfolding propose_balance_migration
propose_balance_migration-Keeps env caller from to s s' h = record {
  sound = λ i. record {
    ordered =
        subst (λ x. Ascending (get_or [] x)) {x = s.developer_index} {y = s'.developer_index}
          (ground arith) i.ordered;
    nonneg = λ e t. ground (arith, i.nonneg e t);
    indexed = λ e t n. ground (arith, i.indexed e t);
    legacy_nonneg = λ e. ground (arith, i.legacy_nonneg e);
    legacy_indexed = λ e n. ground (arith, i.legacy_indexed e);
    proposals = λ d m e. elim (Bool-cases (d == from)) [
      | inl same ↦ record {
        source = ground (arith, e, same);
        distinct = ground (arith, e, same);
        outside = ground (arith, e, same);
        positive = ground (arith, e, same);
        delayed = ground (arith, e, same);
      }
      | inr other ↦ i.proposals d m (ground (arith, e, other))
    ];
  };
  marks = λ e. ground arith;
  pool_mark = ground arith;
}

pub execute-found :
    (env : Env) (caller from : Address) (s s' : Store)
    → execute_balance_migration env caller from s ≡ (ok tt, s')
    → (m : PendingDeveloperMigration) × (usdc : Address) × (s.pending_migration from ≡ some m)
      × (s.usdc ≡ some usdc)
      × ((d : Address) → mark_of s d ≤ mark_of s' d)
      × (get_or 0 s.pool_high_water_mark ≤ get_or 0 s'.pool_high_water_mark)
unfolding execute_balance_migration
execute-found env caller from s s' h = elim (Option-cases (s.pending_migration from)) [
  | inl gone ↦ ground (arith, gone)
  | inr (m, e) ↦ elim (Option-cases s.usdc) [
    | inl gone ↦ ground (arith, e, gone)
    | inr (u, g) ↦ (m, u, e, g, λ d. ground (arith, e, g), ground (arith, e, g))
  ]
]

pub execute_balance_migration-Keeps :
    (env : Env) (caller from : Address) (s s' : Store)
    → execute_balance_migration env caller from s ≡ (ok tt, s')
    → Keeps env.contract s s'
execute_balance_migration-Keeps env caller from s s' h =
    let (m, usdc, pending, configured, marks, pool_mark) = execute-found env caller from s s' h in
    record {
      sound = λ i.
          let p = i.proposals from m pending in
          let (_, _, moved) = execute_effect env caller from usdc m s s' configured pending p h in
          (execute-Keeps env from m.to usdc m.amount s s' p.positive p.distinct moved).sound i;
      marks = marks;
      pool_mark = pool_mark;
    }
