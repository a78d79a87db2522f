-- ===== src/Settlement/Migration/Effect.antt =====
-- The timelocked move of a balance: what is proposed, when it may run, what it moves.
use callora_contracts.Prelude.{◌+◌, ◌≡◌, ◌≢◌, ◌≤◌, ◌⊎◌, refl, true, none, some, arith}
use callora_contracts.Prelude.Int.{ℤ, pos, ◌+ℤ◌, ◌-ℤ◌, ◌<ℤ◌, ◌≤ℤ◌, int_laws}
use callora_contracts.Host.{Address, Env, ok}
use callora_contracts.Settlement.Types.{
  Store, PendingDeveloperMigration, developer_migration_timelock_seconds,
}
use callora_contracts.Settlement.Index.{sorted_insert}
use callora_contracts.Settlement.Payments.{balance_of, index_of}
use callora_contracts.Settlement.Migration.{propose_balance_migration, execute_balance_migration}

-- A proposal as `propose_balance_migration` stores it.
pub record IsProposal (contract from : Address) (m : PendingDeveloperMigration) : Type 0 where
  pub source : m.from ≡ from
  pub distinct : m.to ≢ from
  pub outside : m.to ≢ contract
  pub positive : pos 0 <ℤ m.amount
  pub delayed : m.execute_after ≡ m.proposed_at + developer_migration_timelock_seconds

-- With a token configured, a proposal that returns was made by the admin, holds the source's whole
-- balance and the day of delay, and moves nothing yet.
pub propose_effect :
    (env : Env) (caller from to usdc : Address) (s s' : Store)
    → s.usdc ≡ some usdc
    → propose_balance_migration env caller from to s ≡ (ok tt, s')
    → (m : PendingDeveloperMigration) × (s'.pending_migration from ≡ some m)
      × IsProposal env.contract from m
      × (m.to ≡ to)
      × (m.amount ≡ balance_of s from usdc)
      × (m.proposed_at ≡ env.timestamp)
      × (s.admin ≡ some caller)
      × (env.authorized caller ≡ true)
      × (s'.developer_balance ≡ s.developer_balance)
unfolding propose_balance_migration
propose_effect env caller from to usdc s s' configured h = (
  record {
    from = from;
    to = to;
    amount = balance_of s from usdc;
    proposed_at = env.timestamp;
    execute_after = env.timestamp + developer_migration_timelock_seconds;
  },
  ground arith,
  record {
    source = ground arith;
    distinct = ground arith;
    outside = ground arith;
    positive = ground arith;
    delayed = ground arith;
  },
  refl,
  refl,
  refl,
  ground arith,
  ground arith,
  ground arith,
)

pub record IsMoved (from to token : Address) (amount : ℤ) (s s' : Store) : Type 0 where
  pub debited : balance_of s' from token ≡ balance_of s from token -ℤ amount
  pub nonneg : pos 0 ≤ℤ balance_of s' from token
  pub credited : balance_of s' to token ≡ balance_of s to token +ℤ amount
  pub conserved :
      balance_of s' from token +ℤ balance_of s' to token
      ≡ balance_of s from token +ℤ balance_of s to token
  pub others :
      (d t : Address) → (d ≢ from) × (d ≢ to) ⊎ (t ≢ token) → balance_of s' d t ≡ balance_of s d t
  pub consumed : s'.pending_migration from ≡ none
  pub other_proposals : (d : Address) → d ≢ from → s'.pending_migration d ≡ s.pending_migration d
  pub index : index_of s' ≡ sorted_insert to (index_of s)
  pub legacy : s'.developer_balance_v1 ≡ s.developer_balance_v1
  pub marks : s'.high_water_mark ≡ s.high_water_mark
  pub pool_mark : s'.pool_high_water_mark ≡ s.pool_high_water_mark

-- With a token configured, an execution that returns, of a proposal as it is stored, comes a day
-- after its proposal, moves exactly the proposed amount in the token that is configured now, keeps
-- the sum of the two balances, and uses the proposal up.
pub execute_effect :
    (env : Env) (caller from usdc : Address) (m : PendingDeveloperMigration) (s s' : Store)
    → s.usdc ≡ some usdc
    → s.pending_migration from ≡ some m
    → IsProposal env.contract from m
    → execute_balance_migration env caller from s ≡ (ok tt, s')
    → (m.proposed_at + developer_migration_timelock_seconds ≤ env.timestamp)
      × (s.admin ≡ some caller)
      × IsMoved from m.to usdc m.amount s s'
unfolding execute_balance_migration
execute_effect env caller from usdc m s s' configured pending p h =
    let debited : balance_of s' from usdc ≡ balance_of s from usdc -ℤ m.amount = ground arith in
    let credited : balance_of s' m.to usdc ≡ balance_of s m.to usdc +ℤ m.amount = ground arith in
    (
      ground arith,
      ground arith,
      record {
        debited = debited;
        nonneg = ground arith;
        credited = credited;
        conserved = rw (debited, credited) (omega int_laws);
        others = λ d t n. ground arith;
        consumed = ground arith;
        other_proposals = λ d n. ground arith;
        index = ground arith;
        legacy = ground arith;
        marks = ground arith;
        pool_mark = ground arith;
      },
    )

-- Without a proposal nothing is moved: a proposal cannot be executed twice.
pub execute_unproposed :
    (env : Env) (caller from : Address) (s s' : Store)
    → s.pending_migration from ≡ none
    → execute_balance_migration env caller from s ≢ (ok tt, s')
unfolding execute_balance_migration
execute_unproposed env caller from s s' gone h = ground arith
