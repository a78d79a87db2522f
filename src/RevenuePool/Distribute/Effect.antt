-- ===== src/RevenuePool/Distribute/Effect.antt =====
-- A single distribution: what it takes and what it does.
use callora_contracts.Prelude.{
  ◌≡◌, ◌≢◌, true, false, some, arith, Option-cases, inl, inr, ◌⊎◌, List,
}
use callora_contracts.Prelude.Int.{ℤ, pos, ◌≤ℤ◌, ◌<ℤ◌}
use callora_contracts.Host.{Address, Env, Transfer, ok, commit}
use callora_contracts.RevenuePool.Types.{Store}
use callora_contracts.RevenuePool.Access.{is_paused, pause}
use callora_contracts.RevenuePool.Yield.{get_max_distribute}
use callora_contracts.RevenuePool.Distribute.{distribute, batch_distribute}

pub record IsDistributed (transfer : Transfer) (env : Env) (caller to : Address) (amount : ℤ)
    (usdc : Address) (s s' : Store) : Type 0 where
  pub admin : s.admin ≡ some caller
  pub signed : env.authorized caller ≡ true
  pub running : is_paused s ≡ false
  pub positive : pos 0 <ℤ amount
  pub capped : amount ≤ℤ get_max_distribute s
  pub outside : to ≢ env.contract
  pub held : amount ≤ℤ s.ledger usdc env.contract
  pub transferred : transfer s.ledger usdc env.contract to amount ≡ some s'.ledger
  pub frame : s' ≡ record s { ledger = s'.ledger; events = s'.events }

-- A distribution that returns was signed by the admin while the pool was not paused, for a positive
-- amount within the cap that the pool held, to somebody else; it makes the one transfer and changes
-- nothing else.
pub distribute-IsDistributed :
    (transfer : Transfer) (env : Env) (caller to : Address) (amount : ℤ) (s s' : Store)
    → distribute transfer env caller to amount s ≡ (ok tt, s')
    → (usdc : Address) × (s.usdc ≡ some usdc)
      × IsDistributed transfer env caller to amount usdc s s'
unfolding distribute
distribute-IsDistributed transfer env caller to amount s s' h = elim (Option-cases s.usdc) [
  | inl gone ↦ ground (arith, gone)
  | inr (usdc, e) ↦ (
    usdc,
    e,
    record {
      admin = ground (arith, e);
      signed = ground (arith, e);
      running = ground (arith, e);
      positive = ground (arith, e);
      capped = ground (arith, e);
      outside = ground (arith, e);
      held = ground (arith, e);
      transferred = ground (arith, e);
      frame = ground (arith, e);
    },
  )
]

-- Once the admin or the guardian has paused the pool, neither a distribution nor a batch of them
-- changes anything, whoever calls.
pub pause-distribute :
    (transfer : Transfer) (env env' : Env) (guard caller to : Address) (amount : ℤ)
    (payments : List (Address × ℤ)) (s s' : Store)
    → pause env guard s ≡ (ok tt, s')
    → ((s.admin ≡ some guard) ⊎ (s.pause_guardian ≡ some guard))
      × (commit (distribute transfer env' caller to amount) s' ≡ s')
      × (commit (batch_distribute transfer env' caller payments) s' ≡ s')
unfolding pause distribute batch_distribute
pause-distribute transfer env env' guard caller to amount payments s s' h =
    let on : is_paused s' ≡ true = ground arith in
    (ground arith, ground (arith, on), ground (arith, on))
