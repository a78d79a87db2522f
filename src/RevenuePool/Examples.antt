-- ===== src/RevenuePool/Examples.antt =====
-- The theorems of the revenue pool at concrete transactions.
use callora_contracts.Prelude.{
  ℕ, ◌≡◌, ◌≤◌, ◌⊎◌, refl, true, false, none, some, List, [], ◌∷◌, ◌==◌, ◌&&◌, if◌then◌else◌, arith,
  All,
}
use callora_contracts.Prelude.Int.{ℤ, pos, ◌+ℤ◌, ◌-ℤ◌, ◌≤ℤ◌, leb_ℤ}
use callora_contracts.Host.{Address, Env, Transfer, commit}
use callora_contracts.RevenuePool.Types.{Store, PendingEmergencyDrain}
use callora_contracts.RevenuePool.Access.{pause}
use callora_contracts.RevenuePool.Yield.{deposit_yield, get_cumulative_yield_deposited}
use callora_contracts.RevenuePool.Distribute.{distribute, batch_distribute}
use callora_contracts.RevenuePool.Distribute.Effect.{
  IsDistributed, distribute-IsDistributed, pause-distribute,
}
use callora_contracts.RevenuePool.Drain.{propose_emergency_drain, execute_emergency_drain}
use callora_contracts.RevenuePool.Chunks.{chunk_iter, concat, IsChunk, chunk_iter-IsChunk}
use callora_contracts.RevenuePool.System.{Request, run}
use callora_contracts.RevenuePool.System.History.{run-IsGuarded}
use callora_contracts.RevenuePool.System.Keeping.{IsGuarded}

-- A token contract that moves what it is told to, if the holder has it.
abbrev move : Transfer
move l t from to a =
    if leb_ℤ a (l t from)
    then some (λ u h.
      if u == t && h == from
      then l t from -ℤ a
      else if u == t && h == to
      then l t to +ℤ a
      else l u h)
    else none

abbrev env : Env
env = record { timestamp = 1000; sequence = 5; contract = 100; authorized = λ a. true }

abbrev later : Env
later = record { timestamp = 90000; sequence = 6; contract = 100; authorized = λ a. true }

-- The admin is 1, the guardian 2, the token 9, and everybody holds 500 of it.
abbrev ready : Store
ready = record {
  admin = some 1;
  usdc = some 9;
  paused = some false;
  pending_admin = none;
  pause_guardian = some 2;
  max_distribute = some (pos 100);
  cumulative_yield = none;
  version = none;
  emergency_drain = none;
  ledger = λ t h. pos 500;
  code = none;
  events = [];
}

ready-IsGuarded : IsGuarded 100 ready
ready-IsGuarded = record { drain = λ m e. ground (arith, e); cap = ground arith }

abbrev payments : List (Address × ℤ)
payments = (7, pos 60) ∷ (8, pos 100) ∷ []

-- A proposal, a batch, and an execution that comes too early.
abbrev history : List (Env × Request)
history =
    (env, Request.propose_emergency_drain 1 55 (pos 300))
    ∷ (env, Request.batch_distribute 1 payments)
    ∷ (env, Request.execute_emergency_drain 1)
    ∷ []

run-IsGuarded_example :
    IsGuarded 100 (run move history ready)
    × (get_cumulative_yield_deposited ready
        ≤ℤ get_cumulative_yield_deposited (run move history ready))
run-IsGuarded_example =
    run-IsGuarded 100 move history ready (refl, (refl, (refl, tt))) ready-IsGuarded

abbrev batched : Store
batched = (batch_distribute move env 1 payments ready).1

abbrev distributed : Store
distributed = (distribute move env 1 7 (pos 60) ready).1

distribute-IsDistributed_example :
    (usdc : Address) × (ready.usdc ≡ some usdc)
    × IsDistributed move env 1 7 (pos 60) usdc ready distributed
unfolding distribute ◌+ℤ◌ ◌-ℤ◌
distribute-IsDistributed_example =
    distribute-IsDistributed move env 1 7 (pos 60) ready distributed refl

abbrev stopped : Store
stopped = (pause env 2 ready).1

pause-distribute_example :
    ((ready.admin ≡ some 2) ⊎ (ready.pause_guardian ≡ some 2))
    × (commit (distribute move later 1 7 (pos 60)) stopped ≡ stopped)
    × (commit (batch_distribute move later 1 payments) stopped ≡ stopped)
unfolding pause
pause-distribute_example =
    pause-distribute move env later 2 1 7 (pos 60) payments ready stopped refl

abbrev deposited : Store
deposited = (deposit_yield move env 1 (pos 70) 3 ready).1

abbrev waiting : Store
waiting = (propose_emergency_drain env 1 55 (pos 300) ready).1

abbrev drain : PendingEmergencyDrain
drain = record { to = 55; amount = pos 300; proposed_at = 1000; execute_after = 87400 }

abbrev drained : Store
drained = (execute_emergency_drain move later 1 waiting).1

abbrev legs : List (Address × ℤ)
legs = (8, pos 4) ∷ (7, pos 5) ∷ (6, pos 6) ∷ []

chunk_iter-IsChunk_example :
    ((1 ≤ 2) × (concat (chunk_iter legs 2) ≡ legs) × All (IsChunk 2) (chunk_iter legs 2))
    ⊎ ((◌≡◌ {A = ℕ} 2 0) × (chunk_iter legs 2 ≡ []))
chunk_iter-IsChunk_example = chunk_iter-IsChunk legs 2
