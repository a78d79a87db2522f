-- ===== src/RevenuePool/Drain/Timelock.antt =====
-- The emergency drain waits a day.
use callora_contracts.Prelude.{◌+◌, ◌≡◌, ◌≢◌, none, some, arith, inl, inr, refl, ◌⊎◌}
use callora_contracts.Prelude.Int.{ℤ, pos, ◌<ℤ◌}
use callora_contracts.Host.{Address, Env, Transfer, ok, commit}
use callora_contracts.RevenuePool.Types.{
  Store, PendingEmergencyDrain, emergency_drain_timelock_seconds,
}
use callora_contracts.RevenuePool.Drain.{
  propose_emergency_drain, execute_emergency_drain, cancel_emergency_drain,
}

-- A drain as `propose_emergency_drain` stores it.
pub record IsDrain (contract : Address) (m : PendingEmergencyDrain) : Type 0 where
  pub positive : pos 0 <ℤ m.amount
  pub outside : m.to ≢ contract
  pub delayed : m.execute_after ≡ m.proposed_at + emergency_drain_timelock_seconds

-- A proposal that returns was made by the admin and stores the drain, to be executed a day from now;
-- it replaces any other proposal and moves no token.
propose_drain_effect :
    (env : Env) (caller treasury : Address) (amount : ℤ) (s s' : Store)
    → propose_emergency_drain env caller treasury amount s ≡ (ok tt, s')
    → (s.admin ≡ some caller)
      × (s'.ledger ≡ s.ledger)
      × ((m : PendingEmergencyDrain) × (s'.emergency_drain ≡ some m)
          × IsDrain env.contract m
          × (m.to ≡ treasury)
          × (m.amount ≡ amount)
          × (m.proposed_at ≡ env.timestamp))
unfolding propose_emergency_drain
propose_drain_effect env caller treasury amount s s' h =
    let m : PendingEmergencyDrain = record {
      to = treasury;
      amount = amount;
      proposed_at = env.timestamp;
      execute_after = env.timestamp + emergency_drain_timelock_seconds;
    } in
    (
      ground arith,
      ground arith,
      (
        m,
        ground arith,
        record { positive = ground arith; outside = ground arith; delayed = refl },
        refl,
        refl,
        refl,
      ),
    )

nothing_pending :
    (transfer : Transfer) (env : Env) (caller : Address) (s : Store)
    → s.emergency_drain ≡ none
    → commit (execute_emergency_drain transfer env caller) s ≡ s
unfolding execute_emergency_drain
nothing_pending transfer env caller s gone = ground (arith, gone)

executed-gone :
    (transfer : Transfer) (env : Env) (caller : Address) (s s' : Store)
    → execute_emergency_drain transfer env caller s ≡ (ok tt, s')
    → s'.emergency_drain ≡ none
unfolding execute_emergency_drain
executed-gone transfer env caller s s' h = ground arith

cancelled-gone :
    (env : Env) (caller : Address) (s s' : Store)
    → cancel_emergency_drain env caller s ≡ (ok tt, s')
    → s'.emergency_drain ≡ none
unfolding cancel_emergency_drain
cancelled-gone env caller s s' h = ground arith

-- After an execution or a cancellation the proposal is gone: executing again changes nothing.
execute-once :
    (transfer : Transfer) (env env' : Env) (caller caller' : Address) (s s' : Store)
    → (execute_emergency_drain transfer env caller s ≡ (ok tt, s'))
      ⊎ (cancel_emergency_drain env caller s ≡ (ok tt, s'))
    → commit (execute_emergency_drain transfer env' caller') s' ≡ s'
execute-once transfer env env' caller caller' s s' h =
    nothing_pending transfer env' caller' s' (elim h [
      | inl executed ↦ executed-gone transfer env caller s s' executed
      | inr cancelled ↦ cancelled-gone env caller s s' cancelled
    ])
