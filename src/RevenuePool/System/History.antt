-- ===== src/RevenuePool/System/History.antt =====
-- What every transaction of the pool keeps: the drain that waits, the cap and the running total.
use callora_contracts.Prelude.{◌≡◌, List, [], ◌∷◌, arith, refl, subst, All}
use callora_contracts.Prelude.Int.{ℤ, ◌≤ℤ◌}
use callora_contracts.Host.{Address, Env, Transfer, Outcome, ok, err, panic, settle_state}
use callora_contracts.RevenuePool.Types.{Store, RevenuePoolError}
use callora_contracts.RevenuePool.Yield.{get_cumulative_yield_deposited}
use callora_contracts.RevenuePool.Distribute.{batch_distribute}
use callora_contracts.RevenuePool.Distribute.Paid.{batch_distribute-frame}
use callora_contracts.RevenuePool.System.{Request, dispatch, step, run}
use callora_contracts.RevenuePool.System.Keeping.{
  IsGuarded, Keeps, Keeps-refl, init-Keeps, set_admin-Keeps, accept_admin-Keeps,
  cancel_admin_transfer-Keeps, set_pause_guardian-Keeps, clear_pause_guardian-Keeps, pause-Keeps,
  unpause-Keeps, receive_payment-Keeps, deposit_yield-Keeps, set_max_distribute-Keeps,
  distribute-Keeps, upgrade-Keeps, broadcast-Keeps, execute_emergency_drain-Keeps,
  cancel_emergency_drain-Keeps, propose_emergency_drain-Keeps,
}

batch_distribute-Keeps :
    (transfer : Transfer) (env : Env) (c : Address) (payments : List (Address × ℤ)) (s s' : Store)
    → batch_distribute transfer env c payments s ≡ (ok tt, s')
    → Keeps env.contract s s'
batch_distribute-Keeps transfer env c payments s s' h =
    let frame : s' ≡ record s { ledger = s'.ledger; events = s'.events } =
      batch_distribute-frame transfer env c payments s s' h in
    record {
      sound = λ i. record {
        drain = λ m e. i.drain m (ground (arith, e, frame));
        cap = ground (arith, i.cap, frame);
      };
      total = ground (arith, frame);
    }

dispatch-Keeps :
    (transfer : Transfer) (env : Env) (request : Request) (s s' : Store)
    → dispatch transfer env request s ≡ (ok tt, s')
    → Keeps env.contract s s'
unfolding dispatch
dispatch-Keeps transfer env (Request.init a u) s s' h = init-Keeps transfer env s s' a u h
dispatch-Keeps transfer env (Request.set_admin c a) s s' h = set_admin-Keeps transfer env s s' c a h
dispatch-Keeps transfer env (Request.accept_admin c) s s' h =
    accept_admin-Keeps transfer env s s' c h
dispatch-Keeps transfer env (Request.cancel_admin_transfer c) s s' h =
    cancel_admin_transfer-Keeps transfer env s s' c h
dispatch-Keeps transfer env (Request.set_pause_guardian c g) s s' h =
    set_pause_guardian-Keeps transfer env s s' c g h
dispatch-Keeps transfer env (Request.clear_pause_guardian c) s s' h =
    clear_pause_guardian-Keeps transfer env s s' c h
dispatch-Keeps transfer env (Request.pause c) s s' h = pause-Keeps transfer env s s' c h
dispatch-Keeps transfer env (Request.unpause c) s s' h = unpause-Keeps transfer env s s' c h
dispatch-Keeps transfer env (Request.receive_payment c x b) s s' h =
    receive_payment-Keeps transfer env s s' c x b h
dispatch-Keeps transfer env (Request.deposit_yield c x n) s s' h =
    deposit_yield-Keeps transfer env s s' c x n h
dispatch-Keeps transfer env (Request.set_max_distribute c x) s s' h =
    set_max_distribute-Keeps transfer env s s' c x h
dispatch-Keeps transfer env (Request.distribute c d x) s s' h =
    distribute-Keeps transfer env s s' c d x h
dispatch-Keeps transfer env (Request.upgrade c w) s s' h = upgrade-Keeps transfer env s s' c w h
dispatch-Keeps transfer env (Request.broadcast c v m) s s' h =
    broadcast-Keeps transfer env s s' c v m h
dispatch-Keeps transfer env (Request.execute_emergency_drain c) s s' h =
    execute_emergency_drain-Keeps transfer env s s' c h
dispatch-Keeps transfer env (Request.cancel_emergency_drain c) s s' h =
    cancel_emergency_drain-Keeps transfer env s s' c h
dispatch-Keeps transfer env (Request.propose_emergency_drain c d x) s s' h =
    propose_emergency_drain-Keeps transfer env s s' c d x h
dispatch-Keeps transfer env (Request.batch_distribute c ps) s s' h =
    batch_distribute-Keeps transfer env c ps s s' h
dispatch-Keeps transfer env (Request.claim_admin c) s s' h =
    accept_admin-Keeps transfer env s s' c h

settle-Keeps :
    (contract : Address) (s : Store) (r : Outcome RevenuePoolError (Unit {0}) × Store)
    → (r.0 ≡ ok tt → Keeps contract s r.1)
    → Keeps contract s (settle_state s r)
settle-Keeps contract s (ok u, s') k = k refl
settle-Keeps contract s (err e, s') k = Keeps-refl contract s
settle-Keeps contract s (panic x, s') k = Keeps-refl contract s

-- From a store of which it holds, whatever history of transactions runs in the pool, whether they
-- succeed or fail: a drain that waits has a positive amount, goes to somebody else and is to wait a
-- day from its proposal, the cap is positive, and the running total of the deposits never falls.
pub run-IsGuarded :
    (contract : Address) (transfer : Transfer) (history : List (Env × Request)) (s : Store)
    → All (λ (t : Env × Request). t.0.contract ≡ contract) history
    → IsGuarded contract s
    → IsGuarded contract (run transfer history s)
      × (get_cumulative_yield_deposited s
          ≤ℤ get_cumulative_yield_deposited (run transfer history s))
unfolding run step
run-IsGuarded contract transfer [] s at i = (i, ground arith)
run-IsGuarded contract transfer ((env, request) ∷ rest) s at i =
    let t = step transfer env request s in
    let k : Keeps contract s t =
      subst (λ c. Keeps c s t) at.0
        (settle-Keeps env.contract s (dispatch transfer env request s) (λ e.
          dispatch-Keeps transfer env request s (dispatch transfer env request s).1 (cc e))) in
    let (sound, risen) = run-IsGuarded contract transfer rest t at.1 (k.sound i) in
    (sound, ground (arith, k.total, risen))
