-- ===== src/Vault/System/History.antt =====
-- What holds of the vault after every history of transactions.
use callora_contracts.Prelude.{◌^◌, ◌≡◌, ◌<◌, refl, List, [], ◌∷◌, All}
use callora_contracts.Host.{Env, Transfer, Outcome, ok, err, panic, settle_state}
use callora_contracts.Vault.Types.{Store, VaultError}
use callora_contracts.Vault.Money.{Recorder}
use callora_contracts.Vault.System.{Request, dispatch, step, run}
use callora_contracts.Vault.System.Quiet
use callora_contracts.Vault.System.Quiet.{IsSafe, quiet-IsSafe, init-refused}
use callora_contracts.Vault.System.Guards.{deposit-IsSafe, deduct-IsSafe, batch_deduct-IsSafe}
use callora_contracts.Vault.System.Locks

module _ (transfer : Transfer) (recorder : Recorder) where
  dispatch-IsSafe :
      (env : Env) (request : Request) (s s' : Store)
      → env.timestamp < 2 ^ 64
      → IsSafe s
      → dispatch transfer recorder env request s ≡ (ok tt, s')
      → IsSafe s'
  unfolding dispatch
  dispatch-IsSafe env (Request.init o u b c m p x t) s s' small g h =
      absurd (init-refused env s s' o u b c m p x t g.owned h)
  dispatch-IsSafe env (Request.set_authorized_caller c) s s' small g h =
      quiet-IsSafe s s' (Quiet.set_authorized_caller-IsQuiet env s s' c h) g
  dispatch-IsSafe env (Request.pause c) s s' small g h =
      quiet-IsSafe s s' (Quiet.pause-IsQuiet env s s' c h) g
  dispatch-IsSafe env (Request.unpause c) s s' small g h =
      quiet-IsSafe s s' (Quiet.unpause-IsQuiet env s s' c h) g
  dispatch-IsSafe env (Request.set_max_deduct c a) s s' small g h =
      quiet-IsSafe s s' (Quiet.set_max_deduct-IsQuiet env s s' c a h) g
  dispatch-IsSafe env (Request.set_settlement c a) s s' small g h =
      quiet-IsSafe s s' (Quiet.set_settlement-IsQuiet env s s' c a h) g
  dispatch-IsSafe env (Request.set_admin c a) s s' small g h =
      quiet-IsSafe s s' (Quiet.set_admin-IsQuiet env s s' c a h) g
  dispatch-IsSafe env (Request.set_reserve_cap c t a) s s' small g h =
      quiet-IsSafe s s' (Quiet.set_reserve_cap-IsQuiet env s s' c t a h) g
  dispatch-IsSafe env Request.accept_admin s s' small g h =
      quiet-IsSafe s s' (Quiet.accept_admin-IsQuiet env s s' h) g
  dispatch-IsSafe env (Request.prune_processed_requests c ids) s s' small g h =
      quiet-IsSafe s s' (Quiet.prune-IsQuiet env c ids s s' h) g
  dispatch-IsSafe env (Request.deposit c a) s s' small g h =
      deposit-IsSafe transfer env s s' g c a h
  dispatch-IsSafe env (Request.deduct c a id) s s' small g h =
      deduct-IsSafe transfer env s s' g recorder c a id h
  dispatch-IsSafe env (Request.batch_deduct c items) s s' small g h =
      batch_deduct-IsSafe transfer env s s' g recorder c items h
  dispatch-IsSafe env (Request.set_timelock_window c w) s s' small g h =
      Locks.set_timelock_window-IsSafe env s s' small g c w h
  dispatch-IsSafe env (Request.propose_pause c) s s' small g h =
      Locks.propose_pause-IsSafe env s s' small g c h
  dispatch-IsSafe env (Request.execute_pause c) s s' small g h =
      Locks.execute_pause-IsSafe env s s' small g c h
  dispatch-IsSafe env (Request.cancel_pause c) s s' small g h =
      Locks.cancel_pause-IsSafe env s s' small g c h
  dispatch-IsSafe env (Request.propose_upgrade c w) s s' small g h =
      Locks.propose_upgrade-IsSafe env s s' small g c w h
  dispatch-IsSafe env (Request.execute_upgrade c) s s' small g h =
      Locks.execute_upgrade-IsSafe env s s' small g c h
  dispatch-IsSafe env (Request.cancel_upgrade c) s s' small g h =
      Locks.cancel_upgrade-IsSafe env s s' small g c h
  dispatch-IsSafe env (Request.propose_sweep c t a) s s' small g h =
      Locks.propose_sweep-IsSafe env s s' small g c t a h
  dispatch-IsSafe env (Request.cancel_sweep c) s s' small g h =
      Locks.cancel_sweep-IsSafe env s s' small g c h
  dispatch-IsSafe env (Request.execute_sweep c) s s' small g h =
      Locks.execute_sweep-IsSafe env s s' small g transfer c h

  settle-IsSafe :
      (s : Store) (r : Outcome VaultError (Unit {0}) × Store)
      → IsSafe s
      → (r.0 ≡ ok tt → IsSafe r.1)
      → IsSafe (settle_state s r)
  settle-IsSafe s (ok u, s') g k = k refl
  settle-IsSafe s (err e, s') g k = g
  settle-IsSafe s (panic x, s') g k = g

-- In an initialised vault that counts no debt, whose window and pending proposals wait an hour at
-- least, no history of transactions at times that are u64s, in any order and whether they succeed or
-- fail, changes that: the tracked balance never falls below nothing, and no pause, upgrade or sweep
-- can be pending with less than an hour between its proposal and its execution.
pub run-IsSafe :
    (transfer : Transfer) (recorder : Recorder) (history : List (Env × Request)) (s : Store)
    → All (λ (entry : Env × Request). (entry.0).timestamp < 2 ^ 64) history
    → IsSafe s
    → IsSafe (run transfer recorder history s)
unfolding run step
run-IsSafe transfer recorder [] s times g = g
run-IsSafe transfer recorder ((env, request) ∷ rest) s (small, times) g =
    let t = step transfer recorder env request s in
    let g' : IsSafe t =
      settle-IsSafe transfer recorder s (dispatch transfer recorder env request s) g (λ e.
        dispatch-IsSafe transfer recorder env request s (dispatch transfer recorder env request s).1
          small g (cc (e))) in
    run-IsSafe transfer recorder rest t times g'
