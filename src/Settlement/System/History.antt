-- ===== src/Settlement/System/History.antt =====
-- What holds of every history of transactions.
use callora_contracts.Prelude.{
  inl, inr, ℕ, ◌≡◌, ◌≤◌, false, some, List, [], ◌∷◌, arith, ap, All, subst, sym,
}
use callora_contracts.Prelude.Int.{ℤ}
use callora_contracts.Host.{Address, Env, Transfer, ok, commit, pure, ◌>>=◌, >>=-eq-ok}
use callora_contracts.Settlement.Types.{Store, Call}
use callora_contracts.Settlement.Payments.{receive_payment}
use callora_contracts.Settlement.Payments.Credit.{receive_payment-IsCredited}
use callora_contracts.Settlement.Payments.Replay.{stale_commit}
use callora_contracts.Settlement.Batch.{batch_settle, SettleOutcome, SettleInput}
use callora_contracts.Settlement.Batch.Isolation.{batch_settle-run_alone}
use callora_contracts.Settlement.System.{Request, dispatch, step, run}
use callora_contracts.Settlement.System.Sound.{
  IsSound, Keeps, Keeps-refl, Keeps-trans, IsQuiet-Keeps,
}
use callora_contracts.Settlement.Storage.{migrate_v1_to_v2_page}
use callora_contracts.Settlement.System.Quiet.{
  init-IsQuiet, set_usdc_token-IsQuiet, set_admin-IsQuiet, accept_admin-IsQuiet,
  cancel_admin_transfer-IsQuiet, propose_vault-IsQuiet, accept_vault-IsQuiet, broadcast-IsQuiet,
  upgrade-IsQuiet, set_developer_min_balance-IsQuiet, set_developer_claim_window-IsQuiet,
  clear_developer_claim_window-IsQuiet, set_daily_withdraw_cap-IsQuiet,
}
use callora_contracts.Settlement.System.Credits.{
  receive_payment-Keeps, force_credit_developer-Keeps, batch_receive_payment-Keeps,
}
use callora_contracts.Settlement.System.Debits.{withdraw-Keeps, commit-Keeps, run_alone-Keeps}
use callora_contracts.Settlement.System.Proposals.{
  propose_balance_migration-Keeps, execute_balance_migration-Keeps,
}
use callora_contracts.Settlement.System.Moves.{
  migrate_v1_to_v2-Keeps, migrate_v1_to_v2_page-Keeps, migrate_single_developer-Keeps,
}

batch_settle-Keeps :
    (contract : Address) (transfer : Transfer) (env : Env) (inputs : List SettleInput)
    (outcomes : List SettleOutcome) (s s' : Store)
    → batch_settle transfer env inputs s ≡ (ok outcomes, s')
    → Keeps contract s s'
batch_settle-Keeps contract transfer env inputs outcomes s s' h =
    elim (batch_settle-run_alone transfer env inputs outcomes s s' h) [
      | inl (_, ran) ↦
          subst (Keeps contract s) (ap (λ r. r.1) ran)
            (run_alone-Keeps contract transfer env inputs s)
      | inr (_, same, _) ↦ subst (Keeps contract s) (sym same) (Keeps-refl contract s)
    ]

drop_value-Keeps :
    {A : Type 0} (contract : Address) (m : Call A) (s s' : Store)
    → ((a : A) (t : Store) → m s ≡ (ok a, t) → Keeps contract s t)
    → (m >>= λ _. pure tt) s ≡ (ok tt, s')
    → Keeps contract s s'
drop_value-Keeps contract m s s' k h =
    let (a, t, first, last) = >>=-eq-ok m (λ _. pure tt) s s' tt h in
    subst (Keeps contract s) {x = t} {y = s'} (cc (last)) (k a t first)

-- A call that returns keeps the invariant and the marks, whichever entry point it is.
dispatch-Keeps :
    (transfer : Transfer) (env : Env) (request : Request) (s s' : Store)
    → dispatch transfer env request s ≡ (ok tt, s')
    → Keeps env.contract s s'
unfolding dispatch
dispatch-Keeps transfer env (Request.init a v) s s' h =
    IsQuiet-Keeps env.contract s s' (init-IsQuiet env s s' a v h)
dispatch-Keeps transfer env (Request.receive_payment c a p d t n) s s' h =
    receive_payment-Keeps env.contract env c a p d t n s s' h
dispatch-Keeps transfer env (Request.batch_receive_payment c i t n) s s' h =
    batch_receive_payment-Keeps env.contract env c i t n s s' h
dispatch-Keeps transfer env (Request.force_credit_developer c d a t r) s s' h =
    force_credit_developer-Keeps env.contract env c d a t r s s' h
dispatch-Keeps transfer env (Request.set_usdc_token c u) s s' h =
    IsQuiet-Keeps env.contract s s' (set_usdc_token-IsQuiet env s s' c u h)
dispatch-Keeps transfer env (Request.withdraw_developer_balance d a to) s s' h =
    withdraw-Keeps env.contract transfer env d a to s s' h
dispatch-Keeps transfer env (Request.batch_settle inputs) s s' h =
    drop_value-Keeps env.contract (batch_settle transfer env inputs) s s'
      (λ r t e. batch_settle-Keeps env.contract transfer env inputs r s t e) h
dispatch-Keeps transfer env (Request.propose_balance_migration c from to) s s' h =
    propose_balance_migration-Keeps env c from to s s' h
dispatch-Keeps transfer env (Request.execute_balance_migration c from) s s' h =
    execute_balance_migration-Keeps env c from s s' h
dispatch-Keeps transfer env (Request.set_daily_withdraw_cap c d cap) s s' h =
    IsQuiet-Keeps env.contract s s' (set_daily_withdraw_cap-IsQuiet env s s' c d cap h)
dispatch-Keeps transfer env (Request.set_developer_min_balance c d min) s s' h =
    IsQuiet-Keeps env.contract s s' (set_developer_min_balance-IsQuiet env s s' c d min h)
dispatch-Keeps transfer env (Request.set_developer_claim_window c d a b) s s' h =
    IsQuiet-Keeps env.contract s s' (set_developer_claim_window-IsQuiet env s s' c d a b h)
dispatch-Keeps transfer env (Request.clear_developer_claim_window c d) s s' h =
    IsQuiet-Keeps env.contract s s' (clear_developer_claim_window-IsQuiet env s s' c d h)
dispatch-Keeps transfer env (Request.set_admin c a) s s' h =
    IsQuiet-Keeps env.contract s s' (set_admin-IsQuiet env s s' c a h)
dispatch-Keeps transfer env (Request.propose_vault c v) s s' h =
    IsQuiet-Keeps env.contract s s' (propose_vault-IsQuiet env s s' c v h)
dispatch-Keeps transfer env Request.accept_admin s s' h =
    IsQuiet-Keeps env.contract s s' (accept_admin-IsQuiet env s s' h)
dispatch-Keeps transfer env (Request.cancel_admin_transfer c) s s' h =
    IsQuiet-Keeps env.contract s s' (cancel_admin_transfer-IsQuiet env s s' c h)
dispatch-Keeps transfer env (Request.accept_vault c) s s' h =
    IsQuiet-Keeps env.contract s s' (accept_vault-IsQuiet env s s' c h)
dispatch-Keeps transfer env (Request.migrate_v1_to_v2 c) s s' h =
    migrate_v1_to_v2-Keeps env.contract env c s s' h
dispatch-Keeps transfer env (Request.broadcast c v m) s s' h =
    IsQuiet-Keeps env.contract s s' (broadcast-IsQuiet env s s' c v m h)
dispatch-Keeps transfer env (Request.upgrade c w) s s' h =
    IsQuiet-Keeps env.contract s s' (upgrade-IsQuiet env s s' c w h)
dispatch-Keeps transfer env (Request.migrate_v1_to_v2_page c o n) s s' h =
    drop_value-Keeps env.contract (migrate_v1_to_v2_page env c o n) s s'
      (λ r t e. migrate_v1_to_v2_page-Keeps env.contract env c o n r s t e) h
dispatch-Keeps transfer env (Request.migrate_single_developer c d) s s' h =
    migrate_single_developer-Keeps env.contract env c d s s' h

step-Keeps :
    (transfer : Transfer) (env : Env) (request : Request) (s : Store)
    → Keeps env.contract s (step transfer env request s)
unfolding step
step-Keeps transfer env request s =
    commit-Keeps env.contract s (dispatch transfer env request s)
      (λ u e. dispatch-Keeps transfer env request s (dispatch transfer env request s).1 (cc e))

-- The transactions of a history run in one contract.
abbrev pub AreAt : Address → List (Env × Request) → Type 0
AreAt contract history = All (λ (t : Env × Request). t.0.contract ≡ contract) history

run-Keeps :
    (contract : Address) (transfer : Transfer) (history : List (Env × Request)) (s : Store)
    → AreAt contract history
    → Keeps contract s (run transfer history s)
unfolding run
run-Keeps contract transfer [] s at = Keeps-refl contract s
run-Keeps contract transfer ((env, request) ∷ rest) s at =
    let t = step transfer env request s in
    Keeps-trans contract s t (run transfer rest t)
      (subst (λ c. Keeps c s t) (at.0) (step-Keeps transfer env request s))
      (run-Keeps contract transfer rest t at.1)

-- From a sound store every history of transactions in its contract, in any order and whether they
-- succeed or fail, leads to a sound store: no balance is negative, and the index is in ascending
-- order without repetition and names everyone who holds something.
pub run-IsSound :
    (contract : Address) (transfer : Transfer) (history : List (Env × Request)) (s : Store)
    → AreAt contract history
    → IsSound contract s
    → IsSound contract (run transfer history s)
run-IsSound contract transfer history s at i = (run-Keeps contract transfer history s at).sound i

-- After a payment to a developer has returned, no history of transactions in one contract makes a
-- payment to the same developer with that sequence number or a lower one have any effect.
pub replay-after-run :
    (contract : Address) (transfer : Transfer) (env env' : Env) (caller caller' : Address)
    (amount amount' : ℤ) (developer token token' : Address) (seq seq' : ℕ)
    (history : List (Env × Request)) (s s' : Store)
    → receive_payment env caller amount false (some developer) token seq s ≡ (ok tt, s')
    → AreAt contract history
    → seq' ≤ seq
    → commit
        (receive_payment env' caller' amount' false (some developer) token' seq')
        (run transfer history s')
      ≡ run transfer history s'
replay-after-run contract transfer env env' caller caller' amount amount' developer token token' seq
      seq' history s s' paid at older =
    let credited = receive_payment-IsCredited env caller amount developer token seq s s' paid in
    let kept = run-Keeps contract transfer history s' at in
    stale_commit env' caller' amount' developer token' seq' (run transfer history s')
      (ground (arith, kept.marks developer, credited))
