-- ===== src/Checkpoint/System/History.antt =====
-- The log under every history of transactions.
use callora_contracts.Prelude.{
  ℕ, ◌≡◌, ◌≢◌, refl, is_some, List, [], ◌∷◌, arith, subst, true, ◌∙◌, ap,
}
use callora_contracts.Prelude.Int.{ℤ}
use callora_contracts.Host.{
  Address, Env, ok, err, panic, Outcome, pure, settle_state, ◌>>=◌, >>=-eq-ok,
}
use callora_contracts.Checkpoint.Types.{Item, Store, CheckpointError}
use callora_contracts.Checkpoint.Access.{
  init, set_admin, accept_admin, cancel_admin_transfer, upgrade,
}
use callora_contracts.Checkpoint.Records.{
  write_all, write_checkpoint, create_checkpoint, batch_create_checkpoints,
}
use callora_contracts.Checkpoint.Log.{
  batch-written, Extends, Extends-refl, Extends-trans, create_checkpoint-Extends,
  batch_create_checkpoints-Extends,
}
use callora_contracts.Checkpoint.System.{Request, dispatch, step, run}

-- Nothing that the log reads has changed.
record IsQuiet (s s' : Store) : Type 0 where
  next : s'.next_checkpoint_id ≡ s.next_checkpoint_id
  count : s'.checkpoint_count ≡ s.checkpoint_count
  records : s'.checkpoint ≡ s.checkpoint
  owned : is_some s.admin ≡ true → is_some s'.admin ≡ true

IsQuiet-Extends : (s s' : Store) → IsQuiet s s' → Extends s s'
IsQuiet-Extends s s' q = record {
  log = λ l. record {
    counters = ground (arith, q.next, q.count, l.counters);
    recorded = λ id low high.
        let (r, at, named) = l.recorded id low (ground (arith, q.count, high)) in
        (r, ap (λ f. f id) q.records ∙ at, named);
    beyond = λ id far. ground (arith, q.count, q.records, l.beyond id);
    nothing_at_0 = ap (λ f. f 0) q.records ∙ l.nothing_at_0;
  };
  count = ground (arith, q.next);
  kept = λ id n. ap (λ f. f id) q.records;
}

module _ (env : Env) (s s' : Store) where
  set_admin-IsQuiet : (c a : Address) → set_admin env c a s ≡ (ok tt, s') → IsQuiet s s'
  unfolding set_admin
  set_admin-IsQuiet c a h = ground arith

  accept_admin-IsQuiet : (c : Address) → accept_admin env c s ≡ (ok tt, s') → IsQuiet s s'
  unfolding accept_admin
  accept_admin-IsQuiet c h = ground arith

  cancel-IsQuiet : (c : Address) → cancel_admin_transfer env c s ≡ (ok tt, s') → IsQuiet s s'
  unfolding cancel_admin_transfer
  cancel-IsQuiet c h = ground arith

  upgrade-IsQuiet : (c w : Address) → upgrade env c w s ≡ (ok tt, s') → IsQuiet s s'
  unfolding upgrade
  upgrade-IsQuiet c w h = ground arith

  init-refused : (a : Address) → is_some s.admin ≡ true → init env a s ≢ (ok tt, s')
  unfolding init
  init-refused a e h = ground (arith, e)

-- What a transaction of an initialised contract does: there is still an admin, and the log is
-- extended.
record Grows (s s' : Store) : Type 0 where
  owned : is_some s'.admin ≡ true
  extends : Extends s s'

Grows-refl : (s : Store) → is_some s.admin ≡ true → Grows s s
Grows-refl s o = record { owned = o; extends = Extends-refl s }

quiet-Grows : (s s' : Store) → is_some s.admin ≡ true → IsQuiet s s' → Grows s s'
quiet-Grows s s' o q = record { owned = q.owned o; extends = IsQuiet-Extends s s' q }

create-owned :
    (env : Env) (c d t : Address) (b : ℤ) (m id : ℕ) (s s' : Store)
    → create_checkpoint env c d t b m s ≡ (ok id, s')
    → is_some s'.admin ≡ true
unfolding create_checkpoint
create-owned env c d t b m id s s' h = ground arith

write_checkpoint-admin :
    (timestamp : ℕ) (item : Item) (id : ℕ) (s s' : Store)
    → write_checkpoint timestamp item s ≡ (ok id, s')
    → s'.admin ≡ s.admin
unfolding write_checkpoint
write_checkpoint-admin timestamp item id s s' h = ground arith

write_all-admin :
    (timestamp : ℕ) (items : List Item) (ids : List ℕ) (s s' : Store)
    → write_all timestamp items s ≡ (ok ids, s')
    → s'.admin ≡ s.admin
unfolding write_all
write_all-admin timestamp [] ids s s' h = cc
write_all-admin timestamp (item ∷ rest) ids s s' h =
    let (id, s₁, first, more) =
      >>=-eq-ok (write_checkpoint timestamp item)
        (λ (i : ℕ). write_all timestamp rest >>= λ (is : List ℕ). pure (i ∷ is)) s s' ids h in
    let (others, s₂, behind, last) =
      >>=-eq-ok (write_all timestamp rest) (λ (is : List ℕ). pure (id ∷ is)) s₁ s' ids more in
    let one : s₁.admin ≡ s.admin = write_checkpoint-admin timestamp item id s s₁ first in
    cc (last, write_all-admin timestamp rest others s₁ s₂ behind, one)

dispatch-Grows :
    (env : Env) (request : Request) (s s' : Store)
    → is_some s.admin ≡ true
    → dispatch env request s ≡ (ok tt, s')
    → Grows s s'
unfolding dispatch
dispatch-Grows env (Request.init a) s s' o h = ground (arith, init-refused env s s' a o h)
dispatch-Grows env (Request.set_admin c a) s s' o h =
    quiet-Grows s s' o (set_admin-IsQuiet env s s' c a h)
dispatch-Grows env (Request.accept_admin c) s s' o h =
    quiet-Grows s s' o (accept_admin-IsQuiet env s s' c h)
dispatch-Grows env (Request.cancel_admin_transfer c) s s' o h =
    quiet-Grows s s' o (cancel-IsQuiet env s s' c h)
dispatch-Grows env (Request.upgrade c w) s s' o h =
    quiet-Grows s s' o (upgrade-IsQuiet env s s' c w h)
dispatch-Grows env (Request.create_checkpoint c d t b m) s s' o h =
    let (id, u, made, last) =
      >>=-eq-ok (create_checkpoint env c d t b m) (λ (_ : ℕ). pure tt) s s' tt h in
    let (_, _, _, _, _, e) = create_checkpoint-Extends env c d t b m id s u made in
    subst (Grows s) {x = u} {y = s'} (cc (last))
      (record { owned = create-owned env c d t b m id s u made; extends = e })
dispatch-Grows env (Request.batch_create_checkpoints c items) s s' o h =
    let (ids, u, made, last) =
      >>=-eq-ok (batch_create_checkpoints env c items) (λ (_ : List ℕ). pure tt) s s' tt h in
    let (_, _, _, _, _, e) = batch_create_checkpoints-Extends env c items ids s u made in
    let (_, _, _, written) = batch-written env c items ids s u made in
    subst (Grows s) {x = u} {y = s'} (cc (last))
      (record { owned = cc (write_all-admin env.timestamp items ids s u written, o); extends = e })

settle-Grows :
    (s : Store) (r : Outcome CheckpointError (Unit {0}) × Store)
    → is_some s.admin ≡ true
    → (r.0 ≡ ok tt → Grows s r.1)
    → Grows s (settle_state s r)
settle-Grows s (ok u, s') o k = k refl
settle-Grows s (err e, s') o k = Grows-refl s o
settle-Grows s (panic x, s') o k = Grows-refl s o

-- In an initialised contract no history of transactions, in any order and whether they succeed or
-- fail, changes or removes a checkpoint that was made: the log is a log still and only gets longer.
pub run-Extends :
    (history : List (Env × Request)) (s : Store)
    → is_some s.admin ≡ true
    → Extends s (run history s)
unfolding run step
run-Extends [] s o = Extends-refl s
run-Extends ((env, request) ∷ rest) s o =
    let t = step env request s in
    let g : Grows s t =
      settle-Grows s (dispatch env request s) o
        (λ e. dispatch-Grows env request s (dispatch env request s).1 o (cc e)) in
    Extends-trans s t (run rest t) g.extends (run-Extends rest t g.owned)
