-- ===== src/Vault/System/Quiet.antt =====
-- The operations of the vault that leave its guards alone.
use callora_contracts.Prelude.{
  ℕ, ◌+◌, ◌≡◌, ◌≢◌, ◌≤◌, Option, some, List, [], ◌∷◌, is_some, true, arith, ◌∙◌,
}
use callora_contracts.Prelude.Int.{ℤ, pos, ◌≤ℤ◌, ◌<ℤ◌}
use callora_contracts.Host.{Address, Env, ok, >>=-eq-ok}
use callora_contracts.Vault.Types.{Store, PendingPause, PendingUpgrade, PendingSweep}
use callora_contracts.Vault.Access.{
  init, set_authorized_caller, pause, unpause, set_max_deduct, set_settlement, set_admin,
  accept_admin, prune_one, prune_each, prune_processed_requests, set_reserve_cap,
}
use callora_contracts.Vault.Money.{tracked}
use callora_contracts.Vault.Timelock.{get_timelock_window}

-- An initialised vault counts no debt, every timelock window in it is an hour at least, and so is
-- the time that each pending proposal waits; a pending sweep moves something.
pub record IsSafe (s : Store) : Type 0 where
  pub owned : is_some s.owner ≡ true
  pub solvent : pos 0 ≤ℤ tracked s
  pub window : 3600 ≤ get_timelock_window s
  pub pausing :
      (p : PendingPause) → s.pending_pause ≡ some p → p.proposed_at + 3600 ≤ p.execute_after
  pub upgrading :
      (p : PendingUpgrade) → s.pending_upgrade ≡ some p → p.proposed_at + 3600 ≤ p.execute_after
  pub sweeping :
      (p : PendingSweep)
      → s.pending_sweep ≡ some p
      → (p.proposed_at + 3600 ≤ p.execute_after) × (pos 0 <ℤ p.amount)

-- Nothing that the guards are about has changed, but for a window that may be set anew.
pub record IsQuiet (s s' : Store) : Type 0 where
  pub owner : s'.owner ≡ s.owner
  pub balance : s'.balance ≡ s.balance
  pub window : s'.timelock_window ≡ s.timelock_window
  pub pausing : s'.pending_pause ≡ s.pending_pause
  pub upgrading : s'.pending_upgrade ≡ s.pending_upgrade
  pub sweeping : s'.pending_sweep ≡ s.pending_sweep

pub quiet-IsSafe : (s s' : Store) → IsQuiet s s' → IsSafe s → IsSafe s'
quiet-IsSafe s s' q g = record {
  owned = ground (arith, q.owner, g.owned);
  solvent = ground (arith, q.balance, g.solvent);
  window = ground (arith, q.window, g.window);
  pausing = λ p e. ground (arith, q.pausing, e, g.pausing p);
  upgrading = λ p e. ground (arith, q.upgrading, e, g.upgrading p);
  sweeping = λ p e. g.sweeping p (cc (q.sweeping, e));
}

module _ (env : Env) (s s' : Store) where
  pub set_authorized_caller-IsQuiet :
      (c : Address) → set_authorized_caller env c s ≡ (ok tt, s') → IsQuiet s s'
  unfolding set_authorized_caller
  set_authorized_caller-IsQuiet c h = ground arith

  pub pause-IsQuiet : (c : Address) → pause env c s ≡ (ok tt, s') → IsQuiet s s'
  unfolding pause
  pause-IsQuiet c h = ground arith

  pub unpause-IsQuiet : (c : Address) → unpause env c s ≡ (ok tt, s') → IsQuiet s s'
  unfolding unpause
  unpause-IsQuiet c h = ground arith

  pub set_max_deduct-IsQuiet :
      (c : Address) (a : ℤ) → set_max_deduct env c a s ≡ (ok tt, s') → IsQuiet s s'
  unfolding set_max_deduct
  set_max_deduct-IsQuiet c a h = ground arith

  pub set_settlement-IsQuiet :
      (c a : Address) → set_settlement env c a s ≡ (ok tt, s') → IsQuiet s s'
  unfolding set_settlement
  set_settlement-IsQuiet c a h = ground arith

  pub set_admin-IsQuiet : (c a : Address) → set_admin env c a s ≡ (ok tt, s') → IsQuiet s s'
  unfolding set_admin
  set_admin-IsQuiet c a h = ground arith

  pub accept_admin-IsQuiet : accept_admin env s ≡ (ok tt, s') → IsQuiet s s'
  unfolding accept_admin
  accept_admin-IsQuiet h = ground arith

  pub set_reserve_cap-IsQuiet :
      (c t : Address) (a : ℤ) → set_reserve_cap env c t a s ≡ (ok tt, s') → IsQuiet s s'
  unfolding set_reserve_cap
  set_reserve_cap-IsQuiet c t a h = ground arith

  pub init-refused :
      (o u : Address) (b : ℤ) (c : Address) (m : ℤ) (p : Option Address) (x : ℤ) (t : Address)
      → is_some s.owner ≡ true
      → init o u b c m p x t s ≢ (ok tt, s')
  unfolding init
  init-refused o u b c m p x t e h = ground (arith, e)

one_pruned-IsQuiet :
    (caller : Address) (id : ℕ) (s s' : Store) → prune_one caller id s ≡ (ok tt, s') → IsQuiet s s'
unfolding prune_one
one_pruned-IsQuiet caller id s s' h = ground arith

IsQuiet-trans : (s t u : Store) → IsQuiet s t → IsQuiet t u → IsQuiet s u
IsQuiet-trans s t u h k = record {
  owner = k.owner ∙ h.owner;
  balance = k.balance ∙ h.balance;
  window = k.window ∙ h.window;
  pausing = k.pausing ∙ h.pausing;
  upgrading = k.upgrading ∙ h.upgrading;
  sweeping = k.sweeping ∙ h.sweeping;
}

prune_each-IsQuiet :
    (caller : Address) (ids : List ℕ) (s s' : Store)
    → prune_each caller ids s ≡ (ok tt, s')
    → IsQuiet s s'
unfolding prune_each
prune_each-IsQuiet caller [] s s' h = ground arith
prune_each-IsQuiet caller (id ∷ rest) s s' h =
    let (_, s₁, first, more) =
      >>=-eq-ok (prune_one caller id) (λ _. prune_each caller rest) s s' tt h in
    IsQuiet-trans s s₁ s' (one_pruned-IsQuiet caller id s s₁ first)
      (prune_each-IsQuiet caller rest s₁ s' more)

pub prune-IsQuiet :
    (env : Env) (caller : Address) (ids : List ℕ) (s s' : Store)
    → prune_processed_requests env caller ids s ≡ (ok tt, s')
    → IsQuiet s s'
unfolding prune_processed_requests
prune-IsQuiet env caller ids s s' h = prune_each-IsQuiet caller ids s s' (ground (arith, h))
