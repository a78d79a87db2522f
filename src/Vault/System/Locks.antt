-- ===== src/Vault/System/Locks.antt =====
-- The timelocked actions of the vault keep its guards.
use callora_contracts.Prelude.{ℕ, ◌^◌, ◌≡◌, ◌<◌, arith}
use callora_contracts.Prelude.Int.{ℤ}
use callora_contracts.Host.{Address, Env, Transfer, ok}
use callora_contracts.Vault.Types.{Store}
use callora_contracts.Vault.Timelock.{
  set_timelock_window, saturating_deadline, deadline, propose_pause, execute_pause, cancel_pause,
  propose_upgrade, execute_upgrade, cancel_upgrade, propose_sweep, execute_sweep, cancel_sweep,
}
use callora_contracts.Vault.System.Quiet.{IsSafe}

module _ (env : Env) (s s' : Store) (small : env.timestamp < 2 ^ 64) (g : IsSafe s) where
  pub propose_pause-IsSafe : (c : Address) → propose_pause env c s ≡ (ok tt, s') → IsSafe s'
  unfolding propose_pause deadline saturating_deadline
  propose_pause-IsSafe c h = record {
    owned = ground (arith, g.owned);
    solvent = ground (arith, g.solvent);
    window = ground (arith, g.window);
    pausing = λ p e. ground (arith, g.window, g.pausing p);
    upgrading = λ p e. ground (arith, g.window, g.upgrading p);
    sweeping =
        λ p e. (ground (arith, g.window, g.sweeping p), ground (arith, g.window, g.sweeping p));
  }

  pub execute_pause-IsSafe : (c : Address) → execute_pause env c s ≡ (ok tt, s') → IsSafe s'
  unfolding execute_pause
  execute_pause-IsSafe c h = record {
    owned = ground (arith, g.owned);
    solvent = ground (arith, g.solvent);
    window = ground (arith, g.window);
    pausing = λ p e. ground (arith, g.window, g.pausing p);
    upgrading = λ p e. ground (arith, g.window, g.upgrading p);
    sweeping =
        λ p e. (ground (arith, g.window, g.sweeping p), ground (arith, g.window, g.sweeping p));
  }

  pub cancel_pause-IsSafe : (c : Address) → cancel_pause env c s ≡ (ok tt, s') → IsSafe s'
  unfolding cancel_pause
  cancel_pause-IsSafe c h = record {
    owned = ground (arith, g.owned);
    solvent = ground (arith, g.solvent);
    window = ground (arith, g.window);
    pausing = λ p e. ground (arith, g.window, g.pausing p);
    upgrading = λ p e. ground (arith, g.window, g.upgrading p);
    sweeping =
        λ p e. (ground (arith, g.window, g.sweeping p), ground (arith, g.window, g.sweeping p));
  }

  pub propose_upgrade-IsSafe : (c w : Address) → propose_upgrade env c w s ≡ (ok tt, s') → IsSafe s'
  unfolding propose_upgrade deadline saturating_deadline
  propose_upgrade-IsSafe c w h = record {
    owned = ground (arith, g.owned);
    solvent = ground (arith, g.solvent);
    window = ground (arith, g.window);
    pausing = λ p e. ground (arith, g.window, g.pausing p);
    upgrading = λ p e. ground (arith, g.window, g.upgrading p);
    sweeping =
        λ p e. (ground (arith, g.window, g.sweeping p), ground (arith, g.window, g.sweeping p));
  }

  pub execute_upgrade-IsSafe : (c : Address) → execute_upgrade env c s ≡ (ok tt, s') → IsSafe s'
  unfolding execute_upgrade
  execute_upgrade-IsSafe c h = record {
    owned = ground (arith, g.owned);
    solvent = ground (arith, g.solvent);
    window = ground (arith, g.window);
    pausing = λ p e. ground (arith, g.window, g.pausing p);
    upgrading = λ p e. ground (arith, g.window, g.upgrading p);
    sweeping =
        λ p e. (ground (arith, g.window, g.sweeping p), ground (arith, g.window, g.sweeping p));
  }

  pub cancel_upgrade-IsSafe : (c : Address) → cancel_upgrade env c s ≡ (ok tt, s') → IsSafe s'
  unfolding cancel_upgrade
  cancel_upgrade-IsSafe c h = record {
    owned = ground (arith, g.owned);
    solvent = ground (arith, g.solvent);
    window = ground (arith, g.window);
    pausing = λ p e. ground (arith, g.window, g.pausing p);
    upgrading = λ p e. ground (arith, g.window, g.upgrading p);
    sweeping =
        λ p e. (ground (arith, g.window, g.sweeping p), ground (arith, g.window, g.sweeping p));
  }

  pub propose_sweep-IsSafe :
      (c t : Address) (a : ℤ) → propose_sweep env c t a s ≡ (ok tt, s') → IsSafe s'
  unfolding propose_sweep deadline saturating_deadline
  propose_sweep-IsSafe c t a h = record {
    owned = ground (arith, g.owned);
    solvent = ground (arith, g.solvent);
    window = ground (arith, g.window);
    pausing = λ p e. ground (arith, g.window, g.pausing p);
    upgrading = λ p e. ground (arith, g.window, g.upgrading p);
    sweeping =
        λ p e. (ground (arith, g.window, g.sweeping p), ground (arith, g.window, g.sweeping p));
  }

  pub cancel_sweep-IsSafe : (c : Address) → cancel_sweep env c s ≡ (ok tt, s') → IsSafe s'
  unfolding cancel_sweep
  cancel_sweep-IsSafe c h = record {
    owned = ground (arith, g.owned);
    solvent = ground (arith, g.solvent);
    window = ground (arith, g.window);
    pausing = λ p e. ground (arith, g.window, g.pausing p);
    upgrading = λ p e. ground (arith, g.window, g.upgrading p);
    sweeping =
        λ p e. (ground (arith, g.window, g.sweeping p), ground (arith, g.window, g.sweeping p));
  }

  pub set_timelock_window-IsSafe :
      (c : Address) (w : ℕ) → set_timelock_window env c w s ≡ (ok tt, s') → IsSafe s'
  unfolding set_timelock_window
  set_timelock_window-IsSafe c w h = record {
    owned = ground (arith, g.owned);
    solvent = ground (arith, g.solvent);
    window = ground (arith, g.window);
    pausing = λ p e. ground (arith, g.window, g.pausing p);
    upgrading = λ p e. ground (arith, g.window, g.upgrading p);
    sweeping =
        λ p e. (ground (arith, g.window, g.sweeping p), ground (arith, g.window, g.sweeping p));
  }

  pub execute_sweep-IsSafe :
      (transfer : Transfer) (c : Address) → execute_sweep transfer env c s ≡ (ok tt, s') → IsSafe s'
  unfolding execute_sweep
  execute_sweep-IsSafe transfer c h = record {
    owned = ground (arith, g.owned);
    solvent = ground (arith, g.solvent);
    window = ground (arith, g.window);
    pausing = λ p e. ground (arith, g.window, g.pausing p);
    upgrading = λ p e. ground (arith, g.window, g.upgrading p);
    sweeping = λ p e. (ground (arith, g.sweeping p), ground (arith, g.sweeping p));
  }
