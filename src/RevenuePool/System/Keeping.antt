-- ===== src/RevenuePool/System/Keeping.antt =====
-- What each transaction of the revenue pool keeps.
use callora_contracts.Prelude.{ℕ, ◌≡◌, Bool, some, arith}
use callora_contracts.Prelude.Int.{ℤ, pos, ◌≤ℤ◌, ◌<ℤ◌, +ℤ_parts}
use callora_contracts.Host.{Address, Env, Transfer, ok}
use callora_contracts.RevenuePool.Types.{Store, PendingEmergencyDrain, Severity, Message}
use callora_contracts.RevenuePool.Access.{
  init, set_admin, accept_admin, cancel_admin_transfer, set_pause_guardian, clear_pause_guardian,
  pause, unpause, upgrade, broadcast,
}
use callora_contracts.RevenuePool.Yield.{
  receive_payment, deposit_yield, set_max_distribute, get_max_distribute,
  get_cumulative_yield_deposited, deposit_yield_effect,
}
use callora_contracts.RevenuePool.Distribute.{distribute}
use callora_contracts.RevenuePool.Drain.{
  propose_emergency_drain, execute_emergency_drain, cancel_emergency_drain,
}
use callora_contracts.RevenuePool.Drain.Timelock.{IsDrain}

-- A drain that waits was proposed as such and is to wait a day; the cap is positive.
pub record IsGuarded (contract : Address) (s : Store) : Type 0 where
  pub drain : (m : PendingEmergencyDrain) → s.emergency_drain ≡ some m → IsDrain contract m
  pub cap : pos 0 <ℤ get_max_distribute s

-- What a transaction keeps: soundness, and the running total only rises.
pub record Keeps (contract : Address) (s s' : Store) : Type 0 where
  pub sound : IsGuarded contract s → IsGuarded contract s'
  pub total : get_cumulative_yield_deposited s ≤ℤ get_cumulative_yield_deposited s'

pub Keeps-refl : (contract : Address) (s : Store) → Keeps contract s s
Keeps-refl contract s = record { sound = λ i. i; total = ground arith }

pub Keeps-trans :
    (contract : Address) (s t u : Store)
    → Keeps contract s t
    → Keeps contract t u
    → Keeps contract s u
Keeps-trans contract s t u h k = record {
  sound = λ i. k.sound (h.sound i);
  total = ground (arith, h.total, k.total);
}

module _ (transfer : Transfer) (env : Env) (s s' : Store) where
  pub init-Keeps : (a u : Address) → init env a u s ≡ (ok tt, s') → Keeps env.contract s s'
  unfolding init
  init-Keeps a u h = record {
    sound =
        λ i. record { drain = λ m e. i.drain m (ground (arith, e)); cap = ground (arith, i.cap) };
    total = ground arith;
  }

  pub set_admin-Keeps :
      (c a : Address) → set_admin env c a s ≡ (ok tt, s') → Keeps env.contract s s'
  unfolding set_admin
  set_admin-Keeps c a h = record {
    sound =
        λ i. record { drain = λ m e. i.drain m (ground (arith, e)); cap = ground (arith, i.cap) };
    total = ground arith;
  }

  pub accept_admin-Keeps :
      (c : Address) → accept_admin env c s ≡ (ok tt, s') → Keeps env.contract s s'
  unfolding accept_admin
  accept_admin-Keeps c h = record {
    sound =
        λ i. record { drain = λ m e. i.drain m (ground (arith, e)); cap = ground (arith, i.cap) };
    total = ground arith;
  }

  pub cancel_admin_transfer-Keeps :
      (c : Address) → cancel_admin_transfer env c s ≡ (ok tt, s') → Keeps env.contract s s'
  unfolding cancel_admin_transfer
  cancel_admin_transfer-Keeps c h = record {
    sound =
        λ i. record { drain = λ m e. i.drain m (ground (arith, e)); cap = ground (arith, i.cap) };
    total = ground arith;
  }

  pub set_pause_guardian-Keeps :
      (c g : Address) → set_pause_guardian env c g s ≡ (ok tt, s') → Keeps env.contract s s'
  unfolding set_pause_guardian
  set_pause_guardian-Keeps c g h = record {
    sound =
        λ i. record { drain = λ m e. i.drain m (ground (arith, e)); cap = ground (arith, i.cap) };
    total = ground arith;
  }

  pub clear_pause_guardian-Keeps :
      (c : Address) → clear_pause_guardian env c s ≡ (ok tt, s') → Keeps env.contract s s'
  unfolding clear_pause_guardian
  clear_pause_guardian-Keeps c h = record {
    sound =
        λ i. record { drain = λ m e. i.drain m (ground (arith, e)); cap = ground (arith, i.cap) };
    total = ground arith;
  }

  pub pause-Keeps : (c : Address) → pause env c s ≡ (ok tt, s') → Keeps env.contract s s'
  unfolding pause
  pause-Keeps c h = record {
    sound =
        λ i. record { drain = λ m e. i.drain m (ground (arith, e)); cap = ground (arith, i.cap) };
    total = ground arith;
  }

  pub unpause-Keeps : (c : Address) → unpause env c s ≡ (ok tt, s') → Keeps env.contract s s'
  unfolding unpause
  unpause-Keeps c h = record {
    sound =
        λ i. record { drain = λ m e. i.drain m (ground (arith, e)); cap = ground (arith, i.cap) };
    total = ground arith;
  }

  pub receive_payment-Keeps :
      (c : Address) (x : ℤ) (b : Bool)
      → receive_payment env c x b s ≡ (ok tt, s')
      → Keeps env.contract s s'
  unfolding receive_payment
  receive_payment-Keeps c x b h = record {
    sound =
        λ i. record { drain = λ m e. i.drain m (ground (arith, e)); cap = ground (arith, i.cap) };
    total = ground arith;
  }

  pub deposit_yield-Keeps :
      (c : Address) (x : ℤ) (n : ℕ)
      → deposit_yield transfer env c x n s ≡ (ok tt, s')
      → Keeps env.contract s s'
  unfolding deposit_yield
  deposit_yield-Keeps c x n h = record {
    sound =
        λ i. record { drain = λ m e. i.drain m (ground (arith, e)); cap = ground (arith, i.cap) };
    total = grind (
      arith,
      deposit_yield_effect transfer env c x n s s' h,
      +ℤ_parts (get_cumulative_yield_deposited s) x,
    );
  }

  pub set_max_distribute-Keeps :
      (c : Address) (x : ℤ) → set_max_distribute env c x s ≡ (ok tt, s') → Keeps env.contract s s'
  unfolding set_max_distribute
  set_max_distribute-Keeps c x h = record {
    sound =
        λ i. record { drain = λ m e. i.drain m (ground (arith, e)); cap = ground (arith, i.cap) };
    total = ground arith;
  }

  pub distribute-Keeps :
      (c d : Address) (x : ℤ)
      → distribute transfer env c d x s ≡ (ok tt, s')
      → Keeps env.contract s s'
  unfolding distribute
  distribute-Keeps c d x h = record {
    sound =
        λ i. record { drain = λ m e. i.drain m (ground (arith, e)); cap = ground (arith, i.cap) };
    total = ground arith;
  }

  pub upgrade-Keeps : (c w : Address) → upgrade env c w s ≡ (ok tt, s') → Keeps env.contract s s'
  unfolding upgrade
  upgrade-Keeps c w h = record {
    sound =
        λ i. record { drain = λ m e. i.drain m (ground (arith, e)); cap = ground (arith, i.cap) };
    total = ground arith;
  }

  pub broadcast-Keeps :
      (c : Address) (v : Severity) (m : Message)
      → broadcast env c v m s ≡ (ok tt, s')
      → Keeps env.contract s s'
  unfolding broadcast
  broadcast-Keeps c v m h = record {
    sound =
        λ i. record { drain = λ m e. i.drain m (ground (arith, e)); cap = ground (arith, i.cap) };
    total = ground arith;
  }

  pub execute_emergency_drain-Keeps :
      (c : Address)
      → execute_emergency_drain transfer env c s ≡ (ok tt, s')
      → Keeps env.contract s s'
  unfolding execute_emergency_drain
  execute_emergency_drain-Keeps c h = record {
    sound =
        λ i. record { drain = λ m e. i.drain m (ground (arith, e)); cap = ground (arith, i.cap) };
    total = ground arith;
  }

  pub cancel_emergency_drain-Keeps :
      (c : Address) → cancel_emergency_drain env c s ≡ (ok tt, s') → Keeps env.contract s s'
  unfolding cancel_emergency_drain
  cancel_emergency_drain-Keeps c h = record {
    sound =
        λ i. record { drain = λ m e. i.drain m (ground (arith, e)); cap = ground (arith, i.cap) };
    total = ground arith;
  }

  pub propose_emergency_drain-Keeps :
      (c d : Address) (x : ℤ)
      → propose_emergency_drain env c d x s ≡ (ok tt, s')
      → Keeps env.contract s s'
  unfolding propose_emergency_drain
  propose_emergency_drain-Keeps c d x h = record {
    sound = λ i. record {
      drain = λ m e. record {
        positive = ground (arith, e);
        outside = ground (arith, e);
        delayed = ground (arith, e);
      };
      cap = ground (arith, i.cap);
    };
    total = ground arith;
  }
