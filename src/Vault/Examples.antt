-- ===== src/Vault/Examples.antt =====
-- The theorems of the vault at concrete transactions.
mod Guarding
use callora_contracts.Prelude.{
  ℕ, ◌+◌, ◌≡◌, ◌≤◌, ◌<◌, ◌^◌, refl, true, false, none, some, List, [], ◌∷◌, ◌==◌, ◌&&◌,
  if◌then◌else◌, arith,
}
use callora_contracts.Prelude.Int.{ℤ, pos, ◌+ℤ◌, ◌-ℤ◌, ◌≤ℤ◌, ◌<ℤ◌, leb_ℤ}
use callora_contracts.Host.{Address, Env, Transfer, ok}
use callora_contracts.Vault.Types.{Store, min_timelock_seconds, max_timelock_seconds}
use callora_contracts.Vault.Money.{Recorder, tracked, deposit, deduct, batch_deduct}
use callora_contracts.Vault.Money.Single.{deduct-batch_deduct}
use callora_contracts.Vault.Timelock.{
  get_timelock_window, saturating_deadline, set_timelock_window, propose_pause, execute_pause,
  propose_sweep, execute_sweep,
}
use callora_contracts.Vault.Timelock.Delay.{
  saturating_deadline_lem, set_timelock_window-bounds, sweep_delay,
}
use callora_contracts.Host.Token.{IsToken}

-- A token contract that moves what it is told to, if the holder has it.
abbrev pub move : Transfer
move l t from to a =
    if leb_ℤ a (l t from)
    then some (λ u h.
      if u == t && h == from
      then l t from -ℤ a
      else if u == t && h == to
      then l t to +ℤ a
      else l u h)
    else none

pub move-IsToken : IsToken move
move-IsToken = record {
  moves = λ l l' t from to a apart h.
      (ground (arith, h, apart), ground (arith, h, apart), λ d p q. ground (arith, h, p, q));
}

-- A settlement contract that moves no tokens.
abbrev pub note_down : Recorder
note_down l a amount id = some l

abbrev pub env : Env
env = record { timestamp = 1000; sequence = 5; contract = 100; authorized = λ a. true }

-- Two days later.
abbrev pub later : Env
later = record { timestamp = 200000; sequence = 6; contract = 100; authorized = λ a. true }

-- The owner and admin is 1, the authorised caller 2, the settlement contract 3 and the token 9.
abbrev pub ready : Store
ready = record {
  owner = some 1;
  usdc_token = some 9;
  balance = some (pos 300);
  authorized_caller = some 2;
  min_deposit = some (pos 5);
  revenue_pool = none;
  max_deduct = some (pos 100);
  settlement = some 3;
  paused = some false;
  depositor = λ a. none;
  processed_request = λ id. none;
  reserve_cap = λ t. none;
  timelock_window = none;
  pending_pause = none;
  pending_upgrade = none;
  pending_sweep = none;
  developer_config = λ a. none;
  developer_state = λ a. none;
  admin = some 1;
  pending_admin = none;
  contract_version = none;
  ledger = λ t h. pos 500;
  code = none;
  events = [];
}

abbrev deposited : Store
deposited = (deposit move env 1 (pos 50) ready).1

abbrev items : List (ℤ × ℕ)
items = (pos 60, 1) ∷ (pos 100, 2) ∷ []

abbrev spent : Store
spent = (batch_deduct move note_down env 2 items ready).1

deduct-batch_deduct_example :
    batch_deduct move note_down env 2 ((pos 60, 1) ∷ []) ready
    ≡ (ok tt, (deduct move note_down env 2 (pos 60) 1 ready).1)
unfolding deduct ◌+ℤ◌ ◌-ℤ◌
deduct-batch_deduct_example =
    deduct-batch_deduct move note_down env 2 (pos 60) 1 ready
      (deduct move note_down env 2 (pos 60) 1 ready).1 refl refl

abbrev waiting : Store
waiting = (propose_pause env 1 ready).1

abbrev stopped : Store
stopped = (execute_pause later 1 waiting).1

abbrev sweeping : Store
sweeping = (propose_sweep env 1 55 (pos 400) ready).1

abbrev swept : Store
swept = (execute_sweep move later 1 sweeping).1

sweep_delay_example :
    (env.timestamp + get_timelock_window ready ≤ later.timestamp)
    × (pos 0 <ℤ pos 400)
    × (swept.pending_sweep ≡ none)
    × (tracked swept ≡ tracked sweeping)
    × ((usdc : Address) × (sweeping.usdc_token ≡ some usdc)
        × (pos 400 ≤ℤ sweeping.ledger usdc later.contract)
        × (move sweeping.ledger usdc later.contract 55 (pos 400) ≡ some swept.ledger))
unfolding propose_sweep execute_sweep ◌+ℤ◌ ◌-ℤ◌
sweep_delay_example =
    sweep_delay move env later 1 1 55 (pos 400) ready sweeping sweeping swept (omega arith) refl
      refl refl
