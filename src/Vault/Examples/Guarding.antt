-- ===== src/Vault/Examples/Guarding.antt =====
-- The vault's history, its rate limits, its cold storage and its rescue at concrete stores.
use callora_contracts.Prelude.{
  ℕ, ◌+◌, ◌-◌, ◌*◌, ◌≡◌, ◌≤◌, ◌↔◌, refl, true, none, some, List, [], ◌∷◌, ◌++◌, length, arith, ◌==◌,
  if◌then◌else◌,
}
use callora_contracts.Prelude.Int.{pos, ◌+ℤ◌, ◌-ℤ◌, ◌≤ℤ◌, ◌<ℤ◌}
use callora_contracts.Host.{Address, Env, ok, err}
use callora_contracts.Vault.Types.{VaultError, Store}
use callora_contracts.Vault.Money.{tracked, move_tokens}
use callora_contracts.Vault.System.{Request, run}
use callora_contracts.Vault.System.Quiet.{IsSafe}
use callora_contracts.Vault.System.History.{run-IsSafe}
use callora_contracts.Vault.Rate.Level.{limit}
use callora_contracts.Vault.Rate.Budget.{Consumption, consumed, last_ledger, consumed-bound}
use callora_contracts.Vault.Cold.{ColdConfig, validate, maybe_rebalance}
use callora_contracts.Vault.Cold.Rebalance.{pools, maybe_rebalance_effect}
use callora_contracts.Vault.Cold.Signers.{IsValid, validate-IsValid}
use callora_contracts.Vault.Rescue.{SweepPreview, rescue_funds, dry_run_sweep_idle_balance}
use callora_contracts.Vault.Rescue.Preview.{rescue_effect, preview-rescue}
use callora_contracts.Vault.Validators.{zeros, normalize_visible_ascii, is_visible_ascii_metadata}
use callora_contracts.Vault.Validators.Accepted.{
  IsMetadata, text, is_visible_ascii_metadata-IsMetadata, text-normalize,
}
use callora_contracts.Vault.Examples.{move, move-IsToken, note_down, env, later, ready}

ready-IsSafe : IsSafe ready
ready-IsSafe = record {
  owned = refl;
  solvent = ground arith;
  window = ground arith;
  pausing = λ p e. ground (arith, e);
  upgrading = λ p e. ground (arith, e);
  sweeping = λ p e. ground (arith, e);
}

-- A sweep that comes too early, a deposit, a deduction, and the sweep when it is due.
abbrev history : List (Env × Request)
history =
    (env, Request.propose_sweep 1 55 (pos 100))
    ∷ (env, Request.execute_sweep 1)
    ∷ (env, Request.deposit 1 (pos 50))
    ∷ (env, Request.deduct 2 (pos 60) 1)
    ∷ (later, Request.execute_sweep 1)
    ∷ []

run-IsSafe_example : IsSafe (run move note_down history ready)
run-IsSafe_example =
    run-IsSafe move note_down history ready
      (omega arith, (omega arith, (omega arith, (omega arith, (omega arith, tt))))) ready-IsSafe

-- The developer 4 may spend 10 at once and 2 more per ledger.
abbrev limited : Store
limited = record ready { developer_config = λ a. if a == 4 then some (limit 10 2) else none }

-- A call within the limit, one above it, one of somebody without a limit, and one after a ledger.
abbrev calls : List Consumption
calls = (env, 4, 8) ∷ (env, 4, 5) ∷ (env, 5, 1000) ∷ (later, 4, 4) ∷ []

consumed-bound_example : consumed 4 calls limited ≤ 10 + (last_ledger 5 calls - 5) * 2
consumed-bound_example =
    consumed-bound 10 2 5 4 calls limited (omega arith) refl tt
      (omega arith, (omega arith, (omega arith, (omega arith, tt))))

-- A fifth of the balance is to be hot, and two of three signers approve a sweep.
abbrev config : ColdConfig
config = record {
  hot_bps = 2000;
  rebalance_threshold_bps = 500;
  cold_signers = 1 ∷ 2 ∷ 3 ∷ [];
  cold_threshold = 2;
}

maybe_rebalance_effect_example :
    (hot' : ℕ) × (cold' : ℕ) × (maybe_rebalance (pools 900 100) config ready
      ≡ (ok (pools hot' cold'), ready))
    × (hot' + cold' ≡ 900 + 100)
    × (100 ≤ cold')
    × (hot' * 10000 ≤ (config.hot_bps + config.rebalance_threshold_bps + 1) * (900 + 100))
    × (900 * 10000 ≤ config.hot_bps * (900 + 100) → hot' ≡ 900)
unfolding validate
maybe_rebalance_effect_example = maybe_rebalance_effect 900 100 config ready (omega arith) refl

validate-IsValid_example : (validate config ready ≡ (ok tt, ready)) ↔ IsValid config
validate-IsValid_example = validate-IsValid config ready

abbrev rescued : Store
rescued = (rescue_funds move env 9 55 (pos 150) (some (pos 300)) ready).1

rescue_effect_example :
    (pos 0 <ℤ pos 150)
    × (pos 300 ≤ℤ rescued.ledger 9 env.contract)
    × (rescued.ledger 9 55 ≡ ready.ledger 9 55 +ℤ pos 150)
    × (tracked rescued ≡ tracked ready)
unfolding rescue_funds ◌+ℤ◌ ◌-ℤ◌
rescue_effect_example =
    rescue_effect move env 9 55 (pos 150) (pos 300) ready rescued move-IsToken (ground arith) refl

abbrev idle : SweepPreview
idle = record {
  on_ledger_balance = pos 500;
  tracked_balance = pos 300;
  idle_balance = pos 200;
  has_idle = true;
}

preview-rescue_example :
    (usdc : Address) × (ready.usdc_token ≡ some usdc)
    × (ready ≡ ready)
    × (pos 200 ≤ℤ idle.idle_balance
        → rescue_funds move env usdc 55 (pos 200) (some (tracked ready)) ready
          ≡ move_tokens move usdc env.contract 55 (pos 200) ready)
    × (idle.idle_balance <ℤ pos 200
        → rescue_funds move env usdc 55 (pos 200) (some (tracked ready)) ready
          ≡ (err VaultError.insufficient_balance, ready))
unfolding dry_run_sweep_idle_balance ◌+ℤ◌ ◌-ℤ◌
preview-rescue_example = preview-rescue move env 55 (pos 200) idle ready ready (omega arith) refl

-- "v1 ok"
abbrev tag : List ℕ
tag = 118 ∷ 49 ∷ 32 ∷ 111 ∷ 107 ∷ []

is_visible_ascii_metadata-IsMetadata_example :
    (is_visible_ascii_metadata tag ≡ true) ↔ IsMetadata tag
is_visible_ascii_metadata-IsMetadata_example = is_visible_ascii_metadata-IsMetadata tag

text-normalize_example : (length (tag ++ zeros 251) ≡ 256) × (text (tag ++ zeros 251) ≡ tag)
unfolding normalize_visible_ascii
text-normalize_example = text-normalize tag (tag ++ zeros 251) refl
