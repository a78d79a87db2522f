-- ===== src/Vault/Rate.antt =====
-- The token buckets of the vault, contracts/vault/src/rate_limit.rs.
pub mod Level
pub mod Budget
use callora_contracts.Prelude.{ℕ, ◌-◌, Option, none, some, get_or, put, ltb, if◌then◌else◌}
use callora_contracts.Prelude.Int.{ℤ, pos, ltb_ℤ, checked_mul, checked_sub, saturating_add}
use callora_contracts.Host.{Address, Env, ◌>>=◌, ◌>>◌, pure, gets, modify, fail_if, or_fail}
use callora_contracts.Vault.Types.{Store, Call, RateLimitConfig, RateLimitState}
use callora_contracts.Vault.Types.VaultError.{rate_limited, overflow}

abbrev pub set_config : Address → RateLimitConfig → Call (Unit {0})
set_config developer config =
    modify λ s. record s { developer_config = put developer config s.developer_config }

abbrev pub get_config : Address → Store → Option RateLimitConfig
get_config developer s = s.developer_config developer

abbrev pub get_state : Address → Store → Option RateLimitState
get_state developer s = s.developer_state developer

-- A bucket that was never used is full.
abbrev pub fresh : RateLimitConfig → ℕ → RateLimitState
fresh config current = record { tokens = config.capacity; last_updated_ledger = current }

-- The tokens after a refill, at most the capacity; a refill that overflows is left out.
abbrev pub refilled : RateLimitConfig → ℤ → Option ℤ → ℤ
refilled config tokens none = tokens
refilled config tokens (some more) =
    let sum = saturating_add tokens more in
    if ltb_ℤ config.capacity sum then config.capacity else sum

-- The refill for the ledgers since the last update.
unfoldable pub refill : RateLimitConfig → ℕ → RateLimitState → RateLimitState
refill config current state =
    if ltb state.last_updated_ledger current
    then record {
      tokens =
          refilled config state.tokens
            (checked_mul (pos (current - state.last_updated_ledger)) config.refill_rate);
      last_updated_ledger = current;
    }
    else state

-- What a limited developer's call does.
unfoldable pub consume_limited : Env → Address → ℤ → RateLimitConfig → Call (Unit {0})
unfolding refill
consume_limited env developer amount config = do
  known ← gets (get_state developer)
  let state : RateLimitState = refill config env.sequence (get_or (fresh config env.sequence) known)
  fail_if (ltb_ℤ state.tokens amount) rate_limited
  left ← or_fail overflow (checked_sub state.tokens amount)
  let state' : RateLimitState = record state { tokens = left }
  modify λ s. record s { developer_state = put developer state' s.developer_state }

unfoldable pub consume_tokens : Env → Address → ℤ → Call (Unit {0})
unfolding consume_limited
consume_tokens env developer amount = do
  known ← gets (get_config developer)
  elim known [ none ↦ pure tt | some config ↦ consume_limited env developer amount config ]
