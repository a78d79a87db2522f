-- ===== src/Vault/Money/Effect.antt =====
-- What comes in and goes out is what the tracked balance says.
use callora_contracts.Prelude.{ℕ, ◌≡◌, ◌≢◌, false, some, List, All}
use callora_contracts.Prelude.Int.{ℤ, pos, ◌≤ℤ◌, ◌<ℤ◌, ◌-ℤ◌}
use callora_contracts.Host.{Address, Env}
use callora_contracts.Vault.Types.{Store}
use callora_contracts.Vault.Access.{is_paused}
use callora_contracts.Vault.Money.{tracked}
use callora_contracts.Vault.Money.Steps.{sum_of}

-- What the vault holds beyond the tracked balance.
abbrev pub surplus : Address → Address → Store → ℤ
surplus usdc contract s = s.ledger usdc contract -ℤ tracked s

pub record IsDeducted (env : Env) (spender : Address) (items : List (ℤ × ℕ))
    (min_dep max_deduct : ℤ) (settlement usdc : Address) (s s' : Store) : Type 0 where
  pub caller : s.authorized_caller ≡ some spender
  pub running : is_paused s ≡ false
  pub limits : (s.min_deposit ≡ some min_dep) × (s.max_deduct ≡ some max_deduct)
  pub amounts : All (λ (i : ℤ × ℕ). (pos 0 <ℤ i.0) × (min_dep ≤ℤ i.0) × (i.0 ≤ℤ max_deduct)) items
  pub covered : sum_of items ≤ℤ tracked s
  pub debited : tracked s' ≡ tracked s -ℤ sum_of items
  pub target : (s.settlement ≡ some settlement) × (s.usdc_token ≡ some usdc)
  pub kept : settlement ≢ env.contract → surplus usdc env.contract s' ≡ surplus usdc env.contract s
