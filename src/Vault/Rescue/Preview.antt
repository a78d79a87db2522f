-- ===== src/Vault/Rescue/Preview.antt =====
-- What a rescue takes, and what the preview of a sweep says of it.
use callora_contracts.Prelude.{◌≡◌, ◌≢◌, ◌⊎◌, Bool-cases, none, some, arith, Option-cases, inl, inr}
use callora_contracts.Prelude.Int.{ℤ, pos, ltb_ℤ, checked_sub, ◌≤ℤ◌, ◌<ℤ◌, ◌-ℤ◌, ◌+ℤ◌, int_laws}
use callora_contracts.Host.{Address, Env, Transfer, ok, err}
use callora_contracts.Host.Token.{IsToken}
use callora_contracts.Vault.Types.{VaultError, Store}
use callora_contracts.Vault.Money.{tracked, move_tokens}
use callora_contracts.Vault.Rescue.{rescue_funds, SweepPreview, dry_run_sweep_idle_balance}

-- A rescue that returns, under the token standard and to somebody else, moves a positive amount to
-- the recipient and leaves the vault at least the balance that was protected; the tracked balance is
-- not touched.
pub rescue_effect :
    (transfer : Transfer) (env : Env) (token to : Address) (amount protected : ℤ) (s s' : Store)
    → IsToken transfer
    → env.contract ≢ to
    → rescue_funds transfer env token to amount (some protected) s ≡ (ok tt, s')
    → (pos 0 <ℤ amount)
      × (protected ≤ℤ s'.ledger token env.contract)
      × (s'.ledger token to ≡ s.ledger token to +ℤ amount)
      × (tracked s' ≡ tracked s)
unfolding rescue_funds
rescue_effect transfer env token to amount protected s s' standard apart h =
    let ran : transfer (s.ledger) token env.contract to amount ≡ some s'.ledger =
      ground (arith, h) in
    let (gone, given, _) =
      standard.moves s.ledger s'.ledger token env.contract to amount apart ran in
    let free : amount ≤ℤ (s.ledger token env.contract -ℤ protected) = ground (arith, h) in
    (ground (arith, h), rw gone (omega int_laws), given, ground (arith, h))

module _ (transfer : Transfer) (env : Env) (token to : Address) (amount protected : ℤ) (s : Store)
    (positive : pos 0 <ℤ amount) where
  rescue_covered :
      (free : ℤ)
      → checked_sub (s.ledger token env.contract) protected ≡ some free
      → amount ≤ℤ free
      → rescue_funds transfer env token to amount (some protected) s
        ≡ move_tokens transfer token env.contract to amount s
  unfolding rescue_funds
  rescue_covered free e le = ground (arith, e)

  rescue_short :
      ((checked_sub (s.ledger token env.contract) protected ≡ none)
        ⊎ ((free : ℤ) × (checked_sub (s.ledger token env.contract) protected ≡ some free)
            × (free <ℤ amount)))
      → rescue_funds transfer env token to amount (some protected) s
        ≡ (err VaultError.insufficient_balance, s)
  unfolding rescue_funds
  rescue_short (inl e) = ground (arith, e)
  rescue_short (inr (free, e, le)) = ground (arith, e)

short :
    (a b c : ℤ)
    → a ≤ℤ b
    → pos 0 <ℤ c
    → (checked_sub a b ≡ none) ⊎ ((free : ℤ) × (checked_sub a b ≡ some free) × (free <ℤ c))
short a b c le positive = elim (Option-cases (checked_sub a b)) [
  | inl e ↦ inl e
  | inr (free, e) ↦
      let same : free ≡ a -ℤ b = ground (arith, e) in inr (free, e, rw same (omega int_laws))
]

-- The idle balance of a preview.
idle-cases :
    (env : Env) (usdc : Address) (preview : SweepPreview) (s s' : Store)
    → s.usdc_token ≡ some usdc
    → dry_run_sweep_idle_balance env s ≡ (ok preview, s')
    → (checked_sub (s.ledger usdc env.contract) (tracked s) ≡ some preview.idle_balance)
      ⊎ ((s.ledger usdc env.contract ≤ℤ tracked s) × (preview.idle_balance ≡ pos 0))
unfolding dry_run_sweep_idle_balance
idle-cases env usdc preview s s' e h =
    elim (Bool-cases (ltb_ℤ (tracked s) (s.ledger usdc env.contract))) [
      | inl more ↦ inl (ground (arith, e, more, h))
      | inr less ↦ inr (ground (arith, less), ground (arith, e, less, h))
    ]

-- For a preview that returns, the idle balance is what a rescue of the vault's own token can take
-- while the tracked balance is protected: any positive amount up to it goes to the token contract,
-- and any larger one is refused, with nothing changed.
pub preview-rescue :
    (transfer : Transfer) (env : Env) (to : Address) (amount : ℤ) (preview : SweepPreview)
    (s s' : Store)
    → pos 0 <ℤ amount
    → dry_run_sweep_idle_balance env s ≡ (ok preview, s')
    → (usdc : Address) × (s.usdc_token ≡ some usdc)
      × (s' ≡ s)
      × (amount ≤ℤ preview.idle_balance
          → rescue_funds transfer env usdc to amount (some (tracked s)) s
            ≡ move_tokens transfer usdc env.contract to amount s)
      × (preview.idle_balance <ℤ amount
          → rescue_funds transfer env usdc to amount (some (tracked s)) s
            ≡ (err VaultError.insufficient_balance, s))
unfolding dry_run_sweep_idle_balance
preview-rescue transfer env to amount preview s s' positive h = elim (Option-cases s.usdc_token) [
  | inl gone ↦ ground (arith, gone)
  | inr (usdc, e) ↦
      let known = idle-cases env usdc preview s s' e h in
      (
        usdc,
        e,
        ground (arith, e),
        λ low. elim known [
          | inl free ↦
              rescue_covered transfer env usdc to amount (tracked s) s positive preview.idle_balance
                free low
          | inr (_, none_idle) ↦ absurd (ground (arith, none_idle, low, positive))
        ],
        λ high. rescue_short transfer env usdc to amount (tracked s) s positive (elim known [
          | inl free ↦ inr (preview.idle_balance, free, high)
          | inr (less, _) ↦ short (s.ledger usdc env.contract) (tracked s) amount less positive
        ]),
      )
]
