-- ===== src/Vault/Cold/Rebalance.antt =====
-- What the rebalancing does to the two pools.
use callora_contracts.Prelude.{
  ℕ, zero, suc, ◌+◌, ◌-◌, ◌*◌, ◌/◌, ◌^◌, ◌≤◌, ◌<◌, ◌≡◌, refl, subst, some, arith, leb, inl, inr,
  ◌⊎◌, Bool-cases,
}
use native.Mathlib.Nat.{div-mul-le_self, div-le_self, le-div_iff_mul-le, div-lt_iff_lt-mul}
use callora_contracts.Prelude.Int.{pos, checked_add, checked_mul, checked_div, *ℤ_pos, ◌+ℤ◌, ◌-ℤ◌}
use callora_contracts.Host.{ok}
use callora_contracts.Vault.Cold.{
  ColdConfig, ColdBalances, validate, maybe_rebalance, rebalance, rebalanced, hot_share_bps,
  target_hot, distance,
}

abbrev pub pools : ℕ → ℕ → ColdBalances
pools hot cold = record { hot = pos hot; cold = pos cold }

mul_fits : (m n : ℕ) → m * n < 2 ^ 127 → checked_mul (pos m) (pos n) ≡ some (pos (m * n))
mul_fits m n small = rw (*ℤ_pos m n) (ground arith)

div_fits : (m k : ℕ) → m < 2 ^ 127 → checked_div (pos m) (pos (suc k)) ≡ some (pos (m / suc k))
div_fits m k small = ground (arith, div-le_self m (suc k))

-- A bound on a quotient is one on the product.
floor_above : (a k b : ℕ) → b < a / suc k → b * suc k + suc k ≤ a
floor_above a k b h =
    let scaled : (b + 1) * suc k ≤ a =
      (le-div_iff_mul-le {k = suc k} {x = b + 1} {y = a} (omega arith)).0 (omega arith) in
    omega arith

floor_near : (a k b : ℕ) → a / suc k ≤ b → a ≤ (b + 1) * suc k
floor_near a k b h =
    let scaled : a < (b + 1) * suc k =
      (div-lt_iff_lt-mul {k = suc k} {x = a} {y = b + 1} (omega arith)).0 (omega arith) in
    omega arith

module _ {S : Type 0} (hot cold : ℕ) (config : ColdConfig) (s : S)
    (small : (hot + cold) * 10000 < 2 ^ 127) (valid : config.hot_bps ≤ 10000) where
  abbrev share : ℕ → ℕ
  share k = hot * 10000 / suc k

  abbrev target : ℕ
  target = (hot + cold) * config.hot_bps / 10000

  share_eq : (k : ℕ) → hot_share_bps (pos hot) (pos (suc k)) s ≡ (ok (pos (share k)), s)
  unfolding hot_share_bps
  share_eq k =
      rw (mul_fits hot 10000 (omega arith)) (rw (div_fits (hot * 10000) k (omega arith)) refl)

  target_small : (hot + cold) * config.hot_bps ≤ (hot + cold) * 10000
  target_small = grind arith

  target_eq : target_hot (pos (hot + cold)) config.hot_bps s ≡ (ok (pos target), s)
  unfolding target_hot
  target_eq =
      rw (mul_fits (hot + cold) config.hot_bps (omega (arith, target_small)))
        (rw (div_fits ((hot + cold) * config.hot_bps) 9999 (omega (arith, target_small))) refl)

  sum_eq : checked_add (pos hot) (pos cold) ≡ some (pos (hot + cold))
  unfolding ◌+ℤ◌
  sum_eq = ground arith

  distance_eq :
      (k : ℕ)
      → distance (pos (share k)) (pos config.hot_bps) s
        ≡ (ok (pos (share k - config.hot_bps + (config.hot_bps - share k))), s)
  unfolding distance ◌-ℤ◌
  distance_eq k = ground (arith, div-le_self (hot * 10000) (suc k))

  rebalanced_eq :
      target ≤ hot
      → rebalanced (pools hot cold) config (pos (hot + cold)) s
        ≡ (ok (pools target (cold + (hot - target))), s)
  unfolding rebalanced ◌+ℤ◌ ◌-ℤ◌
  rebalanced_eq le =
      let fits : hot < 2 ^ 127 = omega arith in
      let fits' : hot + cold < 2 ^ 127 = omega arith in ground (arith, target_eq, fits, fits', le)

  -- A share above the target is a pool above it.
  above : (k : ℕ) → hot + cold ≡ suc k → config.hot_bps < share k → target ≤ hot
  above k e over =
      let low = div-mul-le_self (hot * 10000) (suc k) in
      let scaled : suc k * config.hot_bps ≤ share k * suc k = grind arith in
      let t : (hot + cold) * config.hot_bps ≤ hot * 10000 = rw e (omega arith) in omega arith

  rebalanced_eq' :
      (k : ℕ)
      → hot + cold ≡ suc k
      → target ≤ hot
      → rebalanced (pools hot cold) config (pos (suc k)) s
        ≡ (ok (pools target (cold + (hot - target))), s)
  rebalanced_eq' k e le =
      subst
        (λ n.
          rebalanced (pools hot cold) config (pos n) s
          ≡ (ok (pools target (cold + (hot - target))), s))
        e (rebalanced_eq le)

  -- The choice: to the target from beyond the tolerance above it, or nothing.
  rebalance_eq :
      (k : ℕ)
      → hot + cold ≡ suc k
      → ((config.hot_bps + config.rebalance_threshold_bps < share k)
          × (rebalance (pools hot cold) config (pos (suc k)) s
              ≡ (ok (pools target (cold + (hot - target))), s)))
        ⊎ ((share k ≤ config.hot_bps + config.rebalance_threshold_bps)
            × (rebalance (pools hot cold) config (pos (suc k)) s ≡ (ok (pools hot cold), s)))
  unfolding rebalance
  rebalance_eq k e =
      elim (Bool-cases (leb (share k) (config.hot_bps + config.rebalance_threshold_bps))) [
        | inl near ↦ inr (ground (arith, near), ground (arith, near, share_eq k, distance_eq k))
        | inr far ↦
            let over : config.hot_bps + config.rebalance_threshold_bps < share k =
              ground (arith, far) in
            let whole = rebalanced_eq' k e (above k e (omega arith)) in
            inl (over, ground (arith, far, share_eq k, distance_eq k, whole))
      ]

  -- The pools after `maybe_rebalance`: as they were, or the hot one at its target.
  outcome :
      ((maybe_rebalance (pools hot cold) config s ≡ (ok (pools hot cold), s))
        × (hot * 10000 ≤ (config.hot_bps + config.rebalance_threshold_bps + 1) * (hot + cold)))
      ⊎ ((maybe_rebalance (pools hot cold) config s
            ≡ (ok (pools target (cold + (hot - target))), s))
          × (target ≤ hot)
          × (config.hot_bps * (hot + cold) < hot * 10000))
  unfolding maybe_rebalance
  outcome = go (hot + cold) refl
    where
      go :
          (n : ℕ)
          → hot + cold ≡ n
          → ((maybe_rebalance (pools hot cold) config s ≡ (ok (pools hot cold), s))
              × (hot * 10000
                  ≤ (config.hot_bps + config.rebalance_threshold_bps + 1) * (hot + cold)))
            ⊎ ((maybe_rebalance (pools hot cold) config s
                  ≡ (ok (pools target (cold + (hot - target))), s))
                × (target ≤ hot)
                × (config.hot_bps * (hot + cold) < hot * 10000))
      go zero e = inl (ground (arith, sum_eq, e), omega arith)
      go (suc k) e = elim (rebalance_eq k e) [
        | inl (over, r) ↦ inr (
          ground (arith, sum_eq, e, r),
          above k e (omega arith),
          rw e (omega (arith, floor_above (hot * 10000) k config.hot_bps (omega arith))),
        )
        | inr (near, r) ↦ inl (
          ground (arith, sum_eq, e, r),
          rw e (floor_near (hot * 10000) k (config.hot_bps + config.rebalance_threshold_bps) near),
        )
      ]

valid_bps :
    {S : Type 0} (config : ColdConfig) (s : S)
    → validate config s ≡ (ok tt, s)
    → (0 < config.hot_bps) × (config.hot_bps ≤ 10000)
unfolding validate
valid_bps config s h = (ground arith, ground arith)

-- For a configuration that `validate` accepts and two pools that are not negative, where ten thousand
-- times their sum is an i128, `maybe_rebalance` returns; the sum stays the same, the cold
-- pool never shrinks, the hot pool is afterwards at most a basis point beyond the tolerance above
-- its target share, and a hot pool that is not above its target share stays as it was.
pub maybe_rebalance_effect :
    {S : Type 0} (hot cold : ℕ) (config : ColdConfig) (s : S)
    → (hot + cold) * 10000 < 2 ^ 127
    → validate config s ≡ (ok tt, s)
    → (hot' : ℕ) × (cold' : ℕ) × (maybe_rebalance (pools hot cold) config s
        ≡ (ok (pools hot' cold'), s))
      × (hot' + cold' ≡ hot + cold)
      × (cold ≤ cold')
      × (hot' * 10000 ≤ (config.hot_bps + config.rebalance_threshold_bps + 1) * (hot + cold))
      × (hot * 10000 ≤ config.hot_bps * (hot + cold) → hot' ≡ hot)
maybe_rebalance_effect hot cold config s small valid =
    let (_, bps) = valid_bps config s valid in
    elim (outcome hot cold config s small bps) [
      | inl (same, near) ↦ (hot, cold, same, refl, omega arith, near, λ low. refl)
      | inr (moved, fits, over) ↦ (
        target hot cold config s small bps,
        cold + (hot - target hot cold config s small bps),
        moved,
        omega arith,
        omega arith,
        omega (arith, div-mul-le_self ((hot + cold) * config.hot_bps) 10000),
        λ low. absurd (omega arith),
      )
    ]
