-- ===== src/Vault/Cold/Signers.antt =====
-- What `validate` accepts.
use callora_contracts.Prelude.{
  ℕ, ◌≤◌, ◌<◌, ◌≡◌, ◌↔◌, refl, false, List, [], ◌∷◌, Distinct, length, arith,
}
use callora_contracts.Host.{ok}
use callora_contracts.Vault.Cold.{ColdConfig, has_duplicate, validate}

has_duplicate-Distinct : (xs : List ℕ) → has_duplicate xs ≡ false → Distinct xs
has_duplicate-Distinct [] e = tt
has_duplicate-Distinct (x ∷ xs) e =
    (ground (arith, e), has_duplicate-Distinct xs (ground (arith, e)))

Distinct-has_duplicate : (xs : List ℕ) → Distinct xs → has_duplicate xs ≡ false
Distinct-has_duplicate [] d = refl
Distinct-has_duplicate (x ∷ xs) (fresh, d) = ground (arith, fresh, Distinct-has_duplicate xs d)

-- A target share and a tolerance of more than nothing and at most all, and a threshold that the
-- signers, who are all different, can meet and that one of them at least has to meet.
pub record IsValid (config : ColdConfig) : Type 0 where
  pub share : (0 < config.hot_bps) × (config.hot_bps ≤ 10000)
  pub tolerance : (0 < config.rebalance_threshold_bps) × (config.rebalance_threshold_bps ≤ 10000)
  pub quorum : (0 < config.cold_threshold) × (config.cold_threshold ≤ length config.cold_signers)
  pub distinct : Distinct config.cold_signers

-- `validate` returns exactly for the configurations whose share and tolerance are between 1 and
-- 10,000 basis points, whose threshold is at least 1 and at most the number of signers, and whose
-- signers are all different.
pub validate-IsValid :
    {S : Type 0} (config : ColdConfig) (s : S) → (validate config s ≡ (ok tt, s)) ↔ IsValid config
unfolding validate
validate-IsValid config s = (
  λ h. record {
    share = (ground arith, ground arith);
    tolerance = (ground arith, ground arith);
    quorum = (ground arith, ground arith);
    distinct = has_duplicate-Distinct config.cold_signers (ground arith);
  },
  λ v. ground (
    arith,
    v.share,
    v.tolerance,
    v.quorum,
    Distinct-has_duplicate config.cold_signers v.distinct,
  ),
)
