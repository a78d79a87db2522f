-- ===== src/Vault/Rate/Level.antt =====
-- The tokens of a bucket, from one call to the next.
use callora_contracts.Prelude.{
  ℕ, ◌+◌, ◌-◌, ◌*◌, ◌≡◌, ◌≤◌, ◌<◌, ◌^◌, Option, none, some, get_or, arith, ==_refl, inl, inr, ◌⊎◌,
  Bool-cases, ◌==◌, true, false, put, ap,
}
use callora_contracts.Prelude.Int.{
  ℤ, pos, ltb_ℤ, pos_part, neg_part, ◌≤ℤ◌, ◌+ℤ◌, ◌-ℤ◌, ◌*ℤ◌, int_laws, checked_mul, i128_max,
  checked_sub, *ℤ_pos,
}
use callora_contracts.Host.{Address, Env, Outcome, ok, err, panic, settle_state}
use callora_contracts.Vault.Types.{Store, VaultError, RateLimitConfig, RateLimitState}
use callora_contracts.Vault.Rate.{refill, refilled, fresh, consume_limited, consume_tokens}

-- A capacity and a refill rate that are not negative.
abbrev pub limit : ℕ → ℕ → RateLimitConfig
limit capacity rate = record { capacity = pos capacity; refill_rate = pos rate }

-- The tokens of a bucket at a ledger, the refill included; a bucket never used is full.
abbrev pub level : RateLimitConfig → ℕ → Option RateLimitState → ℤ
level config now none = config.capacity
level config now (some state) = let after : RateLimitState = refill config now state in after.tokens

-- The bucket holds between nothing and its capacity, and was last written by the ledger `now`.
abbrev pub IsFair : ℕ → ℕ → Option RateLimitState → Type 0
IsFair capacity now none = Unit
IsFair capacity now (some state) =
    (pos 0 ≤ℤ state.tokens) × (state.tokens ≤ℤ pos capacity) × (state.last_updated_ledger ≤ now)

mul-cases :
    (m n : ℕ)
    → ((checked_mul (pos m) (pos n) ≡ some (pos (m * n))) × (m * n ≤ 2 ^ 127 - 1))
      ⊎ ((checked_mul (pos m) (pos n) ≡ none) × (2 ^ 127 ≤ m * n))
mul-cases m n = ground (arith, *ℤ_pos m n)

module _ (capacity rate : ℕ) (fits : capacity < 2 ^ 127) where
  module _ (tokens : ℤ) (low : pos 0 ≤ℤ tokens) (high : tokens ≤ℤ pos capacity) where
    more-some :
        (p q : ℕ)
        → p ≤ q
        → refilled (limit capacity rate) tokens (some (pos q))
          ≤ℤ refilled (limit capacity rate) tokens (some (pos p)) +ℤ pos (q - p)
    unfolding ◌+ℤ◌
    more-some p q le = ground arith

    more-none :
        (p : ℕ) (d : ℕ) → tokens ≤ℤ refilled (limit capacity rate) tokens (some (pos p)) +ℤ pos d
    unfolding ◌+ℤ◌
    more-none p d = ground arith

    -- A longer time adds at most its part of the refill.
    refilled-more :
        (m n : ℕ)
        → m * rate ≤ n * rate
        → refilled (limit capacity rate) tokens (checked_mul (pos n) (pos rate))
          ≤ℤ refilled (limit capacity rate) tokens (checked_mul (pos m) (pos rate))
            +ℤ pos (n * rate - m * rate)
    refilled-more m n le = elim (mul-cases m rate) [
      | inl (e, small) ↦ elim (mul-cases n rate) [
        | inl (e', small') ↦ rw (e, e') (more-some (m * rate) (n * rate) le)
        | inr (e', large') ↦ rw (e, e') (more-none (m * rate) (n * rate - m * rate))
      ]
      | inr (e, large) ↦ elim (mul-cases n rate) [
        | inl (e', small') ↦ absurd (omega arith)
        | inr (e', large') ↦ rw (e, e') (omega int_laws)
      ]
    ]

    refilled-fair :
        (n : ℕ)
        → (pos 0 ≤ℤ refilled (limit capacity rate) tokens (checked_mul (pos n) (pos rate)))
          × (refilled (limit capacity rate) tokens (checked_mul (pos n) (pos rate)) ≤ℤ pos capacity)
    unfolding ◌+ℤ◌
    refilled-fair n = elim (mul-cases n rate) [
      | inl (e, small) ↦ (ground (arith, e), ground (arith, e))
      | inr (e, large) ↦ (ground (arith, e), ground (arith, e))
    ]

-- A refill over two stretches of ledgers is that of both.
pub stretches : (l b a rate : ℕ) → l ≤ b → b ≤ a → (a - l) * rate ≡ (b - l) * rate + (a - b) * rate
stretches l b a rate p q = let e : a - l ≡ b - l + (a - b) = omega arith in rw e (omega arith)

module _ (capacity rate : ℕ) (fits : capacity < 2 ^ 127) where
  abbrev tokens_after : RateLimitState → ℕ → ℤ
  tokens_after state now =
      refilled (limit capacity rate) state.tokens
        (checked_mul (pos (now - state.last_updated_ledger)) (pos rate))

  refill_eq :
      (state : RateLimitState) (now : ℕ)
      → pos 0 ≤ℤ state.tokens
      → state.tokens ≤ℤ pos capacity
      → state.last_updated_ledger ≤ now
      → (let after : RateLimitState = refill (limit capacity rate) now state in after.tokens)
        ≡ tokens_after state now
  unfolding refill ◌+ℤ◌ ◌*ℤ◌
  refill_eq state now low high le = ground arith

  -- The level stays in bounds, and rises by at most the refill of the ledgers that pass.
  pub level-bounds :
      (now later : ℕ) (o : Option RateLimitState)
      → IsFair capacity now o
      → now ≤ later
      → (pos 0 ≤ℤ level (limit capacity rate) later o)
        × (level (limit capacity rate) later o ≤ℤ pos capacity)
        × (level (limit capacity rate) later o
            ≤ℤ level (limit capacity rate) now o +ℤ pos ((later - now) * rate))
  level-bounds now later none fair le = (omega arith, omega arith, omega int_laws)
  level-bounds now later (some state) (low, high, past) le =
      let last : ℕ = state.last_updated_ledger in
      let e = refill_eq state now low high past in
      let e' = refill_eq state later low high (omega arith) in
      let (zero, full) = refilled-fair capacity rate fits state.tokens low high (later - last) in
      let split = stretches last now later rate past le in
      let more =
        refilled-more capacity rate fits state.tokens low high (now - last) (later - last)
          (omega arith) in
      (rw e' zero, rw e' full, rw (e, e') (omega (int_laws, more, split)))

sub_small : (a : ℤ) (b : ℕ) → a ≤ℤ i128_max → pos b ≤ℤ a → checked_sub a (pos b) ≡ some (a -ℤ pos b)
unfolding ◌-ℤ◌
sub_small a b small le = ground arith

-- What a call with this outcome took out of the bucket.
abbrev pub paid : {A : Type 0} → Outcome VaultError A → ℕ → ℕ
paid (ok u) amount = amount
paid (err e) amount = 0
paid (panic x) amount = 0

-- The calls of one developer leave the configurations and the others' buckets alone.
pub consume-others :
    (env : Env) (caller developer : Address) (amount : ℤ) (s : Store)
    → ((settle_state s (consume_tokens env caller amount s)).developer_config ≡ s.developer_config)
      × ((caller == developer) ≡ false
          → (settle_state s (consume_tokens env caller amount s)).developer_state developer
            ≡ s.developer_state developer)
unfolding consume_tokens consume_limited
consume-others env caller developer amount s = (ground arith, λ e. ground (arith, e))

module _ (capacity rate : ℕ) (fits : capacity < 2 ^ 127) where
  module _ (env : Env) (developer : Address) (amount : ℕ) (s : Store)
      (configured : s.developer_config developer ≡ some (limit capacity rate))
      (fair : IsFair capacity env.sequence (s.developer_state developer)) where
    abbrev ready : RateLimitState
    ready =
        refill (limit capacity rate) env.sequence
          (get_or (fresh (limit capacity rate) env.sequence) (s.developer_state developer))

    abbrev left_over : RateLimitState
    left_over = record {
      tokens = ready.tokens -ℤ pos amount;
      last_updated_ledger = ready.last_updated_ledger;
    }

    refused :
        ltb_ℤ ready.tokens (pos amount) ≡ true
        → consume_tokens env developer (pos amount) s ≡ (err VaultError.rate_limited, s)
    unfolding consume_tokens consume_limited
    refused e = ground (arith, configured, e)

    ready-level :
        (ready.tokens ≡ level (limit capacity rate) env.sequence (s.developer_state developer))
        × (ready.last_updated_ledger ≡ env.sequence)
    unfolding refill
    ready-level = ground (arith, fair)

    ready-bounds : (pos 0 ≤ℤ ready.tokens) × (ready.tokens ≤ℤ pos capacity)
    ready-bounds =
        let (low, high, _) =
          level-bounds capacity rate fits env.sequence env.sequence (s.developer_state developer)
            fair (omega arith) in
        rw ready-level.0 (low, high)

    sub_fits :
        ltb_ℤ ready.tokens (pos amount) ≡ false
        → checked_sub ready.tokens (pos amount) ≡ some (ready.tokens -ℤ pos amount)
    sub_fits e =
        let (low, high) = ready-bounds in
        sub_small ready.tokens amount (omega (arith, high, fits)) (ground (arith, e))

    granted :
        ltb_ℤ ready.tokens (pos amount) ≡ false
        → consume_tokens env developer (pos amount) s
          ≡ (ok tt, record s { developer_state = put developer left_over s.developer_state })
    unfolding consume_tokens consume_limited
    granted e = ground (arith, configured, e, sub_fits e)

    level-left_over :
        level (limit capacity rate) env.sequence (some left_over) ≡ ready.tokens -ℤ pos amount
    unfolding refill
    level-left_over = ground (arith, ready-level.1)

    -- One call, whatever its outcome.
    pub consume-level :
        IsFair capacity env.sequence
          ((settle_state s (consume_tokens env developer (pos amount) s)).developer_state developer)
        × (level (limit capacity rate) env.sequence (
                (settle_state s (consume_tokens env developer (pos amount) s)).developer_state
                  developer)
              +ℤ pos (paid (consume_tokens env developer (pos amount) s).0 amount)
            ≤ℤ level (limit capacity rate) env.sequence (s.developer_state developer))
    consume-level = elim (Bool-cases (ltb_ℤ ready.tokens (pos amount))) [
      | inl e ↦ rw (refused e) (fair, omega int_laws)
      | inr e ↦
          let (low, high) = ready-bounds in
          let enough : pos amount ≤ℤ ready.tokens = ground (arith, e) in
          rw (granted e, ==_refl developer)
            (
              (omega int_laws, omega int_laws, omega (arith, ready-level.1)),
              rw level-left_over
                  (omega (int_laws, ap pos_part ready-level.0, ap neg_part ready-level.0)),
            )
    ]
