-- ===== src/Vault/Rate/Budget.antt =====
-- What a token bucket lets through over a history of calls.
use callora_contracts.Prelude.{
  ℕ, ◌+◌, ◌-◌, ◌*◌, ◌≡◌, ◌≤◌, ◌<◌, ◌^◌, Option, none, some, List, [], ◌∷◌, arith, ==_refl, ==_true,
  inl, inr, Bool-cases, ◌==◌, if◌then◌else◌, sym, ap, subst, ◌∙◌,
}
use callora_contracts.Prelude.Int.{pos, ◌≤ℤ◌, ◌+ℤ◌, int_laws}
use callora_contracts.Host.{Address, Env, Outcome, settle_state}
use callora_contracts.Vault.Types.{Store, VaultError, RateLimitState}
use callora_contracts.Vault.Rate.{consume_tokens}
use callora_contracts.Vault.Rate.Level.{
  limit, level, IsFair, level-bounds, stretches, consume-others, consume-level, paid,
}

-- A call of `consume_tokens`: by whom and for how much, at the ledger of its environment.
abbrev pub Consumption : Type 0
Consumption = Env × Address × ℕ

abbrev pub taken : Address → Address → ℕ → Outcome VaultError (Unit {0}) → ℕ
taken developer caller amount r = if caller == developer then paid r amount else 0

-- What a developer's calls took out of their bucket over a history of calls, each one committed
-- where it returned.
unfoldable pub consumed : Address → List Consumption → Store → ℕ
consumed developer [] s = 0
consumed developer ((env, caller, amount) ∷ rest) s =
    let behind =
      consumed developer rest (settle_state s (consume_tokens env caller (pos amount) s)) in
    taken developer caller amount (consume_tokens env caller (pos amount) s).0 + behind

-- The ledgers do not go back, from `now` on.
abbrev pub IsOrdered : ℕ → List Consumption → Type 0
IsOrdered now [] = Unit
IsOrdered now ((env, _, _) ∷ rest) = (now ≤ env.sequence) × IsOrdered env.sequence rest

abbrev pub last_ledger : ℕ → List Consumption → ℕ
last_ledger now [] = now
last_ledger now ((env, _, _) ∷ rest) = last_ledger env.sequence rest

last_ledger-ge :
    (now : ℕ) (history : List Consumption) → IsOrdered now history → now ≤ last_ledger now history
last_ledger-ge now [] o = omega arith
last_ledger-ge now ((env, _, _) ∷ rest) (le, o) = omega (arith, last_ledger-ge env.sequence rest o)

later-IsFair :
    (capacity now later : ℕ) (o : Option RateLimitState)
    → now ≤ later
    → IsFair capacity now o
    → IsFair capacity later o
later-IsFair capacity now later none le f = f
later-IsFair capacity now later (some state) le (low, high, past) = (low, high, omega arith)

module _ (capacity rate : ℕ) (fits : capacity < 2 ^ 127) (developer : Address) where
  -- One call of anybody, as the developer's bucket sees it.
  Follows : Env → ℕ → Store → Address → Type 0
  Follows env amount s caller =
      IsFair capacity env.sequence
        ((settle_state s (consume_tokens env caller (pos amount) s)).developer_state developer)
      × (level (limit capacity rate) env.sequence (
              (settle_state s (consume_tokens env caller (pos amount) s)).developer_state developer)
            +ℤ pos (taken developer caller amount (consume_tokens env caller (pos amount) s).0)
          ≤ℤ level (limit capacity rate) env.sequence (s.developer_state developer))

  call-Follows :
      (env : Env) (caller : Address) (amount : ℕ) (s : Store)
      → s.developer_config developer ≡ some (limit capacity rate)
      → IsFair capacity env.sequence (s.developer_state developer)
      → Follows env amount s caller
  unfolding Follows
  call-Follows env caller amount s configured fair = elim (Bool-cases (caller == developer)) [
    | inl same ↦
        subst (Follows env amount s) {x = developer} {y = caller}
          (sym (==_true caller developer same))
          (rw (==_refl developer)
            (consume-level capacity rate fits env developer amount s configured fair))
    | inr other ↦
        rw ((consume-others env caller developer (pos amount) s).1 other, other)
          (fair, omega int_laws)
  ]

  consumed-level :
      (now : ℕ) (history : List Consumption) (s : Store)
      → s.developer_config developer ≡ some (limit capacity rate)
      → IsFair capacity now (s.developer_state developer)
      → IsOrdered now history
      → pos (consumed developer history s)
        ≤ℤ level (limit capacity rate) now (s.developer_state developer)
          +ℤ pos ((last_ledger now history - now) * rate)
  unfolding consumed Follows
  consumed-level now [] s configured fair o =
      let (low, _, _) =
        level-bounds capacity rate fits now now (s.developer_state developer) fair (omega arith) in
      omega int_laws
  consumed-level now ((env, caller, amount) ∷ rest) s configured fair (le, o) =
      let t : Store = settle_state s (consume_tokens env caller (pos amount) s) in
      let (configs, _) = consume-others env caller developer (pos amount) s in
      let fair' = later-IsFair capacity now env.sequence (s.developer_state developer) le fair in
      let (_, _, rise) =
        level-bounds capacity rate fits now env.sequence (s.developer_state developer) fair le in
      let e =
        stretches now env.sequence (last_ledger env.sequence rest) rate le
          (last_ledger-ge env.sequence rest o) in
      let (fair'', spent) = call-Follows env caller amount s configured fair' in
      let ih =
        consumed-level env.sequence rest t (ap (λ f. f developer) configs ∙ configured) fair'' o in
      omega (int_laws, ih, spent, rise, e)

-- In any history of calls by anybody, for amounts that are not negative and at ledgers that do not go
-- back, a developer whose limit has a capacity, an i128, and a refill rate that are not negative, and
-- whose bucket is between empty and full, gets at most the capacity and the refill of the ledgers that
-- passed, whatever calls are refused.
pub consumed-bound :
    (capacity rate now : ℕ) (developer : Address) (history : List Consumption) (s : Store)
    → capacity < 2 ^ 127
    → s.developer_config developer ≡ some (limit capacity rate)
    → IsFair capacity now (s.developer_state developer)
    → IsOrdered now history
    → consumed developer history s ≤ capacity + (last_ledger now history - now) * rate
consumed-bound capacity rate now developer history s fits configured fair o =
    let (_, high, _) =
      level-bounds capacity rate fits now now (s.developer_state developer) fair (omega arith) in
    omega
      (int_laws, high, consumed-level capacity rate fits developer now history s configured fair o)
