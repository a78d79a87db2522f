-- ===== src/Host.antt =====
-- The Soroban host, as far as the contracts see it: a call returns a value, returns `Err`, or
-- panics; it reads the ledger's clock and the authorisations of the transaction.
pub mod Token
use callora_contracts.Prelude.{
  inl, inr, ◌⊎◌, ◌≡◌, refl, ap, ℕ, Bool, Option, none, some, String, if◌then◌else◌,
}
use callora_contracts.Prelude.Int.{ℤ}

-- An address is only compared and ordered.
abbrev pub Address : Type 0
Address = ℕ

-- A 32-byte hash, a `Symbol` and a message are only stored and passed on.
abbrev pub Hash : Type 0
Hash = ℕ

-- How a call panics: `panic_with_error`, `panic!` or `assert!`, `unwrap` on nothing, a failed
-- `require_auth`, an overflow with overflow checks on, or a panic inside a token contract.
pub data Fault (E : Type 0) : Type 0 where
  with_error : E → Fault E
  message : String → Fault E
  unwrap_none unauthenticated overflow token_panic : Fault E

pub data Outcome (E A : Type 0) : Type 0 where
  ok : A → Outcome E A
  err : E → Outcome E A
  panic : Fault E → Outcome E A

-- What a call can read and not write.
pub record Env : Type 0 where
  pub timestamp : ℕ
  pub sequence : ℕ
  pub contract : Address
  pub authorized : Address → Bool

-- The state comes back beside an `Err` too: what was written before it stays written until the
-- host undoes the whole transaction.
abbrev pub Op : Type 0 → Type 0 → Type 0 → Type 0
Op S E A = S → Outcome E A × S

infixl 5 ◌>>=◌ ◌>>◌
abbrev pub ◌>>=◌ : {S E A B : Type 0} → Op S E A → (A → Op S E B) → Op S E B
◌>>=◌ m f s =
    let (r, s') = m s in elim r [ ok a ↦ f a s' | err e ↦ (err e, s') | panic x ↦ (panic x, s') ]

abbrev pub ◌>>◌ : {S E B : Type 0} → Op S E (Unit {0}) → Op S E B → Op S E B
m >> n = m >>= λ _. n

module _ {S E A : Type 0} where
  abbrev pub pure : A → Op S E A
  pure a s = (ok a, s)

  abbrev pub gets : (S → A) → Op S E A
  gets f s = (ok (f s), s)

  -- `return Err(e)`
  abbrev pub fail : E → Op S E A
  fail e s = (err e, s)

  abbrev pub abort : Fault E → Op S E A
  abort x s = (panic x, s)

  -- `.ok_or(e)?`
  abbrev pub or_fail : E → Option A → Op S E A
  or_fail e none = fail e
  or_fail e (some a) = pure a

  -- `.unwrap_or_else(|| panic)`, `.expect` and `.unwrap`
  abbrev pub or_abort : Fault E → Option A → Op S E A
  or_abort x none = abort x
  or_abort x (some a) = pure a

  -- `.unwrap_or_else(|e| env.panic_with_error(e))`
  abbrev pub or_panic : Op S E A → Op S E A
  or_panic m s =
      let (r, s') = m s in
      (elim r [ ok a ↦ ok a | err e ↦ panic (Fault.with_error e) | panic x ↦ panic x ], s')

module _ {S E : Type 0} where
  abbrev pub modify : (S → S) → Op S E (Unit {0})
  modify f s = (ok tt, f s)

  -- `if bad { return Err(e); }`
  abbrev pub fail_if : Bool → E → Op S E (Unit {0})
  fail_if bad e s = (if bad then err e else ok tt, s)

  -- `if bad { panic }`
  abbrev pub abort_if : Bool → Fault E → Op S E (Unit {0})
  abort_if bad x s = (if bad then panic x else ok tt, s)

  -- `address.require_auth()`
  abbrev pub require_auth : Env → Address → Op S E (Unit {0})
  require_auth env a s = (if env.authorized a then ok tt else panic Fault.unauthenticated, s)

-- A transaction: unless the call returns a value, the host restores the state.
abbrev pub settle_state : {S E A : Type 0} → S → Outcome E A × S → S
settle_state s (ok a, s') = s'
settle_state s (err e, s') = s
settle_state s (panic x, s') = s

abbrev pub commit : {S E A : Type 0} → Op S E A → S → S
commit m s = settle_state s (m s)

-- The token contracts: the balance that each of them reports of each holder.
abbrev pub Ledger : Type 0
Ledger = Address → Address → ℤ

-- The token contracts' `transfer(from, to, amount)`, which is not code of this repository: `none`
-- is a panic.
abbrev pub Transfer : Type 0
Transfer = Ledger → Address → Address → Address → ℤ → Option Ledger

-- A block that returned did so through its first step.
pub >>=-eq-ok :
    {S E A B : Type 0} (m : Op S E A) (f : A → Op S E B) (s s' : S) (b : B)
    → (m >>= f) s ≡ (ok b, s')
    → (a : A) × (s₁ : S) × (m s ≡ (ok a, s₁)) × (f a s₁ ≡ (ok b, s'))
>>=-eq-ok {S} {E} {A} {B} m f s s' b h = split (m s) refl h
  where
    after : Outcome E A × S → Outcome E B × S
    after (r, s₁) = elim r [ ok a ↦ f a s₁ | err e ↦ (err e, s₁) | panic x ↦ (panic x, s₁) ]

    split :
        (r : Outcome E A × S)
        → m s ≡ r
        → after r ≡ (ok b, s')
        → (a : A) × (s₁ : S) × (m s ≡ (ok a, s₁)) × (f a s₁ ≡ (ok b, s'))
    split (ok a, s₁) e k = (a, s₁, e, k)
    split (err x, s₁) e k = cc
    split (panic x, s₁) e k = cc

-- A block that returned `Err` did so in its first step, or behind it.
pub >>=-eq-err :
    {S E A B : Type 0} (m : Op S E A) (f : A → Op S E B) (s s' : S) (e : E)
    → (m >>= f) s ≡ (err e, s')
    → (m s ≡ (err e, s')) ⊎ ((a : A) × (s₁ : S) × (m s ≡ (ok a, s₁)) × (f a s₁ ≡ (err e, s')))
>>=-eq-err {S} {E} {A} {B} m f s s' e h = split (m s) refl h
  where
    after : Outcome E A × S → Outcome E B × S
    after (r, s₁) = elim r [ ok a ↦ f a s₁ | err x ↦ (err x, s₁) | panic x ↦ (panic x, s₁) ]

    split :
        (r : Outcome E A × S)
        → m s ≡ r
        → after r ≡ (err e, s')
        → (m s ≡ (err e, s')) ⊎ ((a : A) × (s₁ : S) × (m s ≡ (ok a, s₁)) × (f a s₁ ≡ (err e, s')))
    split (ok a, s₁) p k = inr (a, s₁, p, k)
    split (err x, s₁) p k = inl (cc)
    split (panic x, s₁) p k = cc

-- A first step that returns hands over to the next.
pub >>=-ok :
    {S E A B : Type 0} (m : Op S E A) (f : A → Op S E B) (s s₁ : S) (a : A)
    → m s ≡ (ok a, s₁)
    → (m >>= f) s ≡ f a s₁
>>=-ok {S} {E} {A} {B} m f s s₁ a h = ap after h
  where
    after : Outcome E A × S → Outcome E B × S
    after (r, t) = elim r [ ok b ↦ f b t | err e ↦ (err e, t) | panic x ↦ (panic x, t) ]

-- What comes behind a first step only matters as far as it runs.
pub >>-cong :
    {S E B : Type 0} (m : Op S E (Unit {0})) (f g : Op S E B) (s : S)
    → ((t : S) → f t ≡ g t)
    → (m >> f) s ≡ (m >> g) s
>>-cong {S} {E} {B} m f g s h = split (m s)
  where
    after : Op S E B → Outcome E (Unit {0}) × S → Outcome E B × S
    after k (r, t) = elim r [ ok b ↦ k t | err e ↦ (err e, t) | panic x ↦ (panic x, t) ]

    split : (r : Outcome E (Unit {0}) × S) → after f r ≡ after g r
    split (ok a, t) = h t
    split (err e, t) = refl
    split (panic x, t) = refl
