-- ===== src/Settlement/Liabilities.antt =====
-- What the settlement contract owes its developers, and how payments and withdrawals change it.
pub mod Paid
use callora_contracts.Prelude.{
  ℕ, ◌≡◌, ◌≢◌, ◌<◌, ◌⊎◌, inl, inr, refl, true, false, some, List, [], ◌∷◌, contains, ◌==◌, ==_true,
  ==_refl, ltb, All, arith, ap, sym, ◌∙◌, subst, get_or, Option, Bool-cases,
}
use callora_contracts.Prelude.Int.{ℤ, pos, ◌+ℤ◌, ◌-ℤ◌, ◌<ℤ◌, ◌≤ℤ◌, int_laws}
use callora_contracts.Host.{Address, Env, Transfer, ok}
use callora_contracts.Host.Token.{IsToken}
use callora_contracts.Settlement.Types.{Store}
use callora_contracts.Settlement.Index.{sorted_insert}
use callora_contracts.Settlement.Index.Order.{
  Ascending, insert_before, sorted_insert-old, sorted_insert-before, contains-sorted_insert,
  sorted_insert-Ascending,
}
use callora_contracts.Settlement.Payments.{receive_payment, balance_of, index_of}
use callora_contracts.Settlement.Payments.Credit.{receive_payment-IsCredited}
use callora_contracts.Settlement.Withdraw.{withdraw_developer_balance}
use callora_contracts.Settlement.Withdraw.Effect.{withdraw_effect}
use callora_contracts.Settlement.System.Sound.{IsSound}

-- The sum over a list of addresses.
abbrev pub sum_over : (Address → ℤ) → List Address → ℤ
sum_over f [] = pos 0
sum_over f (x ∷ xs) = f x +ℤ sum_over f xs

-- What the developers of the index hold in a token.
abbrev pub liabilities : Address → Store → ℤ
liabilities token s = sum_over (λ d. balance_of s d token) (index_of s)

sum_over-insert :
    (f : Address → ℤ) (a : Address) (xs : List Address)
    → sum_over f (insert_before a xs) ≡ f a +ℤ sum_over f xs
sum_over-insert f a [] = refl
sum_over-insert f a (x ∷ xs) = elim (Bool-cases (ltb a x)) [
  | inl e ↦ rw e refl
  | inr e ↦ rw e (rw (sum_over-insert f a xs) (omega int_laws))
]

-- One entry of an ascending list, or none, has changed by `a`.
sum_over-same :
    (f g : Address → ℤ) (xs : List Address) (d : Address)
    → contains d xs ≡ false
    → ((e : Address) → e ≢ d → g e ≡ f e)
    → sum_over g xs ≡ sum_over f xs
sum_over-same f g [] d c same = refl
sum_over-same f g (x ∷ xs) d c same =
    let other : x ≢ d = ground (arith, c) in
    rw (same x other, sum_over-same f g xs d (ground (arith, c)) same) refl

above-contains : (d : Address) (xs : List Address) → All (λ y. d < y) xs → contains d xs ≡ false
above-contains d [] all = refl
above-contains d (x ∷ xs) (lt, all) = ground (arith, lt, above-contains d xs all)

sum_over-change :
    (f g : Address → ℤ) (xs : List Address) (d : Address) (a : ℤ)
    → Ascending xs
    → contains d xs ≡ true
    → g d ≡ f d +ℤ a
    → ((e : Address) → e ≢ d → g e ≡ f e)
    → sum_over g xs ≡ sum_over f xs +ℤ a
sum_over-change f g [] d a up c at same = absurd (cc)
sum_over-change f g (x ∷ xs) d a (above, up) c at same = elim (Bool-cases (d == x)) [
  | inl e ↦
      let me : x ≡ d = sym (==_true d x e) in
      let rest =
        sum_over-same f g xs d (above-contains d xs (subst (λ k. All (λ y. k < y) xs) me above))
          same in
      let one : g x ≡ f x +ℤ a = rw me at in rw (one, rest) (omega int_laws)
  | inr e ↦
      let other : x ≢ d = ground (arith, e) in
      let rest = sum_over-change f g xs d a up (ground (arith, c, e)) at same in
      rw (same x other, rest) (omega int_laws)
]

-- A developer outside the index, who holds nothing, may be entered.
entered :
    (f : Address → ℤ) (d : Address) (xs : List Address)
    → (contains d xs ≡ false → f d ≡ pos 0)
    → sum_over f (sorted_insert d xs) ≡ sum_over f xs
entered f d xs nothing = elim (Bool-cases (contains d xs)) [
  | inl e ↦ ap (sum_over f) (sorted_insert-old d xs e)
  | inr e ↦
      ap (sum_over f) (sorted_insert-before d xs e)
      ∙ sum_over-insert f d xs
      ∙ rw (nothing e) (omega int_laws)
]

sum_over-eq :
    (f g : Address → ℤ) (xs : List Address)
    → ((d : Address) → g d ≡ f d)
    → sum_over g xs ≡ sum_over f xs
sum_over-eq f g [] same = refl
sum_over-eq f g (x ∷ xs) same = rw (same x, sum_over-eq f g xs same) refl

minus : (x a : ℤ) → x -ℤ a ≡ x +ℤ (pos 0 -ℤ a)
minus x a = omega int_laws

owes_something : (b a : ℤ) → pos 0 <ℤ a → a ≤ℤ b → b ≢ pos 0
owes_something b a positive le e = ground (arith, e)

-- A credit that enters its developer in the index, where whoever is not in it holds nothing.
pub credit-liabilities :
    (developer token : Address) (amount : ℤ) (s s' : Store)
    → Ascending (index_of s)
    → ((d t : Address) → contains d (index_of s) ≡ false → balance_of s d t ≡ pos 0)
    → index_of s' ≡ sorted_insert developer (index_of s)
    → balance_of s' developer token ≡ balance_of s developer token +ℤ amount
    → ((d t : Address) → (d ≢ developer) ⊎ (t ≢ token) → balance_of s' d t ≡ balance_of s d t)
    → (liabilities token s' ≡ liabilities token s +ℤ amount)
      × ((t : Address) → t ≢ token → liabilities t s' ≡ liabilities t s)
credit-liabilities developer token amount s s' ordered indexed index credited others =
    let there : contains developer (sorted_insert developer (index_of s)) ≡ true =
      contains-sorted_insert developer developer (index_of s) ∙ rw (==_refl developer) refl in
    let up = sorted_insert-Ascending developer (index_of s) ordered in
    (
      ap (sum_over (λ d. balance_of s' d token)) index
          ∙ sum_over-change (λ d. balance_of s d token) (λ d. balance_of s' d token)
              (sorted_insert developer (index_of s)) developer amount up there credited
              (λ d other. others d token (inl other))
          ∙ ap (λ x. x +ℤ amount)
              (entered (λ d. balance_of s d token) developer (index_of s)
                (indexed developer token)),
      λ t other.
          ap (sum_over (λ d. balance_of s' d t)) index
          ∙ sum_over-eq (λ d. balance_of s d t) (λ d. balance_of s' d t)
              (sorted_insert developer (index_of s)) (λ d. others d t (inr other))
          ∙ entered (λ d. balance_of s d t) developer (index_of s) (indexed developer t),
    )

-- In a sound store, a payment to a developer that returns raises what the developers hold together in
-- its token by exactly its amount, and leaves what they hold in every other token.
pub receive_payment-liabilities :
    (env : Env) (caller : Address) (amount : ℤ) (developer token : Address) (seq : ℕ) (s s' : Store)
    → IsSound env.contract s
    → receive_payment env caller amount false (some developer) token seq s ≡ (ok tt, s')
    → (liabilities token s' ≡ liabilities token s +ℤ amount)
      × ((t : Address) → t ≢ token → liabilities t s' ≡ liabilities t s)
receive_payment-liabilities env caller amount developer token seq s s' sound h =
    let c = receive_payment-IsCredited env caller amount developer token seq s s' h in
    credit-liabilities developer token amount s s' sound.ordered sound.indexed c.indexed c.credited
      c.others

-- In a sound store, a withdrawal that returns, under the token standard, lowers what the developers
-- hold together in the configured token by exactly its amount, so that what the contract holds of it
-- beyond that stays the same; it leaves what they hold in every other token.
pub withdraw-liabilities :
    (transfer : Transfer) (env : Env) (developer : Address) (amount : ℤ) (to : Option Address)
    (s s' : Store)
    → IsToken transfer
    → IsSound env.contract s
    → withdraw_developer_balance transfer env developer amount to s ≡ (ok tt, s')
    → (usdc : Address) × (s.usdc ≡ some usdc)
      × (liabilities usdc s' ≡ liabilities usdc s -ℤ amount)
      × (s'.ledger usdc env.contract -ℤ liabilities usdc s'
          ≡ s.ledger usdc env.contract -ℤ liabilities usdc s)
      × ((t : Address) → t ≢ usdc → liabilities t s' ≡ liabilities t s)
withdraw-liabilities transfer env developer amount to s s' standard sound h =
    let (usdc, asked, covered, w) = withdraw_effect transfer env developer amount to s s' h in
    let there : contains developer (index_of s) ≡ true =
      elim (Bool-cases (contains developer (index_of s))) [
        | inl e ↦ e
        | inr e ↦ absurd (
            owes_something (balance_of s developer usdc) amount asked.positive covered.balance
              (sound.indexed developer usdc e))
      ] in
    let index : index_of s' ≡ index_of s = ap (get_or []) w.index in
    let debit : liabilities usdc s' ≡ liabilities usdc s -ℤ amount =
      ap (sum_over (λ d. balance_of s' d usdc)) index
      ∙ sum_over-change (λ d. balance_of s d usdc) (λ d. balance_of s' d usdc) (index_of s)
          developer (pos 0 -ℤ amount) sound.ordered there
          (w.debited ∙ minus (balance_of s developer usdc) amount)
          (λ d other. w.others d usdc (inl other))
      ∙ sym (minus (liabilities usdc s) amount) in
    let (gone, _, _) =
      standard.moves s.ledger s'.ledger usdc env.contract (get_or developer to) amount
        (λ e. asked.recipient (sym e)) w.transferred in
    (
      usdc,
      asked.configured,
      debit,
      rw (gone, debit) (omega int_laws),
      λ t other.
          ap (sum_over (λ d. balance_of s' d t)) index
          ∙ sum_over-eq (λ d. balance_of s d t) (λ d. balance_of s' d t) (index_of s)
              (λ d. w.others d t (inr other)),
    )
