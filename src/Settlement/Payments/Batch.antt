-- ===== src/Settlement/Payments/Batch.antt =====
-- What a batch of payments changes: each developer is paid the sum of its items, or nobody is paid.
use callora_contracts.Prelude.{
  ℕ, ◌≡◌, ◌≢◌, ◌<◌, ◌≤◌, arith, List, if◌then◌else◌, length, All, contains, ◌||◌,
}
use callora_contracts.Prelude.Int.{ℤ, pos, ◌+ℤ◌, ◌<ℤ◌}
use callora_contracts.Settlement.Access.{require_authorized_caller}
use callora_contracts.Host.{◌>>◌, Address, Env, ok, >>=-eq-ok}
use callora_contracts.Prelude.{Distinct}
use callora_contracts.Host.Token.{amount_for, developers}
use callora_contracts.Settlement.Types.{Store, Call, max_batch_size}
use callora_contracts.Settlement.Payments.{
  balance_of, mark_of, index_of, check_amounts, check_developers, credit_items,
  batch_receive_payment,
}
use callora_contracts.Settlement.Payments.Loops.{check_amounts_lem}

-- A batch that returns names each developer once, under a sequence number that is fresh for all of
-- them, has positive amounts, and pays to each developer exactly what the items say. It writes
-- nothing but the balances, the index, the marks and the events.
pub record IsPaid (token : Address) (seq : ℕ) (items : List (Address × ℤ)) (s s' : Store)
    : Type 0 where
  pub size : (0 < length items) × (length items ≤ max_batch_size)
  pub positive : All (λ item. pos 0 <ℤ item.1) items
  pub distinct : Distinct (developers items)
  pub fresh : All (λ d. mark_of s d < seq) (developers items)
  pub paid : (d : Address) → balance_of s' d token ≡ balance_of s d token +ℤ amount_for d items
  pub others : (d t : Address) → t ≢ token → balance_of s' d t ≡ balance_of s d t
  pub marks :
      (d : Address) → mark_of s' d ≡ (if contains d (developers items) then seq else mark_of s d)
  pub entered :
      (d : Address)
      → contains d (index_of s') ≡ (contains d (developers items) || contains d (index_of s))
  pub frame : s' ≡ record s {
    developer_balance = s'.developer_balance;
    developer_index = s'.developer_index;
    high_water_mark = s'.high_water_mark;
    events = s'.events;
  }

-- The loops of the batch, behind its guards.
abbrev loops : Address → ℕ → List (Address × ℤ) → Call (Unit {0})
loops token seq items = do check_amounts items; check_developers seq items; credit_items token items

batch_guards :
    (env : Env) (caller : Address) (items : List (Address × ℤ)) (token : Address) (seq : ℕ)
    (s s' : Store)
    → batch_receive_payment env caller items token seq s ≡ (ok tt, s')
    → (loops token seq items s ≡ (ok tt, s')) × (0 < length items) × (length items ≤ max_batch_size)
unfolding batch_receive_payment require_authorized_caller
batch_guards env caller items token seq s s' h = ground arith

-- The loops of a batch that returns, one after the other.
pub batch_loops :
    (env : Env) (caller : Address) (items : List (Address × ℤ)) (token : Address) (seq : ℕ)
    (s s' : Store)
    → batch_receive_payment env caller items token seq s ≡ (ok tt, s')
    → (s₁ : Store) × (s₂ : Store) × (s₁ ≡ s)
      × All (λ item. pos 0 <ℤ item.1) items
      × (check_developers seq items s₁ ≡ (ok tt, s₂))
      × (credit_items token items s₂ ≡ (ok tt, s'))
batch_loops env caller items token seq s s' h =
    let (looped, some_item, bounded) = batch_guards env caller items token seq s s' h in
    let (_, s₁, amounts, checks) =
      >>=-eq-ok (check_amounts items) (λ _. check_developers seq items >> credit_items token items)
        s s' tt looped in
    let (_, s₂, guarded, credited) =
      >>=-eq-ok (check_developers seq items) (λ _. credit_items token items) s₁ s' tt checks in
    let (same, positive) = check_amounts_lem items s s₁ amounts in
    (s₁, s₂, same, positive, guarded, credited)
