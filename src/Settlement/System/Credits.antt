-- ===== src/Settlement/System/Credits.antt =====
-- The entry points that bring money in keep the invariant and raise the marks.
use callora_contracts.Prelude.{
  ℕ, ◌≡◌, ◌≢◌, subst, ◌⊎◌, Bool, true, false, Option, none, some, contains, arith, List, [], ◌∷◌,
  All,
}
use callora_contracts.Prelude.Int.{ℤ, pos, ◌<ℤ◌, ◌+ℤ◌, +ℤ_parts}
use callora_contracts.Host.{Address, Hash, Env, ok, or_panic, >>=-eq-ok}
use callora_contracts.Settlement.Types.{Store}
use callora_contracts.Settlement.Index.{sorted_insert}
use callora_contracts.Settlement.Index.Order.{sorted_insert-Ascending, contains-sorted_insert}
use callora_contracts.Settlement.Payments.{
  balance_of, index_of, check_developer, check_developers, credit_item, credit_items,
  receive_payment, batch_receive_payment, force_credit_developer,
}
use callora_contracts.Settlement.Payments.Batch.{batch_loops}
use callora_contracts.Settlement.System.Sound.{IsSound, Keeps, Keeps-refl, Keeps-trans}

-- One balance has grown and its developer is in the index.
record IsCredit (d token : Address) (amount : ℤ) (s s' : Store) : Type 0 where
  added : balance_of s' d token ≡ balance_of s d token +ℤ amount
  others : (e t : Address) → (e ≢ d) ⊎ (t ≢ token) → balance_of s' e t ≡ balance_of s e t
  index : index_of s' ≡ sorted_insert d (index_of s)
  legacy : s'.developer_balance_v1 ≡ s.developer_balance_v1
  proposals : s'.pending_migration ≡ s.pending_migration

module _ (contract d token : Address) (amount : ℤ) (s s' : Store) (positive : pos 0 <ℤ amount)
    (c : IsCredit d token amount s s') where
  in_old_index :
      (e : Address) → contains e (index_of s') ≡ false → (contains e (index_of s) ≡ false) × (e ≢ d)
  in_old_index e h = ground (arith, c.index, contains-sorted_insert d e (index_of s))

  IsCredit-IsSound : IsSound contract s → IsSound contract s'
  IsCredit-IsSound h = record {
    ordered = rw (c.index) (sorted_insert-Ascending d (index_of s) h.ordered);
    nonneg = λ e t.
        grind (arith, c.added, c.others e t, h.nonneg e t, +ℤ_parts (balance_of s d token) amount);
    indexed = λ e t n. ground (arith, c.others e t, in_old_index e n, h.indexed e t);
    legacy_nonneg = λ e. ground (arith, c.legacy, h.legacy_nonneg e);
    legacy_indexed = λ e n. ground (arith, c.legacy, in_old_index e n, h.legacy_indexed e);
    proposals = λ from m e. h.proposals from m (ground (arith, c.proposals));
  }

pub receive_payment-Keeps :
    (contract : Address) (env : Env) (caller : Address) (amount : ℤ) (to_pool : Bool)
    (developer : Option Address) (token : Address) (seq : ℕ) (s s' : Store)
    → receive_payment env caller amount to_pool developer token seq s ≡ (ok tt, s')
    → Keeps contract s s'
unfolding receive_payment
receive_payment-Keeps contract env caller amount true developer token seq s s' h = record {
  sound = λ i. record {
    ordered = ground (arith, i.ordered);
    nonneg = λ e t. ground (arith, i.nonneg e t);
    indexed = λ e t n. ground (arith, i.indexed e t);
    legacy_nonneg = λ e. ground (arith, i.legacy_nonneg e);
    legacy_indexed = λ e n. ground (arith, i.legacy_indexed e);
    proposals = λ from m e. i.proposals from m (ground arith);
  };
  marks = λ d. ground arith;
  pool_mark = ground arith;
}
receive_payment-Keeps contract env caller amount false none token seq s s' h = absurd (ground arith)
receive_payment-Keeps contract env caller amount false (some d) token seq s s' h = record {
  sound = IsCredit-IsSound contract d token amount s s' (ground arith) (record {
    added = ground arith;
    others = λ e t n. ground arith;
    index = ground arith;
    legacy = ground arith;
    proposals = ground arith;
  });
  marks = λ d. ground arith;
  pool_mark = ground arith;
}

pub force_credit_developer-Keeps :
    (contract : Address) (env : Env) (caller d : Address) (amount : ℤ) (token : Address)
    (reason : Hash) (s s' : Store)
    → force_credit_developer env caller d amount token reason s ≡ (ok tt, s')
    → Keeps contract s s'
unfolding force_credit_developer
force_credit_developer-Keeps contract env caller d amount token reason s s' h = record {
  sound = IsCredit-IsSound contract d token amount s s' (ground arith) (record {
    added = ground arith;
    others = λ e t n. ground arith;
    index = ground arith;
    legacy = ground arith;
    proposals = ground arith;
  });
  marks = λ d. ground arith;
  pool_mark = ground arith;
}

check_developer-Keeps :
    (contract d : Address) (seq : ℕ) (s s' : Store)
    → or_panic (check_developer d seq) s ≡ (ok tt, s')
    → Keeps contract s s'
unfolding check_developer
check_developer-Keeps contract d seq s s' h = record {
  sound = λ i. record {
    ordered = ground (arith, i.ordered);
    nonneg = λ e t. ground (arith, i.nonneg e t);
    indexed = λ e t n. ground (arith, i.indexed e t);
    legacy_nonneg = λ e. ground (arith, i.legacy_nonneg e);
    legacy_indexed = λ e n. ground (arith, i.legacy_indexed e);
    proposals = λ from m e. i.proposals from m (ground arith);
  };
  marks = λ d. ground arith;
  pool_mark = ground arith;
}

check_developers-Keeps :
    (contract : Address) (seq : ℕ) (items : List (Address × ℤ)) (s s' : Store)
    → check_developers seq items s ≡ (ok tt, s')
    → Keeps contract s s'
unfolding check_developers
check_developers-Keeps contract seq [] s s' h =
    subst (Keeps contract s) (ground arith) (Keeps-refl contract s)
check_developers-Keeps contract seq ((d, a) ∷ items) s s' h =
    let (_, s₁, first, rest) =
      >>=-eq-ok (or_panic (check_developer d seq)) (λ _. check_developers seq items) s s' tt h in
    Keeps-trans contract s s₁ s' (check_developer-Keeps contract d seq s s₁ first)
      (check_developers-Keeps contract seq items s₁ s' rest)

credit_item-Keeps :
    (contract token d : Address) (amount : ℤ) (s s' : Store)
    → pos 0 <ℤ amount
    → credit_item token d amount s ≡ (ok tt, s')
    → Keeps contract s s'
unfolding credit_item
credit_item-Keeps contract token d amount s s' positive h = record {
  sound = IsCredit-IsSound contract d token amount s s' positive (record {
    added = ground arith;
    others = λ e t n. ground arith;
    index = ground arith;
    legacy = ground arith;
    proposals = ground arith;
  });
  marks = λ d. ground arith;
  pool_mark = ground arith;
}

credit_items-Keeps :
    (contract token : Address) (items : List (Address × ℤ)) (s s' : Store)
    → All (λ item. pos 0 <ℤ item.1) items
    → credit_items token items s ≡ (ok tt, s')
    → Keeps contract s s'
unfolding credit_items
credit_items-Keeps contract token [] s s' all h =
    subst (Keeps contract s) (ground arith) (Keeps-refl contract s)
credit_items-Keeps contract token ((d, a) ∷ items) s s' all h =
    let (_, s₁, first, rest) =
      >>=-eq-ok (credit_item token d a) (λ _. credit_items token items) s s' tt h in
    Keeps-trans contract s s₁ s' (credit_item-Keeps contract token d a s s₁ all.0 first)
      (credit_items-Keeps contract token items s₁ s' all.1 rest)

pub batch_receive_payment-Keeps :
    (contract : Address) (env : Env) (caller : Address) (items : List (Address × ℤ))
    (token : Address) (seq : ℕ) (s s' : Store)
    → batch_receive_payment env caller items token seq s ≡ (ok tt, s')
    → Keeps contract s s'
batch_receive_payment-Keeps contract env caller items token seq s s' h =
    let (s₁, s₂, same, positive, guarded, credited) =
      batch_loops env caller items token seq s s' h in
    Keeps-trans contract s s₂ s'
      (subst (λ (x : Store). Keeps contract x s₂) same
        (check_developers-Keeps contract seq items s₁ s₂ guarded))
      (credit_items-Keeps contract token items s₂ s' positive credited)
