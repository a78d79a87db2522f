-- ===== src/Settlement/System/Sound.antt =====
-- The invariant of the settlement contract's store, and what every transaction keeps.
use callora_contracts.Prelude.{◌≡◌, ◌≤◌, false, none, some, get_or, contains, arith}
use callora_contracts.Prelude.Int.{pos, ◌≤ℤ◌}
use callora_contracts.Host.{Address}
use callora_contracts.Settlement.Types.{Store, PendingDeveloperMigration}
use callora_contracts.Settlement.Index.Order.{Ascending}
use callora_contracts.Settlement.Payments.{balance_of, mark_of, index_of}
use callora_contracts.Settlement.Migration.Effect.{IsProposal}

-- The developers are in ascending order, each once; no balance is negative; whoever has a balance, in
-- either layout, is in the index; and every pending migration was proposed as such.
pub record IsSound (contract : Address) (s : Store) : Type 0 where
  pub ordered : Ascending (index_of s)
  pub nonneg : (d t : Address) → pos 0 ≤ℤ balance_of s d t
  pub indexed : (d t : Address) → contains d (index_of s) ≡ false → balance_of s d t ≡ pos 0
  pub legacy_nonneg : (d : Address) → pos 0 ≤ℤ get_or (pos 0) (s.developer_balance_v1 d)
  pub legacy_indexed :
      (d : Address) → contains d (index_of s) ≡ false → s.developer_balance_v1 d ≡ none
  pub proposals :
      (from : Address) (m : PendingDeveloperMigration)
      → s.pending_migration from ≡ some m
      → IsProposal contract from m

-- What a transaction keeps: the invariant, and the marks of the replay guard, which only rise.
pub record Keeps (contract : Address) (s s' : Store) : Type 0 where
  pub sound : IsSound contract s → IsSound contract s'
  pub marks : (d : Address) → mark_of s d ≤ mark_of s' d
  pub pool_mark : get_or 0 s.pool_high_water_mark ≤ get_or 0 s'.pool_high_water_mark

pub Keeps-refl : (contract : Address) (s : Store) → Keeps contract s s
Keeps-refl contract s = record { sound = λ h. h; marks = λ d. omega arith; pool_mark = omega arith }

pub Keeps-trans :
    (contract : Address) (s t u : Store)
    → Keeps contract s t
    → Keeps contract t u
    → Keeps contract s u
Keeps-trans contract s t u h k = record {
  sound = λ i. k.sound (h.sound i);
  marks = λ d. omega (arith, h.marks d, k.marks d);
  pool_mark = omega (arith, h.pool_mark, k.pool_mark);
}

-- The fields that the invariant and the guard read are the same.
pub record IsQuiet (s s' : Store) : Type 0 where
  pub index : s'.developer_index ≡ s.developer_index
  pub balances : s'.developer_balance ≡ s.developer_balance
  pub legacy : s'.developer_balance_v1 ≡ s.developer_balance_v1
  pub proposals : s'.pending_migration ≡ s.pending_migration
  pub marks : s'.high_water_mark ≡ s.high_water_mark
  pub pool_mark : s'.pool_high_water_mark ≡ s.pool_high_water_mark

pub IsQuiet-Keeps : (contract : Address) (s s' : Store) → IsQuiet s s' → Keeps contract s s'
IsQuiet-Keeps contract s s' q = record {
  sound = λ h. record {
    ordered = rw (q.index) h.ordered;
    nonneg = λ d t. ground (arith, q.balances, h.nonneg d t);
    indexed = λ d t c. ground (arith, q.balances, q.index, h.indexed d t);
    legacy_nonneg = λ d. ground (arith, q.legacy, h.legacy_nonneg d);
    legacy_indexed = λ d c. ground (arith, q.legacy, q.index, h.legacy_indexed d);
    proposals = λ from m e. h.proposals from m (ground (arith, q.proposals));
  };
  marks = λ d. ground (arith, q.marks);
  pool_mark = ground (arith, q.pool_mark);
}
