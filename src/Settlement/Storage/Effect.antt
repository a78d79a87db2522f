-- ===== src/Settlement/Storage/Effect.antt =====
-- The move to the V2 layout neither makes nor loses money.
use callora_contracts.Prelude.{◌≡◌, ◌≢◌, true, none, get_or, contains}
use callora_contracts.Prelude.Int.{ℤ, pos, ◌+ℤ◌}
use callora_contracts.Host.{Address}
use callora_contracts.Settlement.Types.{Store}
use callora_contracts.Settlement.Payments.{balance_of, index_of}
use callora_contracts.Settlement.Storage.{storage_version, storage_version_v2}

-- What a developer holds in both layouts.
abbrev pub holdings : Address → Store → Address → ℤ
holdings usdc s d = balance_of s d usdc +ℤ get_or (pos 0) (s.developer_balance_v1 d)

-- Nothing is made or lost, and nothing but the two layouts, the version and the events is written.
pub record IsKept (usdc : Address) (s s' : Store) : Type 0 where
  pub held : (d : Address) → holdings usdc s' d ≡ holdings usdc s d
  pub others : (d t : Address) → t ≢ usdc → balance_of s' d t ≡ balance_of s d t
  pub frame : s' ≡ record s {
    developer_balance = s'.developer_balance;
    developer_balance_v1 = s'.developer_balance_v1;
    storage_version = s'.storage_version;
    events = s'.events;
  }
  pub absent : (d : Address) → s.developer_balance_v1 d ≡ none → s'.developer_balance_v1 d ≡ none

-- The layout has been moved: nothing is lost, no developer of the index has an old entry left, and
-- the version says so.
pub record IsMigrated (usdc : Address) (s s' : Store) : Type 0 where
  pub kept : IsKept usdc s s'
  pub clear : (d : Address) → contains d (index_of s) ≡ true → s'.developer_balance_v1 d ≡ none
  pub version : storage_version s' ≡ storage_version_v2
