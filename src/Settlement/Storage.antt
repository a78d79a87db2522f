-- ===== src/Settlement/Storage.antt =====
-- The move from the V1 to the V2 storage layout: contracts/settlement/src/migrate.rs.
pub mod Effect
pub mod Range
pub mod Loop
use callora_contracts.Prelude.{
  ℕ, ◌==◌, leb, Bool, true, Option, none, some, List, [], ◌∷◌, length, get_or, put₂, remove,
  if◌then◌else◌,
}
use callora_contracts.Prelude.Int.{ℤ, checked_add, saturating_add_u32}
use callora_contracts.Host.{
  Address, Env, with_error, ◌>>=◌, ◌>>◌, pure, gets, modify, or_fail, or_abort,
}
use callora_contracts.Settlement.Types.{
  Store, Call, Event, developer_overflow, usdc_token_not_configured, max_batch_size,
}
use callora_contracts.Settlement.Access.{publish, require_admin}
use callora_contracts.Settlement.Payments.{balance_of, index_of}
use callora_contracts.Settlement.Migration.{get_usdc}
use Prim.Native.Nat.{min}

abbrev pub storage_version_v1 : ℕ
storage_version_v1 = 1

abbrev pub storage_version_v2 : ℕ
storage_version_v2 = 2

abbrev pub storage_version : Store → ℕ
storage_version s = get_or storage_version_v1 s.storage_version

-- Adds the old balance of a developer, if there is one, to the new one, and removes the old entry.
unfoldable pub move_slot : Address → Address → Option ℤ → Call (Unit {0})
move_slot addr usdc none = pure tt
move_slot addr usdc (some v1) = do
  existing ← gets (λ s. balance_of s addr usdc)
  merged ← or_abort (with_error developer_overflow) (checked_add v1 existing)
  modify λ s. record s {
    developer_balance = put₂ addr usdc merged s.developer_balance;
    developer_balance_v1 = remove addr s.developer_balance_v1;
  }

unfoldable pub migrate_developer_slot : Address → Address → Call (Unit {0})
unfolding move_slot
migrate_developer_slot addr usdc = do
  v1 ← gets (λ s. s.developer_balance_v1 addr)
  move_slot addr usdc v1

unfoldable pub migrate_slots : Address → List Address → Call (Unit {0})
unfolding migrate_developer_slot
migrate_slots usdc [] = pure tt
migrate_slots usdc (addr ∷ rest) = do migrate_developer_slot addr usdc; migrate_slots usdc rest

-- `StorageVersion` becomes 2, and the event says so.
unfoldable pub finish : Call (Unit {0})
finish = do
  modify λ s. record s { storage_version = some storage_version_v2 }
  publish (Event.mig_v1_v2_done storage_version_v2)

unfoldable pub run_migration : Call (Unit {0})
unfolding migrate_slots finish
run_migration = do usdc ← get_usdc; index ← gets index_of; migrate_slots usdc index; finish

unfoldable pub migrate_v1_to_v2 : Env → Address → Call (Unit {0})
unfolding require_admin run_migration
migrate_v1_to_v2 env caller = do
  admin ← require_admin env caller
  version ← gets storage_version
  (if leb storage_version_v2 version then pure tt else run_migration)

-- The loop of a page: entries before `offset` are passed over, and it stops at `end`.
unfoldable pub migrate_range : Address → ℕ → ℕ → ℕ → List Address → Call (Unit {0})
unfolding migrate_developer_slot
migrate_range usdc offset end i [] = pure tt
migrate_range usdc offset end i (addr ∷ rest) =
    let step : Call (Unit {0}) =
      if leb offset i then migrate_developer_slot addr usdc else pure tt in
    let more : Call (Unit {0}) =
      step >> migrate_range usdc offset end (saturating_add_u32 i 1) rest in
    if leb end i then pure tt else more

abbrev pub page_end : ℕ → ℕ → ℕ → ℕ
page_end offset batch_size total =
    let effective = if batch_size == 0 then 1 else min batch_size max_batch_size in
    min (saturating_add_u32 offset effective) total

unfoldable pub run_page : ℕ → ℕ → Call (ℕ × Bool)
unfolding migrate_range finish
run_page offset batch_size = do
  usdc ← get_usdc
  index ← gets index_of
  let end = page_end offset batch_size (length index)
  migrate_range usdc offset end 0 index
  (if leb (length index) end then finish else pure tt)
  pure (end, leb (length index) end)

unfoldable pub migrate_v1_to_v2_page : Env → Address → ℕ → ℕ → Call (ℕ × Bool)
unfolding require_admin run_page
migrate_v1_to_v2_page env caller offset batch_size = do
  admin ← require_admin env caller
  version ← gets storage_version
  (if leb storage_version_v2 version then pure (0, true) else run_page offset batch_size)

unfoldable pub migrate_single_developer : Env → Address → Address → Call (Unit {0})
unfolding require_admin migrate_developer_slot
migrate_single_developer env caller developer = do
  admin ← require_admin env caller
  usdc ← or_fail usdc_token_not_configured (← gets (λ s. s.usdc))
  migrate_developer_slot developer usdc
