-- ===== src/Checkpoint/Records.antt =====
-- The checkpoints: how they are made and how they are read.
use callora_contracts.Prelude.{
  ℕ, ◌+◌, ◌-◌, Option, none, some, get_or, List, [], ◌∷◌, length, ltb, put, ◌^◌, zero, suc, ◌==◌,
  if◌then◌else◌,
}
use callora_contracts.Prelude.Int.{ℤ, pos, ltb_ℤ, checked_add_u64}
use callora_contracts.Host.{Address, Env, ◌>>=◌, ◌>>◌, pure, gets, modify, fail_if, or_fail}
use callora_contracts.Checkpoint.Types.{
  CheckpointRecord, Event, Store, Call, Item, Symbol, max_batch_size, max_page_size,
}
use callora_contracts.Checkpoint.Types.CheckpointError.{
  batch_empty, batch_too_large, checkpoint_not_found, amount_negative, invalid_page_size, overflow,
}
use callora_contracts.Checkpoint.Access.{publish, require_admin}
use Prim.Native.Nat.{min}

abbrev pub next_checkpoint_id : Call ℕ
next_checkpoint_id = do
  current ← gets (λ s. get_or 0 s.next_checkpoint_id)
  next ← or_fail overflow (checked_add_u64 current 1)
  modify λ s. record s { next_checkpoint_id = some next; checkpoint_count = some next }
  pure next

-- The writing that a single checkpoint and a row of a batch have in common.
unfoldable pub write_checkpoint : ℕ → Item → Call ℕ
write_checkpoint timestamp (subject, token, balance, metadata) = do
  id ← next_checkpoint_id
  let r : CheckpointRecord = record {
    id = id;
    subject = subject;
    token = token;
    balance = balance;
    timestamp = timestamp;
    metadata = metadata;
  }
  modify λ s. record s { checkpoint = put id r s.checkpoint }
  publish (Event.checkpoint_created subject r)
  pure id

unfoldable pub create_checkpoint : Env → Address → Address → Address → ℤ → Symbol → Call ℕ
unfolding require_admin write_checkpoint
create_checkpoint env caller subject token balance metadata = do
  require_admin env caller
  fail_if (ltb_ℤ balance (pos 0)) amount_negative
  write_checkpoint env.timestamp (subject, token, balance, metadata)

-- "Validate all items before touching state."
unfoldable pub check_balances : List Item → Call (Unit {0})
check_balances [] = pure tt
check_balances ((_, _, balance, _) ∷ rest) = do
  fail_if (ltb_ℤ balance (pos 0)) amount_negative
  check_balances rest

unfoldable pub write_all : ℕ → List Item → Call (List ℕ)
unfolding write_checkpoint
write_all timestamp [] = pure []
write_all timestamp (item ∷ rest) = do
  id ← write_checkpoint timestamp item
  ids ← write_all timestamp rest
  pure (id ∷ ids)

unfoldable pub batch_create_checkpoints : Env → Address → List Item → Call (List ℕ)
unfolding require_admin check_balances write_all
batch_create_checkpoints env caller items = do
  require_admin env caller
  let n = length items
  fail_if (n == 0) batch_empty
  fail_if (ltb max_batch_size n) batch_too_large
  check_balances items
  write_all env.timestamp items

unfoldable pub get_checkpoint : ℕ → Call CheckpointRecord
get_checkpoint id = do found ← gets (λ s. s.checkpoint id); or_fail checkpoint_not_found found

abbrev pub get_checkpoint_count : Store → ℕ
get_checkpoint_count s = get_or 0 s.checkpoint_count

abbrev pub get_latest_checkpoint_id : Store → ℕ
get_latest_checkpoint_id s = get_or 0 s.next_checkpoint_id

unfoldable pub get_latest_checkpoint : Store → Option CheckpointRecord
get_latest_checkpoint s =
    let latest_id = get_latest_checkpoint_id s in
    if latest_id == 0 then none else s.checkpoint latest_id

-- The records under `count` identifiers from `id` on, those that are there.
unfoldable pub collect : (ℕ → Option CheckpointRecord) → ℕ → ℕ → List CheckpointRecord
collect at id zero = []
collect at id (suc count) =
    let rest = collect at (id + 1) count in elim (at id) [ none ↦ rest | some r ↦ r ∷ rest ]

unfoldable pub get_checkpoints_range : ℕ → ℕ → Call (List CheckpointRecord)
unfolding collect
get_checkpoints_range start_id limit = do
  fail_if (limit == 0) invalid_page_size
  let effective_limit = min limit max_page_size
  count ← gets get_checkpoint_count
  s ← gets (λ s. s)
  (if ltb count start_id then pure [] else (do
    sum ← or_fail overflow (checked_add_u64 start_id effective_limit)
    let end_id = min sum (min (count + 1) (2 ^ 64 - 1))
    pure (collect s.checkpoint start_id (end_id - start_id))))
