-- ===== src/Settlement/Payments.antt =====
-- Money that comes in: `receive_payment`, `batch_receive_payment` and `force_credit_developer` of
-- contracts/settlement/src/lib.rs, behind the replay guard of replay_guard.rs.
pub mod Credit
pub mod Replay
pub mod Loops
pub mod Batch
use callora_contracts.Prelude.{
  ℕ, ltb, leb, Bool, true, false, not, Option, none, some, List, [], ◌∷◌, length, get_or, is_some,
  put, put₂, if◌then◌else◌,
}
use callora_contracts.Prelude.Int.{ℤ, pos, leb_ℤ, checked_add}
use callora_contracts.Host.{
  Address, Hash, Env, message, with_error, ◌>>=◌, ◌>>◌, pure, gets, modify, abort, fail_if,
  or_panic, abort_if, or_abort, require_auth,
}
use callora_contracts.Settlement.Types.{
  Store, Call, Event, amount_not_positive, developer_required, developer_must_be_none,
  pool_overflow, developer_overflow, replay_detected, max_batch_size,
}
use callora_contracts.Settlement.Access.{
  publish, get_global_pool, require_admin, require_authorized_caller,
}
use callora_contracts.Settlement.Index.{sorted_insert}

-- A missing balance or mark reads as 0, a missing index as empty.
abbrev pub balance_of : Store → Address → Address → ℤ
balance_of s developer token = get_or (pos 0) (s.developer_balance developer token)

abbrev pub mark_of : Store → Address → ℕ
mark_of s developer = get_or 0 (s.high_water_mark developer)

abbrev pub index_of : Store → List Address
index_of s = get_or [] s.developer_index

-- `replay_guard::check_developer` and `check_pool`: a stale sequence number is `Err`.
unfoldable pub check_developer : Address → ℕ → Call (Unit {0})
check_developer developer ledger_seq = do
  stored ← gets (λ s. mark_of s developer)
  fail_if (leb ledger_seq stored) replay_detected
  modify λ s. record s { high_water_mark = put developer ledger_seq s.high_water_mark }

unfoldable pub check_pool : ℕ → Call (Unit {0})
check_pool ledger_seq = do
  stored ← gets (λ s. get_or 0 s.pool_high_water_mark)
  fail_if (leb ledger_seq stored) replay_detected
  modify λ s. record s { pool_high_water_mark = some ledger_seq }

-- The replay guard of `receive_payment`, which panics with the guard's error.
unfoldable pub guard_replay : Bool → Option Address → ℕ → Call (Unit {0})
unfolding check_developer check_pool
guard_replay true developer ledger_seq = or_panic (check_pool ledger_seq)
guard_replay false none ledger_seq = abort (with_error developer_required)
guard_replay false (some developer) ledger_seq = or_panic (check_developer developer ledger_seq)

-- Adds to a developer's balance and enters the developer in the index: the steps that
-- `receive_payment`, `batch_receive_payment` and `force_credit_developer` share.
unfoldable pub credit_balance : Address → Address → ℤ → Call ℤ
credit_balance developer token amount = do
  current_balance ← gets (λ s. balance_of s developer token)
  new_balance ← or_abort (with_error developer_overflow) (checked_add current_balance amount)
  modify λ s. record s {
    developer_balance = put₂ developer token new_balance s.developer_balance;
    developer_index = some (sorted_insert developer (index_of s));
  }
  pure new_balance

-- The branch `to_pool` of `receive_payment`.
unfoldable pub credit_pool : Env → Address → ℤ → Option Address → Address → Call (Unit {0})
credit_pool env caller amount developer token = do
  abort_if (is_some developer) (with_error developer_must_be_none)
  pool ← get_global_pool
  total ← or_abort (with_error pool_overflow) (checked_add pool.total_balance amount)
  modify λ s. record s {
    global_pool = some (record { total_balance = total; last_updated = env.timestamp });
  }
  publish (
      Event.payment_received caller (record {
        from_vault = caller;
        amount = amount;
        to_pool = true;
        developer = none;
        token = token;
      }))

-- The other branch.
unfoldable pub credit_developer : Address → ℤ → Option Address → Address → Call (Unit {0})
unfolding credit_balance
credit_developer caller amount developer token = do
  dev_address ← or_abort (with_error developer_required) developer
  new_balance ← credit_balance dev_address token amount
  publish (
      Event.payment_received caller (record {
        from_vault = caller;
        amount = amount;
        to_pool = false;
        developer = some dev_address;
        token = token;
      }))
  publish (
      Event.balance_credited dev_address (record {
        developer = dev_address;
        amount = amount;
        new_balance = new_balance;
        token = token;
      }))

unfoldable pub receive_payment :
    Env → Address → ℤ → Bool → Option Address → Address → ℕ → Call (Unit {0})
unfolding require_authorized_caller guard_replay credit_pool credit_developer
receive_payment env caller amount to_pool developer token ledger_seq = do
  require_auth env caller
  require_authorized_caller caller
  abort_if (leb_ℤ amount (pos 0)) (with_error amount_not_positive)
  guard_replay to_pool developer ledger_seq
  (if to_pool
      then credit_pool env caller amount developer token
      else credit_developer caller amount developer token)

-- The three loops of `batch_receive_payment`.
unfoldable pub check_amounts : List (Address × ℤ) → Call (Unit {0})
check_amounts [] = pure tt
check_amounts ((developer, amount) ∷ items) = do
  abort_if (leb_ℤ amount (pos 0)) (message "amount must be positive")
  check_amounts items

unfoldable pub check_developers : ℕ → List (Address × ℤ) → Call (Unit {0})
unfolding check_developer
check_developers ledger_seq [] = pure tt
check_developers ledger_seq ((developer, amount) ∷ items) = do
  or_panic (check_developer developer ledger_seq)
  check_developers ledger_seq items

unfoldable pub credit_item : Address → Address → ℤ → Call (Unit {0})
unfolding credit_balance
credit_item token developer amount = do
  new_balance ← credit_balance developer token amount
  publish (
      Event.balance_credited developer (record {
        developer = developer;
        amount = amount;
        new_balance = new_balance;
        token = token;
      }))

unfoldable pub credit_items : Address → List (Address × ℤ) → Call (Unit {0})
unfolding credit_item
credit_items token [] = pure tt
credit_items token ((developer, amount) ∷ items) = do
  credit_item token developer amount
  credit_items token items

unfoldable pub batch_receive_payment :
    Env → Address → List (Address × ℤ) → Address → ℕ → Call (Unit {0})
unfolding require_authorized_caller check_amounts check_developers credit_items
batch_receive_payment env caller items token ledger_seq = do
  require_auth env caller
  require_authorized_caller caller
  abort_if (not (ltb 0 (length items))) (message "batch_receive_payment requires at least one item")
  abort_if (not (leb (length items) max_batch_size)) (message "batch too large")
  check_amounts items
  check_developers ledger_seq items
  credit_items token items

unfoldable pub force_credit_developer :
    Env → Address → Address → ℤ → Address → Hash → Call (Unit {0})
unfolding require_admin credit_balance
force_credit_developer env caller developer amount token reason = do
  admin ← require_admin env caller
  abort_if (leb_ℤ amount (pos 0)) (with_error amount_not_positive)
  new_balance ← credit_balance developer token amount
  publish (
      Event.developer_force_credited developer (record {
        developer = developer;
        amount = amount;
        reason = reason;
        new_balance = new_balance;
        token = token;
      }))
