-- ===== src/Settlement/Archive.antt =====
-- The archive of a developer's events, contracts/settlement/src/archive.rs.
pub mod Queue
pub mod Drain
use callora_contracts.Prelude.{
  ℕ, zero, suc, ◌+◌, ◌^◌, Bool, true, false, Option, none, some, get_or, List, put, put₂, leb, ltb,
  ◌==◌, ◌&&◌, if◌then◌else◌,
}
use callora_contracts.Prelude.Int.{checked_add_u64}
use callora_contracts.Host.{Address, Env, Op, ◌>>=◌, ◌>>◌, pure, gets, modify, require_auth}
use callora_contracts.Settlement.Types.{SettlementError}

-- The oldest index that is not archived, and the next one to be filled.
pub record Cursor : Type 0 where
  pub tail : ℕ
  pub head : ℕ

-- The entries that the archive keeps: a queue's bounds per developer, and the events' bytes by
-- developer and index, in persistent and in temporary storage.
pub record Store : Type 0 where
  pub cursor : Address → Option Cursor
  pub active_event : Address → ℕ → Option (List ℕ)
  pub archived_event : Address → ℕ → Option (List ℕ)

abbrev pub remove₂ {ℓ} : {V : Type ℓ} → ℕ → ℕ → (ℕ → ℕ → Option V) → ℕ → ℕ → Option V
remove₂ k l m i j = if i == k && j == l then none else m i j

-- The event at an index, if there is one, goes to the archive.
abbrev pub move_event : Address → ℕ → Option (List ℕ) → Store → Store
move_event developer index none s = s
move_event developer index (some event_data) s = record s {
  archived_event = put₂ developer index event_data s.archived_event;
  active_event = remove₂ developer index s.active_event;
}

abbrev pub checked_add_u32 : ℕ → ℕ → Option ℕ
checked_add_u32 a b = if ltb (a + b) (2 ^ 32) then some (a + b) else none

-- The cursor and the count that the loop ends with.
pub record Progress : Type 0 where
  pub reached : Cursor
  pub archived_count : ℕ

-- The loop, with the number of rounds that the batch size leaves it.
unfoldable pub archive_loop : Address → ℕ → Cursor → ℕ → Op Store SettlementError Progress
archive_loop developer zero cursor archived_count s =
    let progress : Progress = record { reached = cursor; archived_count = archived_count } in
    pure progress s
archive_loop developer (suc left) cursor archived_count s =
    let stop : Cursor → Progress = λ c. record { reached = c; archived_count = archived_count } in
    let s' : Store = move_event developer cursor.tail (s.active_event developer cursor.tail) s in
    elim (leb cursor.head cursor.tail) [
      | true ↦ pure (stop cursor) s
      | false ↦ elim (checked_add_u64 cursor.tail 1) [
        | none ↦ pure (stop cursor) s'
        | some tail ↦
            let next : Cursor = record cursor { tail = tail } in
            elim (checked_add_u32 archived_count 1) [
              | none ↦ pure (stop next) s'
              | some count ↦ archive_loop developer left next count s'
            ]
      ]
    ]

abbrev pub empty_queue : Cursor
empty_queue = record { tail = 0; head = 0 }

unfoldable pub archive_events : Env → Address → ℕ → Op Store SettlementError ℕ
archive_events env developer batch_size = do
  require_auth env developer
  known ← gets (λ s. s.cursor developer)
  progress ← archive_loop developer batch_size (get_or empty_queue known) 0
  (if progress.archived_count == 0
      then pure tt
      else modify (λ s. record s { cursor = put developer progress.reached s.cursor }))
  pure progress.archived_count
