-- ===== src/Checkpoint/Types.antt =====
-- The data of the checkpoint contract: errors.rs and the types of lib.rs.
use callora_contracts.Prelude.{ℕ, Option, List}
use callora_contracts.Prelude.Int.{ℤ}
use callora_contracts.Host.{Address, Hash, Op}

pub data CheckpointError : Type 0 where
  not_initialized already_initialized unauthorized batch_empty batch_too_large : CheckpointError
  checkpoint_not_found amount_negative invalid_page_size overflow : CheckpointError

abbrev pub max_batch_size : ℕ
max_batch_size = 50

abbrev pub max_page_size : ℕ
max_page_size = 100

-- A `Symbol` is only stored.
abbrev pub Symbol : Type 0
Symbol = ℕ

pub record CheckpointRecord : Type 0 where
  pub id : ℕ
  pub subject : Address
  pub token : Address
  pub balance : ℤ
  pub timestamp : ℕ
  pub metadata : Symbol

-- A published event: the topics behind its name, then its payload.
pub data Event : Type 0 where
  init : Address → Event
  admin_nominated admin_accepted : Address → Address → Event
  admin_cancelled : Address → Address → Event
  checkpoint_created : Address → CheckpointRecord → Event
  upgraded : Address → Hash → Event

-- `code` is the installed WASM; `events` holds what was published, the newest first.
pub record Store : Type 0 where
  pub admin : Option Address
  pub pending_admin : Option Address
  pub next_checkpoint_id : Option ℕ
  pub checkpoint : ℕ → Option CheckpointRecord
  pub checkpoint_count : Option ℕ
  pub code : Option Hash
  pub events : List Event

abbrev pub Call : Type 0 → Type 0
Call A = Op Store CheckpointError A

-- A row of `batch_create_checkpoints`: subject, token, balance and metadata.
abbrev pub Item : Type 0
Item = Address × Address × ℤ × Symbol
