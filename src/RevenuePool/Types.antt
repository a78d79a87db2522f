-- ===== src/RevenuePool/Types.antt =====
-- The data of the revenue pool: the types of lib.rs, and emergency.rs.
use callora_contracts.Prelude.{ℕ, Bool, Option, List}
use callora_contracts.Prelude.Int.{ℤ, i128_max}
use callora_contracts.Host.{Address, Hash, Ledger, Op}

pub data RevenuePoolError : Type 0 where
  batch_empty batch_too_large : RevenuePoolError

abbrev pub default_max_distribute : ℤ
default_max_distribute = i128_max

abbrev pub max_batch_size : ℕ
max_batch_size = 50

abbrev pub max_message_len : ℕ
max_message_len = 256

abbrev pub emergency_drain_timelock_seconds : ℕ
emergency_drain_timelock_seconds = 86400

pub data Severity : Type 0 where
  info warn crit : Severity

-- The bytes of a message.
abbrev pub Message : Type 0
Message = List ℕ

pub record PendingEmergencyDrain : Type 0 where
  pub to : Address
  pub amount : ℤ
  pub proposed_at : ℕ
  pub execute_after : ℕ

-- A published event: the topics behind its name, then its payload.
pub data Event : Type 0 where
  init : Address → Address → Event
  admin_changed : Address → Address → Address → Event
  admin_transfer_started : Address → Address → Event
  admin_transfer_completed : Address → Event
  admin_cancelled : Address → Address → Event
  pause_guardian_set pause_guardian_cleared : Address → Address → Event
  pause_set : Address → Bool → Event
  receive_payment : Address → ℤ → Bool → Event
  yield_deposited : Address → (amount : ℤ) → (source : ℕ) → (total : ℤ) → Event
  set_max_distribute : Address → ℤ → ℤ → Event
  distribute batch_distribute : Address → ℤ → Event
  upgraded : Address → Hash → Event
  admin_broadcast : Address → Severity → Message → Event
  emergency_drain_proposed emergency_drain_cancelled : Address → PendingEmergencyDrain → Event
  emergency_drain_executed : Address → Address → ℤ → (proposed_at executed_at : ℕ) → Event

-- `ledger` is the state of the token contracts and `code` the installed WASM; `events` holds what was
-- published, the newest first.
pub record Store : Type 0 where
  pub admin : Option Address
  pub usdc : Option Address
  pub paused : Option Bool
  pub pending_admin : Option Address
  pub pause_guardian : Option Address
  pub max_distribute : Option ℤ
  pub cumulative_yield : Option ℤ
  pub version : Option Hash
  pub emergency_drain : Option PendingEmergencyDrain
  pub ledger : Ledger
  pub code : Option Hash
  pub events : List Event

abbrev pub Call : Type 0 → Type 0
Call A = Op Store RevenuePoolError A
