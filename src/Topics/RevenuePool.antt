-- ===== src/Topics/RevenuePool.antt =====
-- The event topics of contracts/revenue_pool/src/events.rs.
use callora_contracts.Prelude.{String, Option, some, none, ◌≡◌, refl, true, if◌then◌else◌}
use text.Mathlib.Text.{◌==◌}
use callora_contracts.Topics.Symbols.{is_symbol, IsTopics, decoded-IsTopics}

data Topic : Type 0 where
  event_init event_admin_changed event_admin_transfer_started : Topic
  event_admin_transfer_completed event_admin_cancelled event_pause_guardian_set : Topic
  event_pause_guardian_cleared event_pause_set event_receive_payment : Topic
  event_yield_deposited event_treasury_transfer_started event_treasury_transfer_completed : Topic
  event_treasury_cancelled event_set_max_distribute event_distribute : Topic
  event_batch_distribute event_upgraded event_admin_broadcast : Topic
  event_emergency_drain_proposed event_emergency_drain_executed event_emergency_drain_cancelled :
      Topic

-- The text that `Symbol::new` is given.
abbrev name : Topic → String
name event_init = "init"
name event_admin_changed = "admin_changed"
name event_admin_transfer_started = "admin_transfer_started"
name event_admin_transfer_completed = "admin_transfer_completed"
name event_admin_cancelled = "admin_cancelled"
name event_pause_guardian_set = "pause_guardian_set"
name event_pause_guardian_cleared = "pause_guardian_cleared"
name event_pause_set = "pause_set"
name event_receive_payment = "receive_payment"
name event_yield_deposited = "yield_deposited"
name event_treasury_transfer_started = "treasury_transfer_started"
name event_treasury_transfer_completed = "treasury_transfer_completed"
name event_treasury_cancelled = "treasury_cancelled"
name event_set_max_distribute = "set_max_distribute"
name event_distribute = "distribute"
name event_batch_distribute = "batch_distribute"
name event_upgraded = "upgraded"
name event_admin_broadcast = "admin_broadcast"
name event_emergency_drain_proposed = "emergency_drain_proposed"
name event_emergency_drain_executed = "emergency_drain_executed"
name event_emergency_drain_cancelled = "emergency_drain_cancelled"

-- The topic of a text.
abbrev topic_of : String → Option Topic
topic_of text =
    if text == "init"
    then some event_init
    else if text == "admin_changed"
    then some event_admin_changed
    else if text == "admin_transfer_started"
    then some event_admin_transfer_started
    else if text == "admin_transfer_completed"
    then some event_admin_transfer_completed
    else if text == "admin_cancelled"
    then some event_admin_cancelled
    else if text == "pause_guardian_set"
    then some event_pause_guardian_set
    else if text == "pause_guardian_cleared"
    then some event_pause_guardian_cleared
    else if text == "pause_set"
    then some event_pause_set
    else if text == "receive_payment"
    then some event_receive_payment
    else if text == "yield_deposited"
    then some event_yield_deposited
    else if text == "treasury_transfer_started"
    then some event_treasury_transfer_started
    else if text == "treasury_transfer_completed"
    then some event_treasury_transfer_completed
    else if text == "treasury_cancelled"
    then some event_treasury_cancelled
    else if text == "set_max_distribute"
    then some event_set_max_distribute
    else if text == "distribute"
    then some event_distribute
    else if text == "batch_distribute"
    then some event_batch_distribute
    else if text == "upgraded"
    then some event_upgraded
    else if text == "admin_broadcast"
    then some event_admin_broadcast
    else if text == "emergency_drain_proposed"
    then some event_emergency_drain_proposed
    else if text == "emergency_drain_executed"
    then some event_emergency_drain_executed
    else if text == "emergency_drain_cancelled"
    then some event_emergency_drain_cancelled
    else none

name-topic_of : (t : Topic) → topic_of (name t) ≡ some t
name-topic_of event_init = refl
name-topic_of event_admin_changed = refl
name-topic_of event_admin_transfer_started = refl
name-topic_of event_admin_transfer_completed = refl
name-topic_of event_admin_cancelled = refl
name-topic_of event_pause_guardian_set = refl
name-topic_of event_pause_guardian_cleared = refl
name-topic_of event_pause_set = refl
name-topic_of event_receive_payment = refl
name-topic_of event_yield_deposited = refl
name-topic_of event_treasury_transfer_started = refl
name-topic_of event_treasury_transfer_completed = refl
name-topic_of event_treasury_cancelled = refl
name-topic_of event_set_max_distribute = refl
name-topic_of event_distribute = refl
name-topic_of event_batch_distribute = refl
name-topic_of event_upgraded = refl
name-topic_of event_admin_broadcast = refl
name-topic_of event_emergency_drain_proposed = refl
name-topic_of event_emergency_drain_executed = refl
name-topic_of event_emergency_drain_cancelled = refl

name-is_symbol : (t : Topic) → is_symbol (name t) ≡ true
name-is_symbol event_init = refl
name-is_symbol event_admin_changed = refl
name-is_symbol event_admin_transfer_started = refl
name-is_symbol event_admin_transfer_completed = refl
name-is_symbol event_admin_cancelled = refl
name-is_symbol event_pause_guardian_set = refl
name-is_symbol event_pause_guardian_cleared = refl
name-is_symbol event_pause_set = refl
name-is_symbol event_receive_payment = refl
name-is_symbol event_yield_deposited = refl
name-is_symbol event_treasury_transfer_started = refl
name-is_symbol event_treasury_transfer_completed = refl
name-is_symbol event_treasury_cancelled = refl
name-is_symbol event_set_max_distribute = refl
name-is_symbol event_distribute = refl
name-is_symbol event_batch_distribute = refl
name-is_symbol event_upgraded = refl
name-is_symbol event_admin_broadcast = refl
name-is_symbol event_emergency_drain_proposed = refl
name-is_symbol event_emergency_drain_executed = refl
name-is_symbol event_emergency_drain_cancelled = refl

-- Each text is one that a `Symbol` can hold, and different events have different topics.
name-IsTopics : IsTopics name
name-IsTopics = decoded-IsTopics name topic_of name-topic_of name-is_symbol
