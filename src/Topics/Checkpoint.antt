-- ===== src/Topics/Checkpoint.antt =====
-- The event topics of contracts/checkpoint/src/events.rs.
use callora_contracts.Prelude.{String, Option, some, none, ◌≡◌, refl, true, if◌then◌else◌}
use text.Mathlib.Text.{◌==◌}
use callora_contracts.Topics.Symbols.{is_symbol, IsTopics, decoded-IsTopics}

data Topic : Type 0 where
  event_init event_checkpoint_created event_admin_nominated : Topic
  event_admin_accepted event_admin_cancelled event_upgraded : Topic

-- The text that `Symbol::new` is given.
abbrev name : Topic → String
name event_init = "init"
name event_checkpoint_created = "checkpoint_created"
name event_admin_nominated = "admin_nominated"
name event_admin_accepted = "admin_accepted"
name event_admin_cancelled = "admin_cancelled"
name event_upgraded = "upgraded"

-- The topic of a text.
abbrev topic_of : String → Option Topic
topic_of text =
    if text == "init"
    then some event_init
    else if text == "checkpoint_created"
    then some event_checkpoint_created
    else if text == "admin_nominated"
    then some event_admin_nominated
    else if text == "admin_accepted"
    then some event_admin_accepted
    else if text == "admin_cancelled"
    then some event_admin_cancelled
    else if text == "upgraded"
    then some event_upgraded
    else none

name-topic_of : (t : Topic) → topic_of (name t) ≡ some t
name-topic_of event_init = refl
name-topic_of event_checkpoint_created = refl
name-topic_of event_admin_nominated = refl
name-topic_of event_admin_accepted = refl
name-topic_of event_admin_cancelled = refl
name-topic_of event_upgraded = refl

name-is_symbol : (t : Topic) → is_symbol (name t) ≡ true
name-is_symbol event_init = refl
name-is_symbol event_checkpoint_created = refl
name-is_symbol event_admin_nominated = refl
name-is_symbol event_admin_accepted = refl
name-is_symbol event_admin_cancelled = refl
name-is_symbol event_upgraded = refl

-- Each text is one that a `Symbol` can hold, and different events have different topics.
name-IsTopics : IsTopics name
name-IsTopics = decoded-IsTopics name topic_of name-topic_of name-is_symbol
