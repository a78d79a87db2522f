-- ===== src/Topics/Settlement.antt =====
-- The event topics of contracts/settlement/src/events.rs, and the one that migrate.rs writes out.
use callora_contracts.Prelude.{String, Option, some, none, ◌≡◌, refl, true, if◌then◌else◌}
use text.Mathlib.Text.{◌==◌}
use callora_contracts.Topics.Symbols.{is_symbol, IsTopics, decoded-IsTopics}

data Topic : Type 0 where
  event_payment_received event_balance_credited event_developer_withdraw : Topic
  event_daily_withdraw_cap_changed event_developer_claim_window_changed event_admin_nominated :
      Topic
  event_admin_accepted event_admin_cancelled event_vault_proposed : Topic
  event_vault_accepted event_upgraded event_developer_force_credited : Topic
  event_admin_broadcast event_admin_migration_proposed event_admin_migration : Topic
  event_deposit event_developer_min_balance_changed mig_v1_v2_done : Topic

-- The text that `Symbol::new` is given.
abbrev name : Topic → String
name event_payment_received = "payment_received"
name event_balance_credited = "balance_credited"
name event_developer_withdraw = "developer_withdraw"
name event_daily_withdraw_cap_changed = "daily_withdraw_cap_changed"
name event_developer_claim_window_changed = "claim_window_changed"
name event_admin_nominated = "admin_nominated"
name event_admin_accepted = "admin_accepted"
name event_admin_cancelled = "admin_cancelled"
name event_vault_proposed = "vault_proposed"
name event_vault_accepted = "vault_accepted"
name event_upgraded = "upgraded"
name event_developer_force_credited = "developer_force_credited"
name event_admin_broadcast = "admin_broadcast"
name event_admin_migration_proposed = "admin_migration_proposed"
name event_admin_migration = "admin_migration"
name event_deposit = "deposit"
name event_developer_min_balance_changed = "developer_min_balance_changed"
name mig_v1_v2_done = "mig_v1_v2_done"

-- The topic of a text.
abbrev topic_of : String → Option Topic
topic_of text =
    if text == "payment_received"
    then some event_payment_received
    else if text == "balance_credited"
    then some event_balance_credited
    else if text == "developer_withdraw"
    then some event_developer_withdraw
    else if text == "daily_withdraw_cap_changed"
    then some event_daily_withdraw_cap_changed
    else if text == "claim_window_changed"
    then some event_developer_claim_window_changed
    else if text == "admin_nominated"
    then some event_admin_nominated
    else if text == "admin_accepted"
    then some event_admin_accepted
    else if text == "admin_cancelled"
    then some event_admin_cancelled
    else if text == "vault_proposed"
    then some event_vault_proposed
    else if text == "vault_accepted"
    then some event_vault_accepted
    else if text == "upgraded"
    then some event_upgraded
    else if text == "developer_force_credited"
    then some event_developer_force_credited
    else if text == "admin_broadcast"
    then some event_admin_broadcast
    else if text == "admin_migration_proposed"
    then some event_admin_migration_proposed
    else if text == "admin_migration"
    then some event_admin_migration
    else if text == "deposit"
    then some event_deposit
    else if text == "developer_min_balance_changed"
    then some event_developer_min_balance_changed
    else if text == "mig_v1_v2_done"
    then some mig_v1_v2_done
    else none

name-topic_of : (t : Topic) → topic_of (name t) ≡ some t
name-topic_of event_payment_received = refl
name-topic_of event_balance_credited = refl
name-topic_of event_developer_withdraw = refl
name-topic_of event_daily_withdraw_cap_changed = refl
name-topic_of event_developer_claim_window_changed = refl
name-topic_of event_admin_nominated = refl
name-topic_of event_admin_accepted = refl
name-topic_of event_admin_cancelled = refl
name-topic_of event_vault_proposed = refl
name-topic_of event_vault_accepted = refl
name-topic_of event_upgraded = refl
name-topic_of event_developer_force_credited = refl
name-topic_of event_admin_broadcast = refl
name-topic_of event_admin_migration_proposed = refl
name-topic_of event_admin_migration = refl
name-topic_of event_deposit = refl
name-topic_of event_developer_min_balance_changed = refl
name-topic_of mig_v1_v2_done = refl

name-is_symbol : (t : Topic) → is_symbol (name t) ≡ true
name-is_symbol event_payment_received = refl
name-is_symbol event_balance_credited = refl
name-is_symbol event_developer_withdraw = refl
name-is_symbol event_daily_withdraw_cap_changed = refl
name-is_symbol event_developer_claim_window_changed = refl
name-is_symbol event_admin_nominated = refl
name-is_symbol event_admin_accepted = refl
name-is_symbol event_admin_cancelled = refl
name-is_symbol event_vault_proposed = refl
name-is_symbol event_vault_accepted = refl
name-is_symbol event_upgraded = refl
name-is_symbol event_developer_force_credited = refl
name-is_symbol event_admin_broadcast = refl
name-is_symbol event_admin_migration_proposed = refl
name-is_symbol event_admin_migration = refl
name-is_symbol event_deposit = refl
name-is_symbol event_developer_min_balance_changed = refl
name-is_symbol mig_v1_v2_done = refl

-- Each text is one that a `Symbol` can hold, and different events have different topics.
name-IsTopics : IsTopics name
name-IsTopics = decoded-IsTopics name topic_of name-topic_of name-is_symbol
