-- ===== src/Topics/Vault.antt =====
-- The event topics of contracts/vault/src/events.rs.
use callora_contracts.Prelude.{String, Option, some, none, ◌≡◌, refl, true, if◌then◌else◌}
use text.Mathlib.Text.{◌==◌}
use callora_contracts.Topics.Symbols.{is_symbol, IsTopics, decoded-IsTopics}

data Topic : Type 0 where
  event_init event_admin_nominated event_admin_accepted : Topic
  event_admin_cancelled event_set_authorized_caller event_set_max_deduct : Topic
  event_vault_paused event_vault_unpaused event_deposit : Topic
  event_deduct event_ownership_nominated event_ownership_accepted : Topic
  event_withdraw event_withdraw_to event_distribute : Topic
  event_set_revenue_pool event_clear_revenue_pool event_set_settlement : Topic
  event_metadata_set event_price_set event_price_removed : Topic
  event_metadata_updated event_metadata_removed event_upgraded : Topic
  event_upgrade_started event_upgrade_completed event_allowlist_add : Topic
  event_allowlist_clear event_revenue_pool_proposed event_revenue_pool_accepted : Topic
  event_revenue_pool_cancelled event_request_id_pruned event_admin_broadcast : Topic
  event_pause_proposed event_pause_executed event_pause_cancelled : Topic
  event_upgrade_proposed event_upgrade_executed event_upgrade_cancelled : Topic
  event_sweep_proposed event_sweep_executed event_sweep_cancelled : Topic
  event_timelock_window_changed event_rescue_funds event_reserve_cap_set : Topic
  event_swept : Topic

-- The text that `Symbol::new` is given.
abbrev name : Topic → String
name event_init = "init"
name event_admin_nominated = "admin_nominated"
name event_admin_accepted = "admin_accepted"
name event_admin_cancelled = "admin_cancelled"
name event_set_authorized_caller = "set_authorized_caller"
name event_set_max_deduct = "set_max_deduct"
name event_vault_paused = "vault_paused"
name event_vault_unpaused = "vault_unpaused"
name event_deposit = "deposit"
name event_deduct = "deduct"
name event_ownership_nominated = "ownership_nominated"
name event_ownership_accepted = "ownership_accepted"
name event_withdraw = "withdraw"
name event_withdraw_to = "withdraw_to"
name event_distribute = "distribute"
name event_set_revenue_pool = "set_revenue_pool"
name event_clear_revenue_pool = "clear_revenue_pool"
name event_set_settlement = "set_settlement"
name event_metadata_set = "metadata_set"
name event_price_set = "price_set"
name event_price_removed = "price_removed"
name event_metadata_updated = "metadata_updated"
name event_metadata_removed = "metadata_removed"
name event_upgraded = "upgraded"
name event_upgrade_started = "upgrade_started"
name event_upgrade_completed = "upgrade_completed"
name event_allowlist_add = "allowlist_add"
name event_allowlist_clear = "allowlist_clear"
name event_revenue_pool_proposed = "revenue_pool_proposed"
name event_revenue_pool_accepted = "revenue_pool_accepted"
name event_revenue_pool_cancelled = "revenue_pool_cancelled"
name event_request_id_pruned = "request_id_pruned"
name event_admin_broadcast = "admin_broadcast"
name event_pause_proposed = "pause_proposed"
name event_pause_executed = "pause_executed"
name event_pause_cancelled = "pause_cancelled"
name event_upgrade_proposed = "upgrade_proposed"
name event_upgrade_executed = "upgrade_executed"
name event_upgrade_cancelled = "upgrade_cancelled"
name event_sweep_proposed = "sweep_proposed"
name event_sweep_executed = "sweep_executed"
name event_sweep_cancelled = "sweep_cancelled"
name event_timelock_window_changed = "tl_window_changed"
name event_rescue_funds = "rescue_funds"
name event_reserve_cap_set = "reserve_cap_set"
name event_swept = "swept"

-- The topic of a text.
abbrev topic_of : String → Option Topic
topic_of text =
    if text == "init"
    then some event_init
    else if text == "admin_nominated"
    then some event_admin_nominated
    else if text == "admin_accepted"
    then some event_admin_accepted
    else if text == "admin_cancelled"
    then some event_admin_cancelled
    else if text == "set_authorized_caller"
    then some event_set_authorized_caller
    else if text == "set_max_deduct"
    then some event_set_max_deduct
    else if text == "vault_paused"
    then some event_vault_paused
    else if text == "vault_unpaused"
    then some event_vault_unpaused
    else if text == "deposit"
    then some event_deposit
    else if text == "deduct"
    then some event_deduct
    else if text == "ownership_nominated"
    then some event_ownership_nominated
    else if text == "ownership_accepted"
    then some event_ownership_accepted
    else if text == "withdraw"
    then some event_withdraw
    else if text == "withdraw_to"
    then some event_withdraw_to
    else if text == "distribute"
    then some event_distribute
    else if text == "set_revenue_pool"
    then some event_set_revenue_pool
    else if text == "clear_revenue_pool"
    then some event_clear_revenue_pool
    else if text == "set_settlement"
    then some event_set_settlement
    else if text == "metadata_set"
    then some event_metadata_set
    else if text == "price_set"
    then some event_price_set
    else if text == "price_removed"
    then some event_price_removed
    else if text == "metadata_updated"
    then some event_metadata_updated
    else if text == "metadata_removed"
    then some event_metadata_removed
    else if text == "upgraded"
    then some event_upgraded
    else if text == "upgrade_started"
    then some event_upgrade_started
    else if text == "upgrade_completed"
    then some event_upgrade_completed
    else if text == "allowlist_add"
    then some event_allowlist_add
    else if text == "allowlist_clear"
    then some event_allowlist_clear
    else if text == "revenue_pool_proposed"
    then some event_revenue_pool_proposed
    else if text == "revenue_pool_accepted"
    then some event_revenue_pool_accepted
    else if text == "revenue_pool_cancelled"
    then some event_revenue_pool_cancelled
    else if text == "request_id_pruned"
    then some event_request_id_pruned
    else if text == "admin_broadcast"
    then some event_admin_broadcast
    else if text == "pause_proposed"
    then some event_pause_proposed
    else if text == "pause_executed"
    then some event_pause_executed
    else if text == "pause_cancelled"
    then some event_pause_cancelled
    else if text == "upgrade_proposed"
    then some event_upgrade_proposed
    else if text == "upgrade_executed"
    then some event_upgrade_executed
    else if text == "upgrade_cancelled"
    then some event_upgrade_cancelled
    else if text == "sweep_proposed"
    then some event_sweep_proposed
    else if text == "sweep_executed"
    then some event_sweep_executed
    else if text == "sweep_cancelled"
    then some event_sweep_cancelled
    else if text == "tl_window_changed"
    then some event_timelock_window_changed
    else if text == "rescue_funds"
    then some event_rescue_funds
    else if text == "reserve_cap_set"
    then some event_reserve_cap_set
    else if text == "swept"
    then some event_swept
    else none

name-topic_of : (t : Topic) → topic_of (name t) ≡ some t
name-topic_of event_init = refl
name-topic_of event_admin_nominated = refl
name-topic_of event_admin_accepted = refl
name-topic_of event_admin_cancelled = refl
name-topic_of event_set_authorized_caller = refl
name-topic_of event_set_max_deduct = refl
name-topic_of event_vault_paused = refl
name-topic_of event_vault_unpaused = refl
name-topic_of event_deposit = refl
name-topic_of event_deduct = refl
name-topic_of event_ownership_nominated = refl
name-topic_of event_ownership_accepted = refl
name-topic_of event_withdraw = refl
name-topic_of event_withdraw_to = refl
name-topic_of event_distribute = refl
name-topic_of event_set_revenue_pool = refl
name-topic_of event_clear_revenue_pool = refl
name-topic_of event_set_settlement = refl
name-topic_of event_metadata_set = refl
name-topic_of event_price_set = refl
name-topic_of event_price_removed = refl
name-topic_of event_metadata_updated = refl
name-topic_of event_metadata_removed = refl
name-topic_of event_upgraded = refl
name-topic_of event_upgrade_started = refl
name-topic_of event_upgrade_completed = refl
name-topic_of event_allowlist_add = refl
name-topic_of event_allowlist_clear = refl
name-topic_of event_revenue_pool_proposed = refl
name-topic_of event_revenue_pool_accepted = refl
name-topic_of event_revenue_pool_cancelled = refl
name-topic_of event_request_id_pruned = refl
name-topic_of event_admin_broadcast = refl
name-topic_of event_pause_proposed = refl
name-topic_of event_pause_executed = refl
name-topic_of event_pause_cancelled = refl
name-topic_of event_upgrade_proposed = refl
name-topic_of event_upgrade_executed = refl
name-topic_of event_upgrade_cancelled = refl
name-topic_of event_sweep_proposed = refl
name-topic_of event_sweep_executed = refl
name-topic_of event_sweep_cancelled = refl
name-topic_of event_timelock_window_changed = refl
name-topic_of event_rescue_funds = refl
name-topic_of event_reserve_cap_set = refl
name-topic_of event_swept = refl

name-is_symbol : (t : Topic) → is_symbol (name t) ≡ true
name-is_symbol event_init = refl
name-is_symbol event_admin_nominated = refl
name-is_symbol event_admin_accepted = refl
name-is_symbol event_admin_cancelled = refl
name-is_symbol event_set_authorized_caller = refl
name-is_symbol event_set_max_deduct = refl
name-is_symbol event_vault_paused = refl
name-is_symbol event_vault_unpaused = refl
name-is_symbol event_deposit = refl
name-is_symbol event_deduct = refl
name-is_symbol event_ownership_nominated = refl
name-is_symbol event_ownership_accepted = refl
name-is_symbol event_withdraw = refl
name-is_symbol event_withdraw_to = refl
name-is_symbol event_distribute = refl
name-is_symbol event_set_revenue_pool = refl
name-is_symbol event_clear_revenue_pool = refl
name-is_symbol event_set_settlement = refl
name-is_symbol event_metadata_set = refl
name-is_symbol event_price_set = refl
name-is_symbol event_price_removed = refl
name-is_symbol event_metadata_updated = refl
name-is_symbol event_metadata_removed = refl
name-is_symbol event_upgraded = refl
name-is_symbol event_upgrade_started = refl
name-is_symbol event_upgrade_completed = refl
name-is_symbol event_allowlist_add = refl
name-is_symbol event_allowlist_clear = refl
name-is_symbol event_revenue_pool_proposed = refl
name-is_symbol event_revenue_pool_accepted = refl
name-is_symbol event_revenue_pool_cancelled = refl
name-is_symbol event_request_id_pruned = refl
name-is_symbol event_admin_broadcast = refl
name-is_symbol event_pause_proposed = refl
name-is_symbol event_pause_executed = refl
name-is_symbol event_pause_cancelled = refl
name-is_symbol event_upgrade_proposed = refl
name-is_symbol event_upgrade_executed = refl
name-is_symbol event_upgrade_cancelled = refl
name-is_symbol event_sweep_proposed = refl
name-is_symbol event_sweep_executed = refl
name-is_symbol event_sweep_cancelled = refl
name-is_symbol event_timelock_window_changed = refl
name-is_symbol event_rescue_funds = refl
name-is_symbol event_reserve_cap_set = refl
name-is_symbol event_swept = refl

-- Each text is one that a `Symbol` can hold, and different events have different topics.
name-IsTopics : IsTopics name
name-IsTopics = decoded-IsTopics name topic_of name-topic_of name-is_symbol
