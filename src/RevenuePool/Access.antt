-- ===== src/RevenuePool/Access.antt =====
-- The administration of the revenue pool: its admin, its pause guardian, pausing and upgrades.
use callora_contracts.Prelude.{
  Bool, true, false, Option, none, some, get_or, ◌∷◌, ◌==◌, ◌&&◌, not, is_some, length, ltb,
}
use callora_contracts.Host.{
  Address, Hash, Env, ◌>>=◌, ◌>>◌, gets, modify, abort_if, or_abort, require_auth,
}
use callora_contracts.Host.Fault.{message}
use callora_contracts.RevenuePool.Types.{Event, Store, Call, Severity, Message, max_message_len}

-- `env.events().publish`
abbrev pub publish : Event → Call (Unit {0})
publish e = modify λ s. record s { events = e ∷ s.events }

unfoldable pub init : Env → Address → Address → Call (Unit {0})
init env admin usdc_token = do
  has ← gets (λ s. is_some s.admin)
  abort_if has (message "revenue pool already initialized")
  abort_if (usdc_token == env.contract)
      (message "invalid config: usdc_token cannot be the contract itself")
  abort_if (usdc_token == admin) (message "invalid config: usdc_token cannot be the admin address")
  modify λ s. record s { admin = some admin; usdc = some usdc_token; paused = some false }
  publish (Event.init admin usdc_token)

-- `Self::admin`
abbrev pub get_admin : Call Address
get_admin = do admin ← gets (λ s. s.admin); or_abort (message "revenue pool not initialized") admin

abbrev pub require_admin : Address → Call (Unit {0})
require_admin caller = do
  admin ← get_admin
  abort_if (not (caller == admin)) (message "unauthorized: caller is not admin")

abbrev pub is_paused : Store → Bool
is_paused s = get_or false s.paused

abbrev pub require_not_paused : Call (Unit {0})
require_not_paused = do paused ← gets is_paused; abort_if paused (message "revenue pool is paused")

abbrev pub validate_recipient : Address → Address → Call (Unit {0})
validate_recipient recipient contract_self =
    abort_if (recipient == contract_self)
      (message "invalid recipient: cannot distribute to the contract itself")

abbrev pub get_usdc_token : Call Address
get_usdc_token = do
  usdc ← gets (λ s. s.usdc)
  or_abort (message "revenue pool not initialized") usdc

unfoldable pub set_admin : Env → Address → Address → Call (Unit {0})
set_admin env caller new_admin = do
  require_auth env caller
  current ← get_admin
  abort_if (not (caller == current)) (message "unauthorized: caller is not admin")
  modify λ s. record s { pending_admin = some new_admin }
  publish (Event.admin_changed current current new_admin)
  publish (Event.admin_transfer_started current new_admin)

unfoldable pub accept_admin : Env → Address → Call (Unit {0})
accept_admin env caller = do
  require_auth env caller
  nominee ← gets (λ s. s.pending_admin)
  pending ← or_abort (message "no pending admin") nominee
  abort_if (not (caller == pending)) (message "unauthorized: caller is not pending admin")
  modify λ s. record s { admin = some pending; pending_admin = none }
  publish (Event.admin_transfer_completed pending)

-- An older name of `accept_admin`.
abbrev pub claim_admin : Env → Address → Call (Unit {0})
claim_admin env caller = accept_admin env caller

unfoldable pub cancel_admin_transfer : Env → Address → Call (Unit {0})
cancel_admin_transfer env caller = do
  require_auth env caller
  current ← get_admin
  abort_if (not (caller == current)) (message "unauthorized: caller is not admin")
  nominee ← gets (λ s. s.pending_admin)
  pending ← or_abort (message "no admin transfer pending") nominee
  modify λ s. record s { pending_admin = none }
  publish (Event.admin_cancelled current pending)

unfoldable pub set_pause_guardian : Env → Address → Address → Call (Unit {0})
set_pause_guardian env caller guardian = do
  require_auth env caller
  require_admin caller
  modify λ s. record s { pause_guardian = some guardian }
  publish (Event.pause_guardian_set caller guardian)

unfoldable pub clear_pause_guardian : Env → Address → Call (Unit {0})
clear_pause_guardian env caller = do
  require_auth env caller
  require_admin caller
  set ← gets (λ s. s.pause_guardian)
  guardian ← or_abort (message "no pause guardian set") set
  modify λ s. record s { pause_guardian = none }
  publish (Event.pause_guardian_cleared caller guardian)

-- `guardian.as_ref() != Some(&caller)`
abbrev pub is_guardian : Option Address → Address → Bool
is_guardian none caller = false
is_guardian (some guardian) caller = guardian == caller

unfoldable pub pause : Env → Address → Call (Unit {0})
pause env caller = do
  require_auth env caller
  admin ← get_admin
  guardian ← gets (λ s. s.pause_guardian)
  abort_if (not (caller == admin) && not (is_guardian guardian caller))
      (message "unauthorized: caller is not admin or pause guardian")
  paused ← gets is_paused
  abort_if paused (message "revenue pool already paused")
  modify λ s. record s { paused = some true }
  publish (Event.pause_set caller true)

unfoldable pub unpause : Env → Address → Call (Unit {0})
unpause env caller = do
  require_auth env caller
  require_admin caller
  paused ← gets is_paused
  abort_if (not paused) (message "revenue pool not paused")
  modify λ s. record s { paused = some false }
  publish (Event.pause_set caller false)

unfoldable pub upgrade : Env → Address → Hash → Call (Unit {0})
upgrade env caller new_wasm_hash = do
  require_auth env caller
  require_admin caller
  modify λ s. record s { code = some new_wasm_hash }
  modify λ s. record s { version = some new_wasm_hash }
  admin ← get_admin
  publish (Event.upgraded admin new_wasm_hash)

unfoldable pub broadcast : Env → Address → Severity → Message → Call (Unit {0})
broadcast env caller severity text = do
  require_auth env caller
  require_admin caller
  let len = length text
  abort_if (len == 0) (message "message cannot be empty")
  abort_if (ltb max_message_len len) (message "message length exceeds maximum of 256 characters")
  publish (Event.admin_broadcast caller severity text)
