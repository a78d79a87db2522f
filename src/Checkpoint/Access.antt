-- ===== src/Checkpoint/Access.antt =====
-- The administration of the checkpoint contract.
use callora_contracts.Prelude.{none, some, ◌∷◌, ◌==◌, not, is_some}
use callora_contracts.Host.{
  Address, Hash, Env, ◌>>=◌, ◌>>◌, gets, modify, fail_if, abort_if, or_fail, or_abort, require_auth,
}
use callora_contracts.Host.Fault.{message}
use callora_contracts.Checkpoint.Types.{Event, Call}
use callora_contracts.Checkpoint.Types.CheckpointError.{
  not_initialized, already_initialized, unauthorized,
}

-- `env.events().publish`
abbrev pub publish : Event → Call (Unit {0})
publish e = modify λ s. record s { events = e ∷ s.events }

unfoldable pub init : Env → Address → Call (Unit {0})
init env admin = do
  require_auth env admin
  has ← gets (λ s. is_some s.admin)
  fail_if has already_initialized
  modify
      λ s. record s { admin = some admin; next_checkpoint_id = some 0; checkpoint_count = some 0 }
  publish (Event.init admin)

-- `Self::admin(env)`
abbrev pub get_admin : Call Address
get_admin = do admin ← gets (λ s. s.admin); or_fail not_initialized admin

unfoldable pub require_admin : Env → Address → Call (Unit {0})
require_admin env caller = do
  require_auth env caller
  admin ← get_admin
  fail_if (not (caller == admin)) unauthorized

unfoldable pub set_admin : Env → Address → Address → Call (Unit {0})
unfolding require_admin
set_admin env caller new_admin = do
  require_admin env caller
  modify λ s. record s { pending_admin = some new_admin }
  admin ← get_admin
  publish (Event.admin_nominated admin new_admin)

unfoldable pub accept_admin : Env → Address → Call (Unit {0})
accept_admin env caller = do
  require_auth env caller
  nominee ← gets (λ s. s.pending_admin)
  pending ← or_abort (message "no admin transfer pending") nominee
  abort_if (not (caller == pending)) (message "unauthorized: caller is not pending admin")
  old_admin ← get_admin
  modify λ s. record s { admin = some pending; pending_admin = none }
  publish (Event.admin_accepted old_admin pending)

unfoldable pub cancel_admin_transfer : Env → Address → Call (Unit {0})
unfolding require_admin
cancel_admin_transfer env caller = do
  require_admin env caller
  has ← gets (λ s. is_some s.pending_admin)
  abort_if (not has) (message "no admin transfer pending")
  nominee ← gets (λ s. s.pending_admin)
  pending ← or_abort (message "no admin transfer pending") nominee
  modify λ s. record s { pending_admin = none }
  publish (Event.admin_cancelled caller pending)

unfoldable pub upgrade : Env → Address → Hash → Call (Unit {0})
unfolding require_admin
upgrade env caller new_wasm_hash = do
  require_admin env caller
  modify λ s. record s { code = some new_wasm_hash }
  admin ← get_admin
  publish (Event.upgraded admin new_wasm_hash)
