-- ===== src/Settlement/Access.antt =====
-- Who may call: `init`, the admin and vault rotations, `set_usdc_token`, `broadcast` and `upgrade` of
-- contracts/settlement/src/lib.rs, and `require_admin` of admin.rs and migrate.rs.
use callora_contracts.Prelude.{◌==◌, not, ◌&&◌, none, some, ◌∷◌, is_some, String}
use callora_contracts.Prelude.Int.{pos}
use callora_contracts.Host.{
  Address, Hash, Env, message, with_error, ◌>>=◌, ◌>>◌, pure, gets, modify, fail_if, abort_if,
  or_abort, require_auth,
}
use callora_contracts.Settlement.Types.{
  Call, Event, GlobalPool, Severity, not_initialized, already_initialized, unauthorized,
}

abbrev pub publish : Event → Call (Unit {0})
publish e = modify λ s. record s { events = e ∷ s.events }

-- `get_admin`, `get_vault` and `get_global_pool`
abbrev pub get_admin : Call Address
get_admin = do or_abort (with_error not_initialized) (← gets (λ s. s.admin))

abbrev pub get_vault : Call Address
get_vault = do or_abort (with_error not_initialized) (← gets (λ s. s.vault))

abbrev pub get_global_pool : Call GlobalPool
get_global_pool = do or_abort (with_error not_initialized) (← gets (λ s. s.global_pool))

-- The caller has authorised the call and is the admin; otherwise the call panics.
unfoldable pub require_admin : Env → Address → Call Address
require_admin env caller = do
  require_auth env caller
  admin ← get_admin
  abort_if (not (caller == admin)) (with_error unauthorized)
  pure admin

-- The same where the entry point returns `Err` to a caller who is not the admin.
unfoldable pub require_admin_or_fail : Env → Address → Call Address
require_admin_or_fail env caller = do
  require_auth env caller
  admin ← get_admin
  fail_if (not (caller == admin)) unauthorized
  pure admin

-- `require_authorized_caller`
unfoldable pub require_authorized_caller : Address → Call (Unit {0})
require_authorized_caller caller = do
  vault ← get_vault
  admin ← get_admin
  abort_if (not (caller == vault) && not (caller == admin)) (with_error unauthorized)

unfoldable pub init : Env → Address → Address → Call (Unit {0})
init env admin vault_address = do
  require_auth env admin
  abort_if (is_some (← gets (λ s. s.admin))) (with_error already_initialized)
  abort_if (admin == vault_address)
      (message "invalid config: admin and vault_address must be distinct")
  abort_if (admin == env.contract) (message "invalid config: admin cannot be the contract itself")
  abort_if (vault_address == env.contract)
      (message "invalid config: vault_address cannot be the contract itself")
  modify λ s. record s {
    admin = some admin;
    vault = some vault_address;
    global_pool = some (record { total_balance = pos 0; last_updated = env.timestamp });
    total_received = some (pos 0);
  }

unfoldable pub set_usdc_token : Env → Address → Address → Call (Unit {0})
set_usdc_token env caller usdc_address = do
  require_auth env caller
  current_admin ← get_admin
  abort_if (not (caller == current_admin)) (message "unauthorized: caller is not admin")
  abort_if (usdc_address == env.contract)
      (message "invalid config: usdc_token cannot be the contract itself")
  modify λ s. record s { usdc = some usdc_address }

-- The two-step rotation of the admin.
unfoldable pub set_admin : Env → Address → Address → Call (Unit {0})
unfolding require_admin
set_admin env caller new_admin = do
  admin ← require_admin env caller
  modify λ s. record s { pending_admin = some new_admin }
  publish (Event.admin_nominated admin new_admin new_admin)

unfoldable pub accept_admin : Env → Call (Unit {0})
accept_admin env = do
  pending ← or_abort (message "no admin transfer pending") (← gets (λ s. s.pending_admin))
  require_auth env pending
  old_admin ← get_admin
  modify λ s. record s { admin = some pending; pending_admin = none }
  publish (Event.admin_accepted old_admin pending pending)

unfoldable pub cancel_admin_transfer : Env → Address → Call (Unit {0})
unfolding require_admin
cancel_admin_transfer env caller = do
  admin ← require_admin env caller
  abort_if (not (is_some (← gets (λ s. s.pending_admin)))) (message "no admin transfer pending")
  modify λ s. record s { pending_admin = none }
  publish (Event.admin_cancelled admin admin)

-- The two-step rotation of the vault. `set_vault` is `propose_vault`.
unfoldable pub propose_vault : Env → Address → Address → Call (Unit {0})
unfolding require_admin
propose_vault env caller new_vault = do
  admin ← require_admin env caller
  abort_if (new_vault == env.contract) (message "invalid vault: cannot be the contract itself")
  current_vault ← get_vault
  modify λ s. record s { pending_vault = some new_vault }
  publish (
      Event.vault_proposed admin
        (record { current_vault = current_vault; proposed_vault = new_vault }))

unfoldable pub accept_vault : Env → Address → Call (Unit {0})
accept_vault env caller = do
  require_auth env caller
  pending ← or_abort (message "no vault rotation pending") (← gets (λ s. s.pending_vault))
  admin ← get_admin
  abort_if (not (caller == pending) && not (caller == admin)) (with_error unauthorized)
  old_vault ← get_vault
  modify λ s. record s { vault = some pending; pending_vault = none }
  publish (
      Event.vault_accepted pending
        (record { old_vault = old_vault; new_vault = pending; accepted_by = caller }))

unfoldable pub broadcast : Env → Address → Severity → String → Call (Unit {0})
unfolding require_admin
broadcast env caller severity text = do
  admin ← require_admin env caller
  publish (Event.admin_broadcast caller severity text)

unfoldable pub upgrade : Env → Address → Hash → Call (Unit {0})
unfolding require_admin
upgrade env caller new_wasm_hash = do
  admin ← require_admin env caller
  modify λ s. record s { code = some new_wasm_hash; contract_version = some new_wasm_hash }
  publish (Event.upgraded caller new_wasm_hash)
