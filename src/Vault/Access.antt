-- ===== src/Vault/Access.antt =====
-- The owner's and the admin's operations of the vault, but for the timelocked ones.
use callora_contracts.Prelude.{
  ℕ, Bool, true, false, Option, none, some, get_or, List, [], ◌∷◌, ◌==◌, not, is_some, put, remove,
  if◌then◌else◌,
}
use callora_contracts.Prelude.Int.{ℤ, pos, leb_ℤ, ltb_ℤ, i128_max}
use callora_contracts.Host.{
  Address, Env, ◌>>=◌, ◌>>◌, pure, gets, modify, abort_if, fail_if, or_abort, or_fail, require_auth,
}
use callora_contracts.Host.Fault.{message, unwrap_none}
use callora_contracts.Vault.Types.{Event, Store, Call}
use callora_contracts.Vault.Types.VaultError.{
  not_initialized, unauthorized, amount_not_positive, no_admin_transfer_pending,
}

-- `env.events().publish`
abbrev pub publish : Event → Call (Unit {0})
publish e = modify λ s. record s { events = e ∷ s.events }

-- `.unwrap()` of a stored entry
abbrev pub stored : {A : Type 0} → (Store → Option A) → Call A
stored f = do entry ← gets f; or_abort unwrap_none entry

abbrev pub is_paused : Store → Bool
is_paused s = get_or false s.paused

unfoldable pub init :
    Address → Address → ℤ → Address → ℤ → Option Address → ℤ → Address → Call (Unit {0})
init owner usdc_token initial_balance authorized_caller min_deposit revenue_pool max_deduct
      settlement =
    do
      has ← gets (λ s. is_some s.owner)
      abort_if has (message "Already initialized")
      abort_if (leb_ℤ min_deposit (pos 0)) (message "min_deposit must be positive")
      abort_if (leb_ℤ max_deduct (pos 0)) (message "max_deduct must be positive")
      abort_if (ltb_ℤ max_deduct min_deposit) (message "min_deposit cannot exceed max_deduct")
      modify λ s. record s {
        owner = some owner;
        usdc_token = some usdc_token;
        balance = some initial_balance;
        authorized_caller = some authorized_caller;
        min_deposit = some min_deposit;
        revenue_pool = if is_some revenue_pool then revenue_pool else s.revenue_pool;
        max_deduct = some max_deduct;
        settlement = some settlement;
        paused = some false;
        admin = some owner;
      }

-- The owner's test of the setters, which panic.
abbrev pub check_owner : Env → Address → Call (Unit {0})
check_owner env caller = do
  require_auth env caller
  owner ← stored (λ s. s.owner)
  abort_if (not (caller == owner)) (message "Not owner")

-- `require_owner`, which returns `Err`.
abbrev pub require_owner : Address → Call (Unit {0})
require_owner caller = do
  owner ← stored (λ s. s.owner)
  fail_if (not (caller == owner)) unauthorized

-- The caller becomes the authorised caller.
unfoldable pub set_authorized_caller : Env → Address → Call (Unit {0})
set_authorized_caller env caller = do
  check_owner env caller
  modify λ s. record s { authorized_caller = some caller }

unfoldable pub pause : Env → Address → Call (Unit {0})
pause env caller = do check_owner env caller; modify λ s. record s { paused = some true }

unfoldable pub unpause : Env → Address → Call (Unit {0})
unpause env caller = do check_owner env caller; modify λ s. record s { paused = some false }

unfoldable pub set_max_deduct : Env → Address → ℤ → Call (Unit {0})
set_max_deduct env caller max_deduct = do
  check_owner env caller
  abort_if (leb_ℤ max_deduct (pos 0)) (message "max_deduct must be positive")
  modify λ s. record s { max_deduct = some max_deduct }

unfoldable pub set_settlement : Env → Address → Address → Call (Unit {0})
set_settlement env caller settlement = do
  check_owner env caller
  modify λ s. record s { settlement = some settlement }

abbrev pub get_admin : Call Address
get_admin = do admin ← gets (λ s. s.admin); or_fail not_initialized admin

unfoldable pub require_admin : Env → Address → Call (Unit {0})
require_admin env caller = do
  require_auth env caller
  admin ← get_admin
  fail_if (not (caller == admin)) unauthorized

unfoldable pub set_admin : Env → Address → Address → Call (Unit {0})
unfolding require_admin
set_admin env caller new_admin = do
  require_admin env caller
  modify λ s. record s { pending_admin = some new_admin }

unfoldable pub accept_admin : Env → Call (Unit {0})
accept_admin env = do
  pending ← gets (λ s. s.pending_admin)
  new_admin ← or_fail no_admin_transfer_pending pending
  require_auth env new_admin
  modify λ s. record s { admin = some new_admin; pending_admin = none }

-- A marker that is there is removed, with an event.
unfoldable pub prune_one : Address → ℕ → Call (Unit {0})
prune_one caller id = do
  has ← gets (λ s. is_some (s.processed_request id))
  (if has
      then (modify (λ s. record s { processed_request = remove id s.processed_request })
          >> publish (Event.request_id_pruned caller id))
      else pure tt)

-- The loop over the identifiers.
unfoldable pub prune_each : Address → List ℕ → Call (Unit {0})
prune_each caller [] = pure tt
prune_each caller (id ∷ rest) = do prune_one caller id; prune_each caller rest

unfoldable pub prune_processed_requests : Env → Address → List ℕ → Call (Unit {0})
prune_processed_requests env caller ids = do
  require_auth env caller
  require_owner caller
  prune_each caller ids

unfoldable pub set_reserve_cap : Env → Address → Address → ℤ → Call (Unit {0})
set_reserve_cap env caller token cap = do
  require_auth env caller
  require_owner caller
  fail_if (leb_ℤ cap (pos 0)) amount_not_positive
  prev ← gets (λ s. s.reserve_cap token)
  modify λ s. record s { reserve_cap = put token cap s.reserve_cap }
  publish (Event.reserve_cap_set caller token prev cap)

abbrev pub get_reserve_cap : Store → Address → ℤ
get_reserve_cap s token = get_or i128_max (s.reserve_cap token)
