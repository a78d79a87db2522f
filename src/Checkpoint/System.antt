-- ===== src/Checkpoint/System.antt =====
-- The checkpoint contract as a state machine: its entry points that write, one transaction at a time.
pub mod History
use callora_contracts.Prelude.{ℕ, List, [], ◌∷◌}
use callora_contracts.Prelude.Int.{ℤ}
use callora_contracts.Host.{Address, Hash, Env, ◌>>=◌, pure, commit}
use callora_contracts.Checkpoint.Types.{Store, Call, Item, Symbol}
use callora_contracts.Checkpoint.Access
use callora_contracts.Checkpoint.Records

pub data Request : Type 0 where
  init : Address → Request
  set_admin : Address → Address → Request
  accept_admin cancel_admin_transfer : Address → Request
  create_checkpoint : Address → Address → Address → ℤ → Symbol → Request
  batch_create_checkpoints : Address → List Item → Request
  upgrade : Address → Hash → Request

-- The entry point's value is dropped.
unfoldable pub dispatch : Env → Request → Call (Unit {0})
dispatch env (init admin) = Access.init env admin
dispatch env (set_admin caller new_admin) = Access.set_admin env caller new_admin
dispatch env (accept_admin caller) = Access.accept_admin env caller
dispatch env (cancel_admin_transfer caller) = Access.cancel_admin_transfer env caller
dispatch env (create_checkpoint caller subject token balance metadata) =
    Records.create_checkpoint env caller subject token balance metadata >>= λ _. pure tt
dispatch env (batch_create_checkpoints caller items) =
    Records.batch_create_checkpoints env caller items >>= λ _. pure tt
dispatch env (upgrade caller hash) = Access.upgrade env caller hash

unfoldable pub step : Env → Request → Store → Store
step env request s = commit (dispatch env request) s

unfoldable pub run : List (Env × Request) → Store → Store
run [] s = s
run ((env, request) ∷ rest) s = run rest (step env request s)
