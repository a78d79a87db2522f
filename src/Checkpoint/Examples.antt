-- ===== src/Checkpoint/Examples.antt =====
-- The theorems of the checkpoint contract at concrete transactions.
use callora_contracts.Prelude.{
  ◌+◌, ◌-◌, ◌≡◌, ◌≤◌, refl, true, none, some, List, [], ◌∷◌, length, map, arith, ◌==◌,
  if◌then◌else◌,
}
use callora_contracts.Prelude.Int.{negsuc, pos}
use callora_contracts.Host.{Env}
use callora_contracts.Checkpoint.Types.{
  Store, Item, CheckpointRecord, max_batch_size, max_page_size,
}
use callora_contracts.Checkpoint.Records.{
  create_checkpoint, batch_create_checkpoints, collect, get_checkpoint_count, get_checkpoints_range,
}
use callora_contracts.Checkpoint.Log.{
  IsLog, Extends, record_of, records_of, batch_create_checkpoints-Extends,
}
use callora_contracts.Checkpoint.Range.{numbers, get_checkpoints_range-numbers}
use callora_contracts.Checkpoint.System.{Request, run}
use callora_contracts.Checkpoint.System.History.{run-Extends}
use Prim.Native.Nat.{min}

abbrev env : Env
env = record { timestamp = 1000; sequence = 5; contract = 100; authorized = λ a. true }

-- Initialised by the admin 1.
abbrev ready : Store
ready = record {
  admin = some 1;
  pending_admin = none;
  next_checkpoint_id = some 0;
  checkpoint = λ id. none;
  checkpoint_count = some 0;
  code = none;
  events = [];
}

ready-IsLog : IsLog ready
ready-IsLog = record {
  counters = refl;
  recorded = λ id low high. absurd (omega (arith, low, high));
  beyond = λ id far. refl;
  nothing_at_0 = refl;
}

abbrev items : List Item
items = (7, 9, pos 20, 1) ∷ (8, 9, pos 0, 1) ∷ []

-- A batch, a record with a negative balance, and an upgrade by a stranger.
abbrev history : List (Env × Request)
history =
    (env, Request.batch_create_checkpoints 1 items)
    ∷ (env, Request.create_checkpoint 1 7 9 (negsuc 4) 2)
    ∷ (env, Request.upgrade 5 77)
    ∷ []

run-Extends_example : Extends ready (run history ready)
run-Extends_example = run-Extends history ready refl

abbrev one : Store
one = (create_checkpoint env 1 7 9 (pos 20) 3 ready).1

abbrev two : Store
two = (batch_create_checkpoints env 1 items ready).1

batch_create_checkpoints-Extends_example :
    (ready.admin ≡ some 1)
    × (1 ≤ length items)
    × (length items ≤ max_batch_size)
    × (1 ∷ 2 ∷ [] ≡ map (λ r. r.id) (records_of 1000 1 items))
    × (collect two.checkpoint 1 2 ≡ records_of 1000 1 items)
    × Extends ready two
unfolding batch_create_checkpoints
batch_create_checkpoints-Extends_example =
    batch_create_checkpoints-Extends env 1 items (1 ∷ 2 ∷ []) ready two refl

abbrev first : CheckpointRecord
first = record_of 1000 1 (7, 9, pos 20, 3)

abbrev logged : Store
logged = record ready {
  next_checkpoint_id = some 1;
  checkpoint_count = some 1;
  checkpoint = λ id. if id == 1 then some first else none;
}

logged-IsLog : IsLog logged
logged-IsLog = record {
  counters = refl;
  recorded = λ id low high. (first, ground (arith, low, high), ground (arith, low, high));
  beyond = λ id far. ground (arith, far);
  nothing_at_0 = refl;
}

get_checkpoints_range-numbers_example :
    (logged ≡ logged)
    × (1 ≤ 30)
    × (map some (first ∷ [])
        ≡ map logged.checkpoint
            (numbers 1 (min (min 30 max_page_size) (get_checkpoint_count logged + 1 - 1))))
    × (map (λ r. r.id) (first ∷ [])
        ≡ numbers 1 (min (min 30 max_page_size) (get_checkpoint_count logged + 1 - 1)))
unfolding get_checkpoints_range
get_checkpoints_range-numbers_example =
    get_checkpoints_range-numbers 1 30 (first ∷ []) logged logged logged-IsLog (omega arith)
      (omega arith) refl
