-- ===== src/Settlement/Examples/Keeping.antt =====
-- The archive, the paged migration and the sums of balances at concrete stores.
use callora_contracts.Prelude.{
  ℕ, ◌+◌, ◌≡◌, ◌≢◌, refl, true, false, none, some, [], ◌∷◌, length, arith, ◌==◌, ◌&&◌, ltb,
  if◌then◌else◌,
}
use callora_contracts.Prelude.Int.{pos, ◌+ℤ◌, ◌-ℤ◌}
use callora_contracts.Host.{Address, ok}
use callora_contracts.Host.Token.{IsToken, total_of}
use callora_contracts.Settlement.Types
use callora_contracts.Settlement.Payments.{receive_payment, index_of}
use callora_contracts.Settlement.Withdraw.{withdraw_developer_balance}
use callora_contracts.Settlement.Storage.{migrate_v1_to_v2}
use callora_contracts.Settlement.Storage.Loop.{migrate_pages, migrate_pages-one_shot}
use callora_contracts.Settlement.Archive
use callora_contracts.Settlement.Archive.{archive_events}
use callora_contracts.Settlement.Archive.Queue.{IsMoved}
use callora_contracts.Settlement.Archive.Drain.{
  waiting, IsArchived, archive_calls, archive_events-IsArchived, archive_calls-all,
}
use callora_contracts.Settlement.System.{Request, dispatch, step, run}
use callora_contracts.Settlement.System.Sound.{IsSound}
use callora_contracts.Settlement.System.History.{run-IsSound}
use callora_contracts.Settlement.Liabilities.{
  liabilities, receive_payment-liabilities, withdraw-liabilities,
}
use callora_contracts.Settlement.Examples.{
  move, env, later, ready, paid, legacy, ready-IsSound, items, batched,
}
use callora_contracts.Settlement.Payments.{batch_receive_payment}
use callora_contracts.Settlement.Liabilities.Paid.{batch_receive_payment-liabilities}
use Prim.Native.Nat.{min}

move-IsToken : IsToken move
move-IsToken = record {
  moves = λ l l' t from to a apart h.
      (ground (arith, h, apart), ground (arith, h, apart), λ d p q. ground (arith, h, p, q));
}

receive_payment-liabilities_example :
    (liabilities 9 paid ≡ liabilities 9 ready +ℤ pos 40)
    × ((t : Address) → t ≢ 9 → liabilities t paid ≡ liabilities t ready)
unfolding receive_payment ◌+ℤ◌ ◌-ℤ◌
receive_payment-liabilities_example =
    receive_payment-liabilities env 2 (pos 40) 7 9 3 ready paid ready-IsSound refl

batch_receive_payment-liabilities_example :
    (liabilities 9 batched ≡ liabilities 9 ready +ℤ total_of items)
    × ((t : Address) → t ≢ 9 → liabilities t batched ≡ liabilities t ready)
unfolding batch_receive_payment ◌+ℤ◌ ◌-ℤ◌
batch_receive_payment-liabilities_example =
    batch_receive_payment-liabilities env 2 items 9 4 ready batched ready-IsSound refl

paid-IsSound : IsSound 100 paid
unfolding run step dispatch receive_payment ◌+ℤ◌ ◌-ℤ◌
paid-IsSound =
    run-IsSound 100 move ((env, Request.receive_payment 2 (pos 40) false (some 7) 9 3) ∷ []) ready
      (refl, tt) ready-IsSound

abbrev drawn : Types.Store
drawn = (withdraw_developer_balance move later 7 (pos 15) none paid).1

withdraw-liabilities_example :
    (usdc : Address) × (paid.usdc ≡ some usdc)
    × (liabilities usdc drawn ≡ liabilities usdc paid -ℤ pos 15)
    × (drawn.ledger usdc later.contract -ℤ liabilities usdc drawn
        ≡ paid.ledger usdc later.contract -ℤ liabilities usdc paid)
    × ((t : Address) → t ≢ usdc → liabilities t drawn ≡ liabilities t paid)
unfolding withdraw_developer_balance receive_payment ◌+ℤ◌ ◌-ℤ◌
withdraw-liabilities_example =
    withdraw-liabilities move later 7 (pos 15) none paid drawn move-IsToken paid-IsSound refl

migrate_pages-one_shot_example :
    migrate_pages env 1 1 (length (index_of legacy) + 1) 0 legacy
    ≡ (ok true, (migrate_v1_to_v2 env 1 legacy).1)
unfolding migrate_v1_to_v2 ◌+ℤ◌ ◌-ℤ◌
migrate_pages-one_shot_example =
    migrate_pages-one_shot env 1 1 legacy (migrate_v1_to_v2 env 1 legacy).1 (omega arith)
      (omega arith) refl

-- Three events of the developer 7 wait.
abbrev three_events : Archive.Store
three_events = record {
  cursor = λ d. if d == 7 then some (record { tail = 0; head = 3 }) else none;
  active_event = λ d i. if d == 7 && ltb i 3 then some (i ∷ []) else none;
  archived_event = λ d i. none;
}

archive_events-IsArchived_example :
    (n : ℕ) × (s' : Archive.Store) × (n ≡ min 2 (waiting 7 three_events))
    × (archive_events env 7 2 three_events ≡ (ok n, s'))
    × IsArchived 7 n three_events s'
archive_events-IsArchived_example =
    archive_events-IsArchived env 7 2 three_events refl (omega arith) (omega arith)

archive_calls-all_example :
    (waiting 7 (archive_calls env 7 2 2 three_events) ≡ 0)
    × IsMoved 7 0 3 three_events (archive_calls env 7 2 2 three_events)
archive_calls-all_example =
    archive_calls-all env 7 2 2 three_events refl (omega arith) (omega arith) (omega arith)
      (omega arith)
