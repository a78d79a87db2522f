-- ===== src/Settlement/Examples/Withdrawing.antt =====
-- Withdrawals, their batches and the timelocked migration of a balance at concrete stores.
use callora_contracts.Prelude.{
  ◌+◌, ◌≡◌, ◌≤◌, ◌<◌, ◌==◌, ◌⊎◌, refl, none, some, List, [], ◌∷◌, arith, length, map, if◌then◌else◌,
}
use callora_contracts.Prelude.Int.{pos, ◌+ℤ◌, ◌-ℤ◌, ◌≤ℤ◌}
use callora_contracts.Host.{Address}
use callora_contracts.Settlement.Types.{
  Store, SettlementError, PendingDeveloperMigration, developer_migration_timelock_seconds,
}
use callora_contracts.Settlement.Limits.{get_withdrawal_today, cap_of}
use callora_contracts.Settlement.Payments.{batch_receive_payment}
use callora_contracts.Settlement.Withdraw.{withdraw_developer_balance}
use callora_contracts.Settlement.Withdraw.Effect.{
  IsRequest, IsCovered, IsWithdrawn, withdraw_effect,
}
use callora_contracts.Settlement.Withdraw.Cap.{withdraw-cap}
use callora_contracts.Settlement.Withdraw.Failure.{withdraw-err}
use callora_contracts.Settlement.Batch.{SettleInput, SettleOutcome, batch_settle, max_settlements}
use callora_contracts.Settlement.Batch.Isolation.{run_alone, batch_settle-run_alone}
use callora_contracts.Settlement.Migration.{propose_balance_migration, execute_balance_migration}
use callora_contracts.Settlement.Migration.Effect.{IsProposal, IsMoved, execute_effect}
use callora_contracts.Settlement.Examples.{move, env, later, ready, batched}

-- The cap of a day is 25.
abbrev capped : Store
capped = record batched { daily_withdraw_cap = λ d. some (pos 25) }

abbrev withdrawn : Store
withdrawn = (withdraw_developer_balance move later 7 (pos 25) (some 55) capped).1

withdraw_effect_example :
    (usdc : Address) × IsRequest later 7 (pos 25) (some 55) capped usdc
    × IsCovered later 7 (pos 25) capped usdc
    × IsWithdrawn move later 7 (pos 25) 55 usdc capped withdrawn
unfolding withdraw_developer_balance batch_receive_payment ◌+ℤ◌ ◌-ℤ◌
withdraw_effect_example = withdraw_effect move later 7 (pos 25) (some 55) capped withdrawn refl

withdraw-cap_example :
    (get_withdrawal_today later withdrawn 7 ≡ get_withdrawal_today later capped 7 +ℤ pos 25)
    × (get_withdrawal_today later withdrawn 7 ≤ℤ cap_of capped 7)
unfolding withdraw_developer_balance batch_receive_payment ◌+ℤ◌ ◌-ℤ◌
withdraw-cap_example =
    withdraw-cap move later 7 (pos 25) (some 55) capped withdrawn (ground arith) refl

withdraw-err_example : capped ≡ capped
unfolding withdraw_developer_balance batch_receive_payment ◌+ℤ◌ ◌-ℤ◌
withdraw-err_example =
    withdraw-err move later 7 (pos 26) none SettlementError.daily_withdraw_cap_exceeded capped
      capped refl

-- Everybody holds 50 of the token, and the cap of a day is 25.
abbrev stocked : Store
stocked = record ready {
  developer_balance = λ d t. if t == 9 then some (pos 50) else none;
  daily_withdraw_cap = λ d. some (pos 25);
}

-- The second withdrawal is above the cap.
abbrev two : List SettleInput
two =
    record { developer = 7; amount = pos 10; to = none }
    ∷ record { developer = 8; amount = pos 26; to = none }
    ∷ []

abbrev settled : List SettleOutcome
settled = SettleOutcome.success ∷ SettleOutcome.daily_withdraw_cap_exceeded ∷ []

abbrev after_both : Store
after_both = (batch_settle move later two stocked).1

batch_settle-run_alone_example :
    ((length two ≤ max_settlements) × (run_alone move later two stocked ≡ (settled, after_both)))
    ⊎ ((max_settlements < length two)
        × (after_both ≡ stocked)
        × (settled ≡ map (λ _. SettleOutcome.other_error) two))
unfolding batch_settle withdraw_developer_balance ◌+ℤ◌ ◌-ℤ◌
batch_settle-run_alone_example =
    batch_settle-run_alone move later two settled stocked after_both refl

abbrev proposed : Store
proposed = (propose_balance_migration env 1 7 77 batched).1

abbrev proposal : PendingDeveloperMigration
proposal = record { from = 7; to = 77; amount = pos 30; proposed_at = 1000; execute_after = 87400 }

proposal-IsProposal : IsProposal 100 7 proposal
proposal-IsProposal = record {
  source = refl;
  distinct = ground arith;
  outside = ground arith;
  positive = ground arith;
  delayed = refl;
}

abbrev moved : Store
moved = (execute_balance_migration later 1 7 proposed).1

execute_effect_example :
    (proposal.proposed_at + developer_migration_timelock_seconds ≤ later.timestamp)
    × (proposed.admin ≡ some 1)
    × IsMoved 7 77 9 (pos 30) proposed moved
unfolding propose_balance_migration execute_balance_migration batch_receive_payment ◌+ℤ◌ ◌-ℤ◌
execute_effect_example =
    execute_effect later 1 7 9 proposal proposed moved refl refl proposal-IsProposal refl
