-- ===== src/Settlement/Batch.antt =====
-- `batch_settle` of contracts/settlement/src/batch.rs: many withdrawals in one call, of which each may
-- fail on its own.
pub mod Isolation
use callora_contracts.Prelude.{ltb, Option, List, [], ◌∷◌, length, map, if◌then◌else◌, ℕ}
use callora_contracts.Prelude.Int.{ℤ}
use callora_contracts.Host.{Address, Env, Transfer, ok, err, panic, ◌>>=◌, pure}
use callora_contracts.Settlement.Types.{Call, SettlementError}
use callora_contracts.Settlement.Withdraw.{withdraw_developer_balance}

pub record SettleInput : Type 0 where
  pub developer : Address
  pub amount : ℤ
  pub to : Option Address

pub data SettleOutcome : Type 0 where
  success amount_not_positive claim_window_closed insufficient_balance : SettleOutcome
  daily_withdraw_cap_exceeded developer_balance_underflow other_error : SettleOutcome

-- `From<SettlementError> for SettleOutcome`
unfoldable pub outcome_of : SettlementError → SettleOutcome
outcome_of SettlementError.amount_not_positive = SettleOutcome.amount_not_positive
outcome_of SettlementError.claim_window_closed = SettleOutcome.claim_window_closed
outcome_of SettlementError.insufficient_developer_balance = SettleOutcome.insufficient_balance
outcome_of SettlementError.daily_withdraw_cap_exceeded = SettleOutcome.daily_withdraw_cap_exceeded
outcome_of SettlementError.developer_balance_underflow = SettleOutcome.developer_balance_underflow
outcome_of _ = SettleOutcome.other_error

-- An `Err` becomes an outcome, and nothing is undone; a panic ends the batch.
unfoldable pub catch : Call (Unit {0}) → Call SettleOutcome
unfolding outcome_of
catch m s =
    let (r, s') = m s in
    (elim r [ ok u ↦ ok SettleOutcome.success | err e ↦ ok (outcome_of e) | panic x ↦ panic x ], s')

unfoldable pub settle_each : Transfer → Env → List SettleInput → Call (List SettleOutcome)
unfolding catch
settle_each transfer env [] = pure []
settle_each transfer env (input ∷ rest) = do
  outcome ← catch (withdraw_developer_balance transfer env input.developer input.amount input.to)
  outcomes ← settle_each transfer env rest
  pure (outcome ∷ outcomes)

abbrev pub max_settlements : ℕ
max_settlements = 64

unfoldable pub batch_settle : Transfer → Env → List SettleInput → Call (List SettleOutcome)
unfolding settle_each
batch_settle transfer env settlements =
    if ltb max_settlements (length settlements)
    then pure (map (λ _. SettleOutcome.other_error) settlements)
    else settle_each transfer env settlements
