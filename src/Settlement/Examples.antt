-- ===== src/Settlement/Examples.antt =====
-- The theorems of the settlement contract at concrete transactions.
mod Withdrawing
mod Keeping
use callora_contracts.Prelude.{
  ◌+◌, ◌≡◌, ◌&&◌, ◌==◌, refl, true, false, none, some, List, [], ◌∷◌, arith, map, if◌then◌else◌,
}
use callora_contracts.Prelude.Int.{ℤ, pos, ◌+ℤ◌, ◌-ℤ◌, leb_ℤ}
use callora_contracts.Host.{Address, Env, Transfer, commit}
use callora_contracts.Settlement.Types.{Store}
use callora_contracts.Settlement.Index.Order.{Ascending}
use callora_contracts.Settlement.Payments.{receive_payment, batch_receive_payment}
use callora_contracts.Settlement.Payments.Credit.{IsCredited, receive_payment-IsCredited}
use callora_contracts.Settlement.Payments.Replay.{stale_commit}
use callora_contracts.Settlement.Storage.{storage_version}
use callora_contracts.Settlement.Pages.{balance_record}
use callora_contracts.Settlement.Pages.Reader.{read_pages, read_pages-all}
use callora_contracts.Settlement.System.{Request, run}
use callora_contracts.Settlement.System.Sound.{IsSound}
use callora_contracts.Settlement.System.History.{run-IsSound, replay-after-run}

-- A token contract that moves what it is told to, if the holder has it.
abbrev pub move : Transfer
move l t from to a =
    if leb_ℤ a (l t from)
    then some (λ u h.
      if u == t && h == to then l u h +ℤ a else if u == t && h == from then l u h -ℤ a else l u h)
    else none

-- Everybody signs; the contract is 100.
abbrev pub env : Env
env = record { timestamp = 1000; sequence = 5; contract = 100; authorized = λ a. true }

-- A day later.
abbrev pub later : Env
later = record { timestamp = 90000; sequence = 6; contract = 100; authorized = λ a. true }

abbrev empty : Store
empty = record {
  admin = none;
  high_water_mark = λ d. none;
  pool_high_water_mark = none;
  vault = none;
  pending_admin = none;
  pending_vault = none;
  developer_index = none;
  developer_balance_v1 = λ d. none;
  developer_balance = λ d t. none;
  developer_min_balance = λ d. none;
  global_pool = none;
  usdc = none;
  daily_withdraw_cap = λ d. none;
  withdrawal_today = λ d. none;
  contract_version = none;
  pending_migration = λ d. none;
  storage_version = none;
  developer_claim_window = λ d. none;
  total_received = none;
  ledger = λ t h. if h == 100 then pos 500 else pos 0;
  code = none;
  events = [];
}

empty-IsSound : IsSound 100 empty
empty-IsSound = record {
  ordered = tt;
  nonneg = λ d t. ground arith;
  indexed = λ d t c. refl;
  legacy_nonneg = λ d. ground arith;
  legacy_indexed = λ d c. refl;
  proposals = λ from m e. ground (arith, e);
}

-- The admin is 1, the vault 2, and the token 9.
abbrev pub ready : Store
ready = record empty {
  admin = some 1;
  vault = some 2;
  usdc = some 9;
  global_pool = some (record { total_balance = pos 0; last_updated = 0 });
}

pub ready-IsSound : IsSound 100 ready
ready-IsSound = record {
  ordered = tt;
  nonneg = λ d t. ground arith;
  indexed = λ d t c. refl;
  legacy_nonneg = λ d. ground arith;
  legacy_indexed = λ d c. refl;
  proposals = λ from m e. ground (arith, e);
}

abbrev pub paid : Store
paid = (receive_payment env 2 (pos 40) false (some 7) 9 3 ready).1

receive_payment-IsCredited_example : IsCredited 7 9 (pos 40) 3 ready paid
unfolding receive_payment ◌+ℤ◌ ◌-ℤ◌
receive_payment-IsCredited_example = receive_payment-IsCredited env 2 (pos 40) 7 9 3 ready paid refl

-- A payment, a withdrawal, a payment under an old number, and an unauthorised change of the admin.
abbrev history : List (Env × Request)
history =
    (env, Request.receive_payment 2 (pos 40) false (some 7) 9 3)
    ∷ (later, Request.withdraw_developer_balance 7 (pos 15) none)
    ∷ (later, Request.receive_payment 2 (pos 40) false (some 7) 9 3)
    ∷ (later, Request.set_admin 7 7)
    ∷ []

run-IsSound_example : IsSound 100 (run move history ready)
run-IsSound_example =
    run-IsSound 100 move history ready (refl, (refl, (refl, (refl, tt)))) ready-IsSound

replay-after-run_example :
    commit (receive_payment later 2 (pos 1) false (some 7) 9 2) (run move history paid)
    ≡ run move history paid
unfolding receive_payment ◌+ℤ◌ ◌-ℤ◌
replay-after-run_example =
    replay-after-run 100 move env later 2 2 (pos 40) (pos 1) 7 9 9 3 2 history ready paid refl
      (refl, (refl, (refl, (refl, tt)))) (omega arith)

stale_commit_example : commit (receive_payment later 2 (pos 5) false (some 7) 9 3) paid ≡ paid
unfolding receive_payment ◌+ℤ◌ ◌-ℤ◌
stale_commit_example = stale_commit later 2 (pos 5) 7 9 3 paid (ground arith)

abbrev pooled : Store
pooled = (receive_payment env 1 (pos 40) true none 9 3 ready).1

abbrev pub items : List (Address × ℤ)
items = (8, pos 20) ∷ (7, pos 30) ∷ []

abbrev pub batched : Store
batched = (batch_receive_payment env 2 items 9 4 ready).1

-- The balances of 7 and 8 are in the old layout, and 7 has one in the new layout too.
abbrev pub legacy : Store
legacy = record ready {
  developer_index = some (7 ∷ 8 ∷ []);
  developer_balance_v1 =
      λ d. if d == 7 then some (pos 4) else if d == 8 then some (pos 5) else none;
  developer_balance = λ d t. if d == 7 && t == 9 then some (pos 6) else none;
}

abbrev three_developers : List Address
three_developers = 5 ∷ 7 ∷ 8 ∷ []

three_developers-Ascending : Ascending three_developers
three_developers-Ascending = ground arith

abbrev listed : Store
listed = record ready { developer_index = some three_developers }

read_pages-all_example :
    read_pages 4 listed 9 2 none ≡ map (balance_record listed 9) three_developers
read_pages-all_example =
    read_pages-all 4 listed 9 2 three_developers-Ascending (omega arith) (omega arith)
