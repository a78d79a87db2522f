-- ===== src/Settlement/Payments/Credit.antt =====
-- What a payment changes, and what it leaves alone.
use callora_contracts.Prelude.{
  ℕ, ◌≡◌, ◌≢◌, ◌<◌, ◌⊎◌, Bool, true, false, Option, some, arith, get_or,
}
use callora_contracts.Prelude.Int.{ℤ, pos, ◌+ℤ◌, ◌<ℤ◌, IsI128}
use callora_contracts.Host.{Address, Env, ok}
use callora_contracts.Settlement.Types.{Store, GlobalPool}
use callora_contracts.Settlement.Index.{sorted_insert}
use callora_contracts.Settlement.Payments.{receive_payment, balance_of, mark_of, index_of}

-- The payment has been credited to the developer, under a fresh sequence number, and nothing else
-- that is kept for a developer or the pool has changed.
pub record IsCredited (developer token : Address) (amount : ℤ) (seq : ℕ) (s s' : Store)
    : Type 0 where
  pub credited : balance_of s' developer token ≡ balance_of s developer token +ℤ amount
  pub in_range : IsI128 (balance_of s' developer token)
  pub positive : pos 0 <ℤ amount
  pub fresh : mark_of s developer < seq
  pub marked : mark_of s' developer ≡ seq
  pub indexed : index_of s' ≡ sorted_insert developer (index_of s)
  pub pool : s'.global_pool ≡ s.global_pool
  pub tokens : s'.ledger ≡ s.ledger
  pub frame : s' ≡ record s {
    developer_balance = s'.developer_balance;
    developer_index = s'.developer_index;
    high_water_mark = s'.high_water_mark;
    events = s'.events;
  }
  pub others :
      (d t : Address) → (d ≢ developer) ⊎ (t ≢ token) → balance_of s' d t ≡ balance_of s d t
  pub other_marks : (d : Address) → d ≢ developer → mark_of s' d ≡ mark_of s d

-- A payment to a developer that returns adds its amount to the developer's balance in that token.
pub receive_payment-IsCredited :
    (env : Env) (caller : Address) (amount : ℤ) (developer token : Address) (seq : ℕ) (s s' : Store)
    → receive_payment env caller amount false (some developer) token seq s ≡ (ok tt, s')
    → IsCredited developer token amount seq s s'
unfolding receive_payment
receive_payment-IsCredited env caller amount developer token seq s s' done = record {
  credited = ground arith;
  in_range = ground arith;
  positive = ground arith;
  fresh = ground arith;
  marked = ground arith;
  indexed = ground arith;
  pool = ground arith;
  tokens = ground arith;
  frame = ground arith;
  others = λ d t h. ground arith;
  other_marks = λ d h. ground arith;
}

-- The pool's balance has grown by the amount, at the ledger's time, and no developer's has changed.
pub record IsPooled (env : Env) (amount : ℤ) (seq : ℕ) (pool : GlobalPool) (s s' : Store)
    : Type 0 where
  pub credited :
      s'.global_pool
      ≡ some (record { total_balance = pool.total_balance +ℤ amount; last_updated = env.timestamp })
  pub in_range : IsI128 (pool.total_balance +ℤ amount)
  pub positive : pos 0 <ℤ amount
  pub fresh : get_or 0 s.pool_high_water_mark < seq
  pub marked : s'.pool_high_water_mark ≡ some seq
  pub balances : s'.developer_balance ≡ s.developer_balance
  pub marks : s'.high_water_mark ≡ s.high_water_mark
  pub index : s'.developer_index ≡ s.developer_index

-- Only the registered vault and the admin can pay in, and only if they authorised the call.
pub receive_payment-caller :
    (env : Env) (caller : Address) (amount : ℤ) (to_pool : Bool) (developer : Option Address)
    (token : Address) (seq : ℕ) (s s' : Store)
    → receive_payment env caller amount to_pool developer token seq s ≡ (ok tt, s')
    → (env.authorized caller ≡ true) × ((s.vault ≡ some caller) ⊎ (s.admin ≡ some caller))
unfolding receive_payment
receive_payment-caller env caller amount true developer token seq s s' done = ground arith
receive_payment-caller env caller amount false developer token seq s s' done = ground arith
