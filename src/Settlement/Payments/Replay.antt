-- ===== src/Settlement/Payments/Replay.antt =====
-- The replay guard: a sequence number is good for one payment to a developer or to the pool.
use callora_contracts.Prelude.{ℕ, ◌≡◌, ◌≢◌, ◌≤◌, true, false, none, some, arith, get_or}
use callora_contracts.Prelude.Int.{ℤ}
use callora_contracts.Host.{Address, Env, ok, commit}
use callora_contracts.Settlement.Types.{Store}
use callora_contracts.Settlement.Payments.{receive_payment, mark_of}

-- At or below the mark of its target a payment never returns.
pub stale_payment :
    (env : Env) (caller : Address) (amount : ℤ) (developer token : Address) (seq : ℕ) (s s' : Store)
    → seq ≤ mark_of s developer
    → receive_payment env caller amount false (some developer) token seq s ≢ (ok tt, s')
unfolding receive_payment
stale_payment env caller amount developer token seq s s' stale done = ground arith

pub stale_pool_payment :
    (env : Env) (caller : Address) (amount : ℤ) (token : Address) (seq : ℕ) (s s' : Store)
    → seq ≤ get_or 0 s.pool_high_water_mark
    → receive_payment env caller amount true none token seq s ≢ (ok tt, s')
unfolding receive_payment
stale_pool_payment env caller amount token seq s s' stale done = ground arith

-- As a transaction it changes nothing at all.
pub stale_commit :
    (env : Env) (caller : Address) (amount : ℤ) (developer token : Address) (seq : ℕ) (s : Store)
    → seq ≤ mark_of s developer
    → commit (receive_payment env caller amount false (some developer) token seq) s ≡ s
unfolding receive_payment
stale_commit env caller amount developer token seq s stale = ground arith
