-- ===== src/Checkpoint/Log.antt =====
-- The checkpoints are a log: numbered from 1 without a gap, and never written again.
use callora_contracts.Prelude.{
  ℕ, ◌+◌, ◌≡◌, ◌≢◌, ◌≤◌, ◌<◌, refl, Option, none, some, List, [], ◌∷◌, length, arith, map, subst,
  suc, inl, inr, Bool-cases, ◌==◌, ◌∙◌, ◌^◌,
}
use callora_contracts.Prelude.Int.{ℤ, pos, ◌≤ℤ◌}
use callora_contracts.Host.{Address, Env, ok, ◌>>=◌, ◌>>◌, pure, >>=-eq-ok}
use callora_contracts.Checkpoint.Types.{CheckpointRecord, Store, Item, Symbol, max_batch_size}
use callora_contracts.Checkpoint.Records.{
  write_checkpoint, create_checkpoint, write_all, check_balances, batch_create_checkpoints, collect,
  get_checkpoint_count, get_latest_checkpoint_id,
}

-- Every identifier from 1 to the count has its record, no other has one, and the two counters agree.
pub record IsLog (s : Store) : Type 0 where
  pub counters : get_latest_checkpoint_id s ≡ get_checkpoint_count s
  pub recorded :
      (id : ℕ)
      → 1 ≤ id
      → id ≤ get_checkpoint_count s
      → (r : CheckpointRecord) × (s.checkpoint id ≡ some r) × (r.id ≡ id)
  pub beyond : (id : ℕ) → get_checkpoint_count s < id → s.checkpoint id ≡ none
  pub nothing_at_0 : s.checkpoint 0 ≡ none

-- The log is at most longer, and what was in it is as it was.
pub record Extends (s s' : Store) : Type 0 where
  pub log : IsLog s → IsLog s'
  pub count : get_latest_checkpoint_id s ≤ get_latest_checkpoint_id s'
  pub kept : (id : ℕ) → id ≤ get_latest_checkpoint_id s → s'.checkpoint id ≡ s.checkpoint id

pub Extends-refl : (s : Store) → Extends s s
Extends-refl s = record { log = λ l. l; count = omega arith; kept = λ id n. refl }

pub Extends-trans : (s t u : Store) → Extends s t → Extends t u → Extends s u
Extends-trans s t u h k = record {
  log = λ l. k.log (h.log l);
  count = omega (arith, h.count, k.count);
  kept = λ id n. k.kept id (omega (arith, n, h.count)) ∙ h.kept id n;
}

-- The record that a row becomes.
abbrev pub record_of : ℕ → ℕ → Item → CheckpointRecord
record_of timestamp id (subject, token, balance, metadata) = record {
  id = id;
  subject = subject;
  token = token;
  balance = balance;
  timestamp = timestamp;
  metadata = metadata;
}

record IsWritten (timestamp : ℕ) (item : Item) (id : ℕ) (s s' : Store) : Type 0 where
  next : id ≡ get_latest_checkpoint_id s + 1
  latest : get_latest_checkpoint_id s' ≡ id
  counted : get_checkpoint_count s' ≡ id
  stored : s'.checkpoint id ≡ some (record_of timestamp id item)
  others : (j : ℕ) → j ≢ id → s'.checkpoint j ≡ s.checkpoint j
  room : id < 2 ^ 64

write_checkpoint-IsWritten :
    (timestamp : ℕ) (item : Item) (id : ℕ) (s s' : Store)
    → write_checkpoint timestamp item s ≡ (ok id, s')
    → IsWritten timestamp item id s s'
unfolding write_checkpoint
write_checkpoint-IsWritten timestamp item id s s' h = record {
  next = ground arith;
  latest = ground arith;
  counted = ground arith;
  stored = ground arith;
  others = λ j n. ground arith;
  room = ground arith;
}

IsWritten-Extends :
    (timestamp : ℕ) (item : Item) (id : ℕ) (s s' : Store)
    → IsWritten timestamp item id s s'
    → Extends s s'
IsWritten-Extends timestamp item id s s' w = record {
  log = λ l. record {
    counters = omega (arith, w.latest, w.counted);
    recorded = λ j low high. elim (Bool-cases (j == id)) [
      | inl new ↦ (record_of timestamp id item, ground (arith, w.stored, new), ground (arith, new))
      | inr old ↦
          let (r, at, named) =
            l.recorded j low (ground (arith, old, w.next, w.counted, l.counters, high)) in
          (r, w.others j (ground (arith, old)) ∙ at, named)
    ];
    beyond = λ j far. ground (arith, w.others j, l.beyond j, l.counters, w.next, w.counted);
    nothing_at_0 = ground (arith, w.others 0, l.nothing_at_0, w.next);
  };
  count = omega (arith, w.next, w.latest);
  kept = λ j n. w.others j (λ e. omega (arith, w.next, n, e));
}

-- A checkpoint that is made gets the next number and is stored as it was given, only by the admin,
-- with a balance that is not negative; the log before it is as it was.
pub create_checkpoint-Extends :
    (env : Env) (caller subject token : Address) (balance : ℤ) (metadata : Symbol) (id : ℕ)
    (s s' : Store)
    → create_checkpoint env caller subject token balance metadata s ≡ (ok id, s')
    → (s.admin ≡ some caller)
      × (pos 0 ≤ℤ balance)
      × (id ≡ get_latest_checkpoint_id s + 1)
      × (get_latest_checkpoint_id s' ≡ id)
      × (s'.checkpoint id ≡ some (record_of env.timestamp id (subject, token, balance, metadata)))
      × Extends s s'
unfolding create_checkpoint
create_checkpoint-Extends env caller subject token balance metadata id s s' h =
    let item : Item = (subject, token, balance, metadata) in
    let w = write_checkpoint-IsWritten env.timestamp item id s s' (ground arith) in
    (
      ground arith,
      ground arith,
      w.next,
      w.latest,
      w.stored,
      IsWritten-Extends env.timestamp item id s s' w,
    )

-- The records of a batch whose first gets the number `id`.
abbrev pub records_of : ℕ → ℕ → List Item → List CheckpointRecord
records_of timestamp id [] = []
records_of timestamp id (item ∷ rest) =
    record_of timestamp id item ∷ records_of timestamp (id + 1) rest

pub collect-some :
    (at : ℕ → Option CheckpointRecord) (id n : ℕ) (r : CheckpointRecord)
    → at id ≡ some r
    → collect at id (suc n) ≡ r ∷ collect at (id + 1) n
unfolding collect
collect-some at id n r e = ground (arith, e)

record IsLogged (timestamp : ℕ) (items : List Item) (ids : List ℕ) (s s' : Store) : Type 0 where
  named : ids ≡ map (λ r. r.id) (records_of timestamp (get_latest_checkpoint_id s + 1) items)
  latest : get_latest_checkpoint_id s' ≡ get_latest_checkpoint_id s + length items
  stored :
      collect s'.checkpoint (get_latest_checkpoint_id s + 1) (length items)
      ≡ records_of timestamp (get_latest_checkpoint_id s + 1) items
  extends : Extends s s'

write_all-IsLogged :
    (timestamp : ℕ) (items : List Item) (ids : List ℕ) (s s' : Store)
    → write_all timestamp items s ≡ (ok ids, s')
    → IsLogged timestamp items ids s s'
unfolding write_all collect
write_all-IsLogged timestamp [] ids s s' h = record {
  named = ground arith;
  latest = ground arith;
  stored = refl;
  extends = subst (Extends s) {x = s} {y = s'} (cc) (Extends-refl s);
}
write_all-IsLogged timestamp (item ∷ rest) ids s s' h =
    let (id, s₁, first, more) =
      >>=-eq-ok (write_checkpoint timestamp item)
        (λ (i : ℕ). write_all timestamp rest >>= λ (is : List ℕ). pure (i ∷ is)) s s' ids h in
    let (others, s₂, behind, last) =
      >>=-eq-ok (write_all timestamp rest) (λ (is : List ℕ). pure (id ∷ is)) s₁ s' ids more in
    let w = write_checkpoint-IsWritten timestamp item id s s₁ first in
    let l = write_all-IsLogged timestamp rest others s₁ s₂ behind in
    let same : s₂ ≡ s' = cc (last) in
    let old : s₂.checkpoint id ≡ some (record_of timestamp id item) =
      l.extends.kept id (omega (arith, w.latest)) ∙ w.stored in
    subst (IsLogged timestamp (item ∷ rest) ids s) {x = s₂} {y = s'} same (record {
      named = cc (last, l.named, w.latest, w.next);
      latest = ground (arith, l.latest, w.latest, w.next);
      stored =
          collect-some s₂.checkpoint (get_latest_checkpoint_id s + 1) (length rest)
            (record_of timestamp (get_latest_checkpoint_id s + 1) item) (cc (old, w.next))
          ∙ cc (l.stored, w.latest, w.next);
      extends = Extends-trans s s₁ s₂ (IsWritten-Extends timestamp item id s s₁ w) l.extends;
    })

check_balances-keeps :
    (items : List Item) (s s' : Store) → check_balances items s ≡ (ok tt, s') → s' ≡ s
unfolding check_balances
check_balances-keeps [] s s' h = cc
check_balances-keeps ((d, t, b, m) ∷ rest) s s' h = check_balances-keeps rest s s' (ground arith)

batch-guards :
    (env : Env) (caller : Address) (items : List Item) (ids : List ℕ) (s s' : Store)
    → batch_create_checkpoints env caller items s ≡ (ok ids, s')
    → (s.admin ≡ some caller)
      × (1 ≤ length items)
      × (length items ≤ max_batch_size)
      × ((check_balances items >> write_all env.timestamp items) s ≡ (ok ids, s'))
unfolding batch_create_checkpoints
batch-guards env caller items ids s s' h = (ground arith, ground arith, ground arith, ground arith)

pub batch-written :
    (env : Env) (caller : Address) (items : List Item) (ids : List ℕ) (s s' : Store)
    → batch_create_checkpoints env caller items s ≡ (ok ids, s')
    → (s.admin ≡ some caller)
      × (1 ≤ length items)
      × (length items ≤ max_batch_size)
      × (write_all env.timestamp items s ≡ (ok ids, s'))
batch-written env caller items ids s s' h =
    let (admin, some_items, few, ran) = batch-guards env caller items ids s s' h in
    let (_, t, checked, written) =
      >>=-eq-ok (check_balances items) (λ _. write_all env.timestamp items) s s' ids ran in
    (admin, some_items, few, cc (check_balances-keeps items s t checked, written))

-- A batch that returns makes one checkpoint for each of its 1 to 50 rows, under consecutive numbers
-- that continue the log and in the order of the rows, which is also what it returns.
pub batch_create_checkpoints-Extends :
    (env : Env) (caller : Address) (items : List Item) (ids : List ℕ) (s s' : Store)
    → batch_create_checkpoints env caller items s ≡ (ok ids, s')
    → (s.admin ≡ some caller)
      × (1 ≤ length items)
      × (length items ≤ max_batch_size)
      × (ids ≡ map (λ r. r.id) (records_of env.timestamp (get_latest_checkpoint_id s + 1) items))
      × (collect s'.checkpoint (get_latest_checkpoint_id s + 1) (length items)
          ≡ records_of env.timestamp (get_latest_checkpoint_id s + 1) items)
      × Extends s s'
batch_create_checkpoints-Extends env caller items ids s s' h =
    let (admin, some_items, few, ran) = batch-written env caller items ids s s' h in
    let l = write_all-IsLogged env.timestamp items ids s s' ran in
    (admin, some_items, few, l.named, l.stored, l.extends)
