-- ===== src/Settlement/Archive/Drain.antt =====
-- The archive is a queue: its events move in their order, each of them once, and all of them in
-- the end.
use callora_contracts.Prelude.{
  ℕ, zero, suc, ◌+◌, ◌-◌, ◌*◌, ◌^◌, ◌≡◌, ◌≢◌, ◌≤◌, ◌<◌, refl, ap, sym, ◌∙◌, true, get_or, put,
  ==_refl, arith, subst,
}
use Prim.Native.Nat.{min}
use callora_contracts.Host.{Address, Env, ok, commit, settle_state}
use callora_contracts.Settlement.Archive.{
  Cursor, Store, Progress, archive_loop, empty_queue, archive_events,
}
use callora_contracts.Settlement.Archive.Queue.{
  IsMoved, nothing-IsMoved, IsMoved-trans, loop-moves, after,
}

-- The queue of a developer; one that was never used is empty.
abbrev pub queue : Address → Store → Cursor
queue developer s = get_or empty_queue (s.cursor developer)

-- How many events wait in it.
abbrev pub waiting : Address → Store → ℕ
waiting developer s = let c : Cursor = queue developer s in c.head - c.tail

-- What one call does that archives `n` events.
pub record IsArchived (developer : Address) (n : ℕ) (s s' : Store) : Type 0 where
  pub events : (let c : Cursor = queue developer s in IsMoved developer c.tail (c.tail + n) s s')
  pub tail :
      (let c : Cursor = queue developer s' in c.tail)
      ≡ (let c : Cursor = queue developer s in c.tail + n)
  pub head :
      (let c : Cursor = queue developer s' in c.head)
      ≡ (let c : Cursor = queue developer s in c.head)
  pub others : (d : Address) → d ≢ developer → s'.cursor d ≡ s.cursor d

module _ (env : Env) (developer : Address) (authorized : env.authorized developer ≡ true) where
  archive-none :
      (batch_size n : ℕ) (s s₁ : Store) (progress : Progress)
      → archive_loop developer batch_size (queue developer s) 0 s ≡ (ok progress, s₁)
      → progress.archived_count ≡ 0
      → archive_events env developer batch_size s ≡ (ok 0, s₁)
  unfolding archive_events
  archive-none batch_size n s s₁ progress ran e = ground (arith, authorized, ran, e)

  archive-some :
      (batch_size n : ℕ) (s s₁ : Store) (progress : Progress)
      → archive_loop developer batch_size (queue developer s) 0 s ≡ (ok progress, s₁)
      → progress.archived_count ≡ suc n
      → archive_events env developer batch_size s
        ≡ (ok (suc n), record s₁ { cursor = put developer progress.reached s₁.cursor })
  unfolding archive_events
  archive-some batch_size n s s₁ progress ran e = ground (arith, authorized, ran, e)

queue-same :
    (developer : Address) (s s₁ : Store)
    → s₁.cursor ≡ s.cursor
    → queue developer s₁ ≡ queue developer s
queue-same developer s s₁ same = ap (λ f. get_or empty_queue (f developer)) same

queue-put :
    (developer : Address) (c : Cursor) (s : Store)
    → queue developer (record s { cursor = put developer c s.cursor }) ≡ c
queue-put developer c s = rw (==_refl developer) refl

put-other :
    (developer d : Address) (c : Cursor) (s : Store)
    → d ≢ developer
    → put developer c s.cursor d ≡ s.cursor d
put-other developer d c s p = ground (arith, p)

-- An authorised call, for a queue that does not end beyond a u64 and a batch size that is a u32,
-- returns the smaller one of the batch size and the number of events that wait; exactly those, the
-- oldest ones, have moved to the archive, and the queue starts behind them.
pub archive_events-IsArchived :
    (env : Env) (developer : Address) (batch_size : ℕ) (s : Store)
    → env.authorized developer ≡ true
    → (let c : Cursor = queue developer s in c.head) < 2 ^ 64
    → batch_size < 2 ^ 32
    → (n : ℕ) × (s' : Store) × (n ≡ min batch_size (waiting developer s))
      × (archive_events env developer batch_size s ≡ (ok n, s'))
      × IsArchived developer n s s'
archive_events-IsArchived env developer batch_size s authorized fits small =
    go (min batch_size (waiting developer s)) refl
  where
    go :
        (m : ℕ)
        → m ≡ min batch_size (waiting developer s)
        → (n : ℕ) × (s' : Store) × (n ≡ min batch_size (waiting developer s))
          × (archive_events env developer batch_size s ≡ (ok n, s'))
          × IsArchived developer n s s'
    go zero e =
        let (s₁, ran, moved, same) =
          loop-moves developer batch_size zero (queue developer s) 0 s fits (omega arith) e in
        (
          zero,
          s₁,
          e,
          archive-none env developer authorized batch_size zero s s₁ (after (queue developer s) 0 0)
              ran (omega arith),
          record {
            events = moved;
            tail = ap (λ (c : Cursor). c.tail) (queue-same developer s s₁ same) ∙ omega arith;
            head = ap (λ (c : Cursor). c.head) (queue-same developer s s₁ same);
            others = λ d p. ap (λ f. f d) same;
          },
        )
    go (suc m) e =
        let (s₁, ran, moved, same) =
          loop-moves developer batch_size (suc m) (queue developer s) 0 s fits (omega arith) e in
        (
          suc m,
          record s₁ {
            cursor = put developer (after (queue developer s) 0 (suc m)).reached s₁.cursor;
          },
          e,
          archive-some env developer authorized batch_size m s s₁
              (after (queue developer s) 0 (suc m)) ran (omega arith),
          record {
            events = record { gone = moved.gone; kept = moved.kept; outside = moved.outside };
            tail =
                ap (λ (c : Cursor). c.tail)
                  (queue-put developer (after (queue developer s) 0 (suc m)).reached s₁);
            head =
                ap (λ (c : Cursor). c.head)
                  (queue-put developer (after (queue developer s) 0 (suc m)).reached s₁);
            others = λ d p.
                put-other developer d (after (queue developer s) 0 (suc m)).reached s₁ p
                ∙ ap (λ f. f d) same;
          },
        )

-- Calls of a developer, one after another, each with the same batch size.
unfoldable pub archive_calls : Env → Address → ℕ → ℕ → Store → Store
archive_calls env developer batch_size zero s = s
archive_calls env developer batch_size (suc calls) s =
    archive_calls env developer batch_size calls
      (commit (archive_events env developer batch_size) s)

-- In a queue whose tail is not beyond its head and whose head is a u64, authorised calls with a batch
-- size that is a u32, as many as hold all events that wait, move all of them to the archive and leave
-- the queue empty.
pub archive_calls-all :
    (env : Env) (developer : Address) (batch_size calls : ℕ) (s : Store)
    → env.authorized developer ≡ true
    → (let c : Cursor = queue developer s in c.tail ≤ c.head)
    → (let c : Cursor = queue developer s in c.head) < 2 ^ 64
    → batch_size < 2 ^ 32
    → waiting developer s ≤ calls * batch_size
    → (waiting developer (archive_calls env developer batch_size calls s) ≡ 0)
      × (let c : Cursor = queue developer s in
          IsMoved developer c.tail c.head s (archive_calls env developer batch_size calls s))
unfolding archive_calls
archive_calls-all env developer batch_size zero s authorized formed fits small enough =
    let empty : (let c : Cursor = queue developer s in c.tail)
        ≡ (let c : Cursor = queue developer s in c.head) =
      omega arith in
    (
      omega arith,
      subst (λ k. IsMoved developer (queue developer s).tail k s s) empty
          (nothing-IsMoved developer (queue developer s).tail s),
    )
archive_calls-all env developer batch_size (suc calls) s authorized formed fits small enough =
    let (n, s₁, count, ran, one) =
      archive_events-IsArchived env developer batch_size s authorized fits small in
    let committed : commit (archive_events env developer batch_size) s ≡ s₁ =
      ap (settle_state s) ran in
    let low : n ≤ waiting developer s = ground (arith, count) in
    let left : waiting developer s₁ ≤ calls * batch_size =
      ground (arith, count, one.tail, one.head, enough) in
    let (empty, rest) =
      archive_calls-all env developer batch_size calls s₁ authorized
        (omega (arith, one.tail, one.head, low)) (omega (arith, one.head, fits)) small left in
    let low_end : ℕ = (queue developer s).tail in
    let high_end : ℕ = (queue developer s).head in
    let first = subst (λ k. IsMoved developer low_end k s s₁) (sym one.tail) one.events in
    let others =
      subst
        (λ k.
          IsMoved developer (queue developer s₁).tail k s₁
            (archive_calls env developer batch_size calls s₁))
        one.head rest in
    subst
      (λ t.
        (waiting developer (archive_calls env developer batch_size calls t) ≡ 0)
        × IsMoved developer low_end high_end s (archive_calls env developer batch_size calls t))
      (sym committed)
      (
        empty,
        IsMoved-trans developer low_end (queue developer s₁).tail high_end s s₁
            (archive_calls env developer batch_size calls s₁) (omega (arith, one.tail))
            (omega (arith, one.tail, low, formed)) first others,
      )
