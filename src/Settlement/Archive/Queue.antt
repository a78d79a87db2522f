-- ===== src/Settlement/Archive/Queue.antt =====
-- The loop of the archive: which events it moves, and where it stops.
use callora_contracts.Prelude.{
  ℕ, zero, suc, ◌+◌, ◌-◌, ◌^◌, ◌≡◌, ◌≢◌, ◌≤◌, ◌<◌, ◌⊎◌, inl, inr, refl, ap, ◌∙◌, true, false,
  Option, none, some, List, leb, arith, lt-or-le, Option-cases, subst,
}
use Prim.Native.Nat.{min}
use callora_contracts.Prelude.Int.{checked_add_u64}
use callora_contracts.Host.{Address, ok}
use callora_contracts.Settlement.Archive.{
  checked_add_u32, Cursor, Store, Progress, move_event, archive_loop,
}

-- The first of two entries that is there.
abbrev pub or_else : {A : Type 0} → Option A → Option A → Option A
or_else none o = o
or_else (some a) o = some a

-- The events of a developer from one index up to another are in the archive and no longer active;
-- nothing else has moved.
pub record IsMoved (developer : Address) (low high : ℕ) (s s' : Store) : Type 0 where
  pub gone : (i : ℕ) → low ≤ i → i < high → s'.active_event developer i ≡ none
  pub kept :
      (i : ℕ)
      → low ≤ i
      → i < high
      → s'.archived_event developer i
        ≡ or_else (s.active_event developer i) (s.archived_event developer i)
  pub outside :
      (d : Address) (i : ℕ)
      → (d ≢ developer) ⊎ ((i < low) ⊎ (high ≤ i))
      → (s'.active_event d i ≡ s.active_event d i) × (s'.archived_event d i ≡ s.archived_event d i)

pub nothing-IsMoved : (developer : Address) (low : ℕ) (s : Store) → IsMoved developer low low s s
nothing-IsMoved developer low s = record {
  gone = λ i p q. absurd (omega arith);
  kept = λ i p q. absurd (omega arith);
  outside = λ d i o. (refl, refl);
}

one-IsMoved :
    (developer : Address) (i : ℕ) (s : Store)
    → IsMoved developer i (suc i) s (move_event developer i (s.active_event developer i) s)
one-IsMoved developer i s = elim (Option-cases (s.active_event developer i)) [
  | inl e ↦
      let at : (j : ℕ) → i ≤ j → j < suc i → s.active_event developer j ≡ none =
        λ j p q. let same : j ≡ i = omega arith in rw same e in
      rw e
        (record { gone = at; kept = λ j p q. rw (at j p q) refl; outside = λ d j o. (refl, refl) })
  | inr (v, e) ↦
      let at : (j : ℕ) → i ≤ j → j < suc i → s.active_event developer j ≡ some v =
        λ j p q. let same : j ≡ i = omega arith in rw same e in
      rw e (record {
        gone = λ j p q. ground (arith, p, q);
        kept = λ j p q. ground (arith, p, q, at j p q);
        outside = λ d j o. (ground (arith, o), ground (arith, o));
      })
]

pub IsMoved-trans :
    (developer : Address) (low middle high : ℕ) (s t u : Store)
    → low ≤ middle
    → middle ≤ high
    → IsMoved developer low middle s t
    → IsMoved developer middle high t u
    → IsMoved developer low high s u
IsMoved-trans developer low middle high s t u le le' m n = record {
  gone = λ i p q. elim (lt-or-le i middle) [
    | inl before ↦ (n.outside developer i (inr (inl before))).0 ∙ m.gone i p before
    | inr behind ↦ n.gone i behind q
  ];
  kept = λ i p q. elim (lt-or-le i middle) [
    | inl before ↦ (n.outside developer i (inr (inl before))).1 ∙ m.kept i p before
    | inr behind ↦
        let (active, archived) = m.outside developer i (inr (inr behind)) in
        n.kept i behind q ∙ rw (active, archived) refl
  ];
  outside = λ d i o.
      let (a, b) = m.outside d i (narrow d i o) in
      let (a', b') = n.outside d i (widen d i o) in (a' ∙ a, b' ∙ b);
}
  where
    narrow :
        (d : Address) (i : ℕ)
        → (d ≢ developer) ⊎ ((i < low) ⊎ (high ≤ i))
        → (d ≢ developer) ⊎ ((i < low) ⊎ (middle ≤ i))
    narrow d i (inl other) = inl other
    narrow d i (inr (inl before)) = inr (inl before)
    narrow d i (inr (inr behind)) = inr (inr (omega arith))

    widen :
        (d : Address) (i : ℕ)
        → (d ≢ developer) ⊎ ((i < low) ⊎ (high ≤ i))
        → (d ≢ developer) ⊎ ((i < middle) ⊎ (high ≤ i))
    widen d i (inl other) = inl other
    widen d i (inr (inl before)) = inr (inl (omega arith))
    widen d i (inr (inr behind)) = inr (inr behind)

-- The loop's result after `n` events.
abbrev pub after : Cursor → ℕ → ℕ → Progress
after cursor count n = record {
  reached = record { tail = cursor.tail + n; head = cursor.head };
  archived_count = count + n;
}

after-next :
    (cursor : Cursor) (count n : ℕ)
    → after (record cursor { tail = cursor.tail + 1 }) (count + 1) n ≡ after cursor count (suc n)
after-next cursor count n =
    let e : cursor.tail + 1 + n ≡ cursor.tail + suc n = omega arith in
    let e' : count + 1 + n ≡ count + suc n = omega arith in rw (e, e') refl

after-none :
    (cursor : Cursor) (count : ℕ)
    → record { reached = cursor; archived_count = count } ≡ after cursor count 0
after-none cursor count =
    let e : cursor.tail + 0 ≡ cursor.tail = omega arith in
    let e' : count + 0 ≡ count = omega arith in rw (e, e') refl

loop-full :
    (developer : Address) (cursor : Cursor) (count : ℕ) (s : Store)
    → archive_loop developer zero cursor count s ≡ (ok (after cursor count 0), s)
unfolding archive_loop
loop-full developer cursor count s = ap (λ p. (ok p, s)) (after-none cursor count)

still-IsMoved : (developer : Address) (i : ℕ) (s : Store) → IsMoved developer i (i + 0) s s
still-IsMoved developer i s =
    subst (λ k. IsMoved developer i k s s) {x = i} {y = i + 0} (omega arith)
      (nothing-IsMoved developer i s)

loop-stops :
    (developer : Address) (left : ℕ) (cursor : Cursor) (count : ℕ) (s : Store)
    → cursor.head ≤ cursor.tail
    → archive_loop developer left cursor count s ≡ (ok (after cursor count 0), s)
unfolding archive_loop
loop-stops developer zero cursor count s le = ap (λ p. (ok p, s)) (after-none cursor count)
loop-stops developer (suc left) cursor count s le =
    let e : leb cursor.head cursor.tail ≡ true = ground arith in
    rw (archive_loop, e) (ap (λ p. (ok p, s)) (after-none cursor count))

loop-steps :
    (developer : Address) (left : ℕ) (cursor : Cursor) (count : ℕ) (s : Store)
    → cursor.tail < cursor.head
    → cursor.head < 2 ^ 64
    → count + 1 < 2 ^ 32
    → archive_loop developer (suc left) cursor count s
      ≡ archive_loop developer left
          (record cursor { tail = cursor.tail + 1 })
          (count + 1)
          (move_event developer cursor.tail (s.active_event developer cursor.tail) s)
unfolding archive_loop
loop-steps developer left cursor count s lt fits room =
    let e : leb cursor.head cursor.tail ≡ false = ground arith in
    let e₁ : checked_add_u64 cursor.tail 1 ≡ some (cursor.tail + 1) = ground arith in
    let e₂ : checked_add_u32 count 1 ≡ some (count + 1) = ground arith in ground (arith, e, e₁, e₂)

move-cursor :
    (developer : Address) (i : ℕ) (o : Option (List ℕ)) (s : Store)
    → (move_event developer i o s).cursor ≡ s.cursor
move-cursor developer i none s = refl
move-cursor developer i (some v) s = refl

-- The loop archives events until the batch is full or the queue is empty.
pub loop-moves :
    (developer : Address) (left n : ℕ) (cursor : Cursor) (count : ℕ) (s : Store)
    → cursor.head < 2 ^ 64
    → count + left < 2 ^ 32
    → n ≡ min left (cursor.head - cursor.tail)
    → (s' : Store) × (archive_loop developer left cursor count s ≡ (ok (after cursor count n), s'))
      × IsMoved developer cursor.tail (cursor.tail + n) s s'
      × (s'.cursor ≡ s.cursor)
loop-moves developer zero zero cursor count s fits room e =
    (s, loop-full developer cursor count s, still-IsMoved developer cursor.tail s, refl)
loop-moves developer (suc left) zero cursor count s fits room e = (
  s,
  loop-stops developer (suc left) cursor count s (ground (arith, e)),
  still-IsMoved developer cursor.tail s,
  refl,
)
loop-moves developer zero (suc n) cursor count s fits room e = absurd (ground (arith, e))
loop-moves developer (suc left) (suc n) cursor count s fits room e =
    let t = move_event developer cursor.tail (s.active_event developer cursor.tail) s in
    let next : Cursor = record cursor { tail = cursor.tail + 1 } in
    let (s', ran, moved, same) =
      loop-moves developer left n next (count + 1) t fits (omega arith) (ground (arith, e)) in
    (
      s',
      loop-steps developer left cursor count s (ground (arith, e)) fits (omega arith)
          ∙ ran
          ∙ ap (λ p. (ok p, s')) (after-next cursor count n),
      subst (λ k. IsMoved developer cursor.tail k s s') {x = cursor.tail + 1 + n}
          {y = cursor.tail + suc n} (omega arith)
          (IsMoved-trans developer cursor.tail (cursor.tail + 1) (cursor.tail + 1 + n) s t s'
            (omega arith) (omega arith)
            (subst (λ k. IsMoved developer cursor.tail k s t) {x = suc cursor.tail}
              {y = cursor.tail + 1} (omega arith) (one-IsMoved developer cursor.tail s))
            moved),
      same ∙ move-cursor developer cursor.tail (s.active_event developer cursor.tail) s,
    )
