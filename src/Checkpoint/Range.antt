-- ===== src/Checkpoint/Range.antt =====
-- What a range of checkpoints returns on a log.
use callora_contracts.Prelude.{
  ℕ, zero, suc, ◌+◌, ◌-◌, ◌≡◌, ◌≤◌, ◌<◌, some, inl, inr, refl, List, [], ◌∷◌, map, arith, ◌∙◌, ap,
  ◌^◌, Bool-cases, ltb, sym,
}
use callora_contracts.Host.{ok}
use callora_contracts.Checkpoint.Types.{CheckpointRecord, Store, max_page_size}
use callora_contracts.Checkpoint.Records.{collect, get_checkpoints_range, get_checkpoint_count}
use callora_contracts.Checkpoint.Log.{IsLog, collect-some}
use Prim.Native.Nat.{min}

-- The `count` numbers from `id` on.
abbrev pub numbers : ℕ → ℕ → List ℕ
numbers id zero = []
numbers id (suc count) = id ∷ numbers (id + 1) count

collect-numbers :
    (s : Store) (id count : ℕ)
    → IsLog s
    → 1 ≤ id
    → count ≤ get_checkpoint_count s + 1 - id
    → map (λ r. r.id) (collect s.checkpoint id count) ≡ numbers id count
unfolding collect
collect-numbers s id zero l low high = refl
collect-numbers s id (suc count) l low high =
    let (r, at, named) = l.recorded id low (omega (arith, high)) in
    let rest = collect-numbers s (id + 1) count l (omega (arith, low)) (omega (arith, high)) in
    cc (collect-some s.checkpoint id count r at, named, rest)

abbrev page_length : ℕ → ℕ → ℕ → ℕ
page_length start_id limit count = min (min limit max_page_size) (count + 1 - start_id)

range-eq :
    (start_id limit : ℕ) (rs : List CheckpointRecord) (s s' : Store)
    → get_checkpoint_count s + max_page_size < 2 ^ 64
    → get_checkpoints_range start_id limit s ≡ (ok rs, s')
    → rs ≡ collect s.checkpoint start_id (page_length start_id limit (get_checkpoint_count s))
unfolding get_checkpoints_range collect
range-eq start_id limit rs s s' room h = elim (Bool-cases (ltb (get_checkpoint_count s) start_id)) [
  | inl beyond ↦
      let none_left : page_length start_id limit (get_checkpoint_count s) ≡ 0 = ground arith in
      let nothing : rs ≡ [] = ground arith in
      nothing ∙ ap (collect s.checkpoint start_id) (sym none_left)
  | inr within ↦
      let same : min (start_id + min limit max_page_size)
              (min (get_checkpoint_count s + 1) (2 ^ 64 - 1))
            - start_id
          ≡ page_length start_id limit (get_checkpoint_count s) =
        ground arith in
      let read : rs
          ≡ collect s.checkpoint start_id (
              min (start_id + min limit max_page_size)
                (min (get_checkpoint_count s + 1) (2 ^ 64 - 1))
              - start_id) =
        ground arith in
      read ∙ ap (collect s.checkpoint start_id) same
]

collect-stored :
    (s : Store) (id count : ℕ)
    → IsLog s
    → 1 ≤ id
    → count ≤ get_checkpoint_count s + 1 - id
    → map some (collect s.checkpoint id count) ≡ map s.checkpoint (numbers id count)
unfolding collect
collect-stored s id zero l low high = refl
collect-stored s id (suc count) l low high =
    let (r, at, named) = l.recorded id low (omega (arith, high)) in
    let rest = collect-stored s (id + 1) count l (omega (arith, low)) (omega (arith, high)) in
    cc (collect-some s.checkpoint id count r at, at, rest)

-- On a log whose count is more than 100 below the end of u64 a query from `start_id` (1 or above)
-- returns the records that are stored under `start_id`, `start_id + 1`, ..., in this order, without a
-- gap and each with its own number: as many as were asked for, at most 100, and none behind the last
-- one. It changes nothing.
pub get_checkpoints_range-numbers :
    (start_id limit : ℕ) (rs : List CheckpointRecord) (s s' : Store)
    → IsLog s
    → 1 ≤ start_id
    → get_checkpoint_count s + max_page_size < 2 ^ 64
    → get_checkpoints_range start_id limit s ≡ (ok rs, s')
    → (s' ≡ s)
      × (1 ≤ limit)
      × (map some rs
          ≡ map s.checkpoint (
              numbers start_id
                (min (min limit max_page_size) (get_checkpoint_count s + 1 - start_id))))
      × (map (λ r. r.id) rs
          ≡ numbers start_id
              (min (min limit max_page_size) (get_checkpoint_count s + 1 - start_id)))
unfolding get_checkpoints_range
get_checkpoints_range-numbers start_id limit rs s s' l low room h = (
  ground arith,
  ground arith,
  ap (map some) (range-eq start_id limit rs s s' room h)
      ∙ collect-stored s start_id (page_length start_id limit (get_checkpoint_count s)) l low
          (omega arith),
  ap (map (λ r. r.id)) (range-eq start_id limit rs s s' room h)
      ∙ collect-numbers s start_id (page_length start_id limit (get_checkpoint_count s)) l low
          (omega arith),
)
