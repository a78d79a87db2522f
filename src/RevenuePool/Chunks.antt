-- ===== src/RevenuePool/Chunks.antt =====
-- `chunk_iter`, which splits a list of payments for several batches.
use callora_contracts.Prelude.{
  ℕ, zero, suc, ◌⊎◌, ◌≡◌, ◌≤◌, ◌<◌, Bool-cases, inl, inr, List, [], ◌∷◌, ◌++◌, length, ◌==◌,
  if◌then◌else◌, All, arith, refl, sym, ap, ◌∙◌, subst, length-append,
}

module _ {P : Type 0} where
  -- The loop, with the chunks and the current chunk so far.
  unfoldable pub chunk_loop : ℕ → List P → List (List P) → List P → List (List P)
  chunk_loop chunk_size [] chunks current = elim current [
    | [] ↦ chunks
    | p ∷ ps ↦ chunks ++ (p ∷ ps) ∷ []
  ]
  chunk_loop chunk_size (payment ∷ rest) chunks current =
      let full = chunk_loop chunk_size rest (chunks ++ (current ++ payment ∷ []) ∷ []) [] in
      let more = chunk_loop chunk_size rest chunks (current ++ payment ∷ []) in
      if length (current ++ payment ∷ []) == chunk_size then full else more

  unfoldable pub chunk_iter : List P → ℕ → List (List P)
  unfolding chunk_loop
  chunk_iter payments chunk_size =
      if chunk_size == 0 then [] else chunk_loop chunk_size payments [] []

  abbrev pub concat : List (List P) → List P
  concat [] = []
  concat (xs ∷ xss) = xs ++ concat xss

  append_assoc : (xs ys zs : List P) → (xs ++ ys) ++ zs ≡ xs ++ (ys ++ zs)
  append_assoc [] ys zs = refl
  append_assoc (x ∷ xs) ys zs = ap (λ l. x ∷ l) (append_assoc xs ys zs)

  append_nil : (xs : List P) → xs ++ [] ≡ xs
  append_nil [] = refl
  append_nil (x ∷ xs) = ap (λ l. x ∷ l) (append_nil xs)

  concat-snoc : (xss : List (List P)) (xs : List P) → concat (xss ++ xs ∷ []) ≡ concat xss ++ xs
  concat-snoc [] xs = append_nil xs
  concat-snoc (ys ∷ xss) xs =
      ap (λ l. ys ++ l) (concat-snoc xss xs) ∙ sym (append_assoc ys (concat xss) xs)

  chunk_loop-concat :
      (n : ℕ) (rest : List P) (chunks : List (List P)) (current : List P)
      → concat (chunk_loop n rest chunks current) ≡ concat chunks ++ (current ++ rest)
  unfolding chunk_loop
  chunk_loop-concat n [] chunks [] = sym (append_nil (concat chunks))
  chunk_loop-concat n [] chunks (p ∷ ps) =
      concat-snoc chunks (p ∷ ps) ∙ ap (λ l. concat chunks ++ p ∷ l) (sym (append_nil ps))
  chunk_loop-concat n (payment ∷ rest) chunks current =
      let now = current ++ payment ∷ [] in
      let regroup : concat chunks ++ (now ++ rest) ≡ concat chunks ++ (current ++ payment ∷ rest) =
        ap (λ l. concat chunks ++ l) (append_assoc current (payment ∷ []) rest) in
      elim (Bool-cases (length now == n)) [
        | inl full ↦
            ap
              (λ b. concat (
                if b
                then chunk_loop n rest (chunks ++ now ∷ []) []
                else chunk_loop n rest chunks now))
              full
            ∙ chunk_loop-concat n rest (chunks ++ now ∷ []) []
            ∙ ap (λ l. l ++ rest) (concat-snoc chunks now)
            ∙ append_assoc (concat chunks) now rest
            ∙ regroup
        | inr more ↦
            ap
              (λ b. concat (
                if b
                then chunk_loop n rest (chunks ++ now ∷ []) []
                else chunk_loop n rest chunks now))
              more
            ∙ chunk_loop-concat n rest chunks now
            ∙ regroup
      ]

  -- A chunk that `batch_distribute` accepts for `n` up to its own limit.
  abbrev pub IsChunk : ℕ → List P → Type 0
  IsChunk n c = (1 ≤ length c) × (length c ≤ n)

  All-snoc :
      (n : ℕ) (xss : List (List P)) (xs : List P)
      → All (IsChunk n) xss
      → IsChunk n xs
      → All (IsChunk n) (xss ++ xs ∷ [])
  All-snoc n [] xs all one = (one, tt)
  All-snoc n (ys ∷ xss) xs all one = (all.0, All-snoc n xss xs all.1 one)

  chunk_loop-sizes :
      (n : ℕ) (rest : List P) (chunks : List (List P)) (current : List P)
      → All (IsChunk n) chunks
      → length current < n
      → All (IsChunk n) (chunk_loop n rest chunks current)
  unfolding chunk_loop
  chunk_loop-sizes n [] chunks [] all small = all
  chunk_loop-sizes n [] chunks (p ∷ ps) all small =
      All-snoc n chunks (p ∷ ps) all (omega arith, omega (arith, small))
  chunk_loop-sizes n (payment ∷ rest) chunks current all small =
      let now = current ++ payment ∷ [] in
      let longer = length-append current (payment ∷ []) in
      elim (Bool-cases (length now == n)) [
        | inl full ↦
            subst
              (λ b. All (IsChunk n) (
                if b
                then chunk_loop n rest (chunks ++ now ∷ []) []
                else chunk_loop n rest chunks now))
              (sym full)
              (chunk_loop-sizes n rest (chunks ++ now ∷ []) []
                (All-snoc n chunks now all (omega (arith, longer), omega (arith, longer, small)))
                (omega (arith, small)))
        | inr more ↦
            subst
              (λ b. All (IsChunk n) (
                if b
                then chunk_loop n rest (chunks ++ now ∷ []) []
                else chunk_loop n rest chunks now))
              (sym more)
              (chunk_loop-sizes n rest chunks now all (ground (arith, longer, small, more)))
      ]

  chunk_iter-loop :
      (payments : List P) (n : ℕ) → chunk_iter payments (suc n) ≡ chunk_loop (suc n) payments [] []
  unfolding chunk_iter
  chunk_iter-loop payments n = ground arith

  -- The chunks hold the payments, all of them and in their order, and each has 1 to `n` of them;
  -- for the size 0 there is no chunk.
  pub chunk_iter-IsChunk :
      (payments : List P) (n : ℕ)
      → ((1 ≤ n)
          × (concat (chunk_iter payments n) ≡ payments)
          × All (IsChunk n) (chunk_iter payments n))
        ⊎ ((n ≡ 0) × (chunk_iter payments n ≡ []))
  unfolding chunk_iter
  chunk_iter-IsChunk payments zero = inr (refl, refl)
  chunk_iter-IsChunk payments (suc n) =
      let loop = chunk_iter-loop payments n in
      inl (
        omega arith,
        ap concat loop ∙ chunk_loop-concat (suc n) payments [] [],
        subst (All (IsChunk (suc n))) (sym loop)
            (chunk_loop-sizes (suc n) payments [] [] tt (omega arith)),
      )
