-- ===== src/Settlement/Liabilities/Paid.antt =====
-- How `batch_receive_payment` changes what the settlement contract owes its developers.
use callora_contracts.Prelude.{
  ℕ, ◌≡◌, ◌≢◌, false, List, [], ◌∷◌, contains, ◌==◌, ◌||◌, arith, ap, sym, ◌∙◌, subst, inl,
}
use callora_contracts.Prelude.Int.{ℤ, pos, ◌+ℤ◌, +ℤ_zero, +ℤ_assoc}
use callora_contracts.Host.{Address, Env, ok, >>=-eq-ok}
use callora_contracts.Host.Token.{total_of}
use callora_contracts.Settlement.Types.{Store}
use callora_contracts.Settlement.Index.Order.{
  Ascending, contains-sorted_insert, sorted_insert-Ascending,
}
use callora_contracts.Settlement.Payments.{
  batch_receive_payment, credit_item, credit_items, balance_of, index_of,
}
use callora_contracts.Settlement.Payments.Loops.{
  AddsTo, credit_item-AddsTo, AreFresh, check_developers_lem,
}
use callora_contracts.Settlement.Payments.Batch.{batch_loops}
use callora_contracts.Settlement.Liabilities.{liabilities, credit-liabilities}
use callora_contracts.Settlement.System.Sound.{IsSound}

-- The index is in order, and whoever is not in it holds nothing.
record IsIndexed (s : Store) : Type 0 where
  ordered : Ascending (index_of s)
  nothing : (d t : Address) → contains d (index_of s) ≡ false → balance_of s d t ≡ pos 0

credited-IsIndexed :
    (d token : Address) (amount : ℤ) (s s' : Store)
    → AddsTo d token amount s s'
    → IsIndexed s
    → IsIndexed s'
credited-IsIndexed d token amount s s' adds i = record {
  ordered = subst Ascending (sym adds.indexed) (sorted_insert-Ascending d (index_of s) i.ordered);
  nothing = λ e t c.
      let out : (d == e || contains e (index_of s)) ≡ false =
        sym (contains-sorted_insert d e (index_of s)) ∙ ap (contains e) (sym adds.indexed) ∙ c in
      let other : e ≢ d = ground (arith, out) in
      adds.others e t (inl other) ∙ i.nothing e t (ground (arith, out));
}

items-liabilities :
    (token : Address) (items : List (Address × ℤ)) (s s' : Store)
    → IsIndexed s
    → credit_items token items s ≡ (ok tt, s')
    → (liabilities token s' ≡ liabilities token s +ℤ total_of items)
      × ((t : Address) → t ≢ token → liabilities t s' ≡ liabilities t s)
unfolding credit_items
items-liabilities token [] s s' i h =
    let same : s' ≡ s = cc in
    (
      ap (liabilities token) same ∙ sym (+ℤ_zero (liabilities token s)),
      λ t other. ap (liabilities t) same,
    )
items-liabilities token ((d, a) ∷ items) s s' i h =
    let (_, s₁, first, rest) =
      >>=-eq-ok (credit_item token d a) (λ _. credit_items token items) s s' tt h in
    let adds = credit_item-AddsTo d token a s s₁ first in
    let (one, kept) =
      credit-liabilities d token a s s₁ i.ordered i.nothing adds.indexed adds.added adds.others in
    let (more, keeps) =
      items-liabilities token items s₁ s' (credited-IsIndexed d token a s s₁ adds i) rest in
    (
      more ∙ ap (λ x. x +ℤ total_of items) one ∙ +ℤ_assoc (liabilities token s) a (total_of items),
      λ t other. keeps t other ∙ kept t other,
    )

-- In a sound store, a batch of payments that returns raises what the developers hold together in its
-- token by exactly the sum of its amounts, and leaves what they hold in every other token.
pub batch_receive_payment-liabilities :
    (env : Env) (caller : Address) (items : List (Address × ℤ)) (token : Address) (seq : ℕ)
    (s s' : Store)
    → IsSound env.contract s
    → batch_receive_payment env caller items token seq s ≡ (ok tt, s')
    → (liabilities token s' ≡ liabilities token s +ℤ total_of items)
      × ((t : Address) → t ≢ token → liabilities t s' ≡ liabilities t s)
batch_receive_payment-liabilities env caller items token seq s s' sound h =
    let (s₁, s₂, same, _, guarded, credited) = batch_loops env caller items token seq s s' h in
    let frame =
      (subst (λ (x : Store). AreFresh seq items x s₂) same
        (check_developers_lem seq items s₁ s₂ guarded)).frame in
    let index : index_of s₂ ≡ index_of s = ap index_of frame in
    let held : (d t : Address) → balance_of s₂ d t ≡ balance_of s d t =
      λ d t. ap (λ x. balance_of x d t) frame in
    let owed : (t : Address) → liabilities t s₂ ≡ liabilities t s = λ t. ap (liabilities t) frame in
    let ready : IsIndexed s₂ =
      subst IsIndexed (sym frame)
        (record { ordered = sound.ordered; nothing = λ d t c. sound.indexed d t c }) in
    let (paid, kept) = items-liabilities token items s₂ s' ready credited in
    (paid ∙ ap (λ x. x +ℤ total_of items) (owed token), λ t other. kept t other ∙ owed t)
