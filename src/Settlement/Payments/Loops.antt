-- ===== src/Settlement/Payments/Loops.antt =====
-- The loops of a batch of payments: the marks, and the credits.
use callora_contracts.Prelude.{
  ℕ, ◌≡◌, ◌≢◌, ◌<◌, ◌⊎◌, refl, inr, false, arith, List, [], ◌∷◌, if◌then◌else◌, All, contains, ◌||◌,
}
use callora_contracts.Prelude.Int.{ℤ, pos, +ℤ_zero, +ℤ_assoc, ◌+ℤ◌, ◌<ℤ◌}
use callora_contracts.Host.{Address, ok, or_panic, >>=-eq-ok}
use callora_contracts.Prelude.{Distinct}
use callora_contracts.Host.Token.{amount_for, developers}
use callora_contracts.Settlement.Types.{Store}
use callora_contracts.Settlement.Index.{sorted_insert}
use callora_contracts.Settlement.Index.Order.{contains-sorted_insert}
use callora_contracts.Settlement.Payments.{
  balance_of, mark_of, index_of, check_amounts, check_developers, credit_items, credit_item,
  check_developer,
}

pub check_amounts_lem :
    (items : List (Address × ℤ)) (s s' : Store)
    → check_amounts items s ≡ (ok tt, s')
    → (s' ≡ s) × All (λ item. pos 0 <ℤ item.1) items
unfolding check_amounts
check_amounts_lem [] s s' h = ground arith
check_amounts_lem ((d, a) ∷ items) s s' h = ground (arith, check_amounts_lem items s s')

-- One check of the replay guard.
pub check_developer_lem :
    (d : Address) (seq : ℕ) (s s' : Store)
    → or_panic (check_developer d seq) s ≡ (ok tt, s')
    → (mark_of s d < seq)
      × (s' ≡ record s { high_water_mark = s'.high_water_mark })
      × (mark_of s' d ≡ seq)
      × ((e : Address) → e ≢ d → mark_of s' e ≡ mark_of s e)
unfolding check_developer
check_developer_lem d seq s s' h = (ground arith, ground arith, ground arith, λ e n. ground arith)

pub record AreFresh (seq : ℕ) (items : List (Address × ℤ)) (s s' : Store) : Type 0 where
  pub fresh : All (λ d. mark_of s d < seq) (developers items)
  pub distinct : Distinct (developers items)
  pub frame : s' ≡ record s { high_water_mark = s'.high_water_mark }
  pub marks :
      (d : Address) → mark_of s' d ≡ (if contains d (developers items) then seq else mark_of s d)

pub not-contains :
    (d : Address) (seq : ℕ) (s : Store) (ds : List Address)
    → mark_of s d ≡ seq
    → All (λ e. mark_of s e < seq) ds
    → contains d ds ≡ false
not-contains d seq s [] h all = refl
not-contains d seq s (e ∷ ds) h all = ground (arith, not-contains d seq s ds h all.1)

pub keep_fresh :
    (d : Address) (seq : ℕ) (s s' : Store) (ds : List Address)
    → contains d ds ≡ false
    → ((e : Address) → e ≢ d → mark_of s' e ≡ mark_of s e)
    → All (λ e. mark_of s' e < seq) ds
    → All (λ e. mark_of s e < seq) ds
keep_fresh d seq s s' [] h same all = tt
keep_fresh d seq s s' (e ∷ ds) h same all = ground (arith, same e, keep_fresh d seq s s' ds)

-- A check and the checks behind it.
pub AreFresh-cons :
    (d : Address) (a : ℤ) (seq : ℕ) (items : List (Address × ℤ)) (s s₁ s' : Store)
    → mark_of s d < seq
    → s₁ ≡ record s { high_water_mark = s₁.high_water_mark }
    → mark_of s₁ d ≡ seq
    → ((e : Address) → e ≢ d → mark_of s₁ e ≡ mark_of s e)
    → AreFresh seq items s₁ s'
    → AreFresh seq ((d, a) ∷ items) s s'
AreFresh-cons d a seq items s s₁ s' fresh frame mark same rest =
    let new = not-contains d seq s₁ (developers items) mark rest.fresh in
    record {
      fresh = (fresh, keep_fresh d seq s s₁ (developers items) new same rest.fresh);
      distinct = (new, rest.distinct);
      frame = ground (arith, frame, rest.frame);
      marks = λ e. ground (arith, rest.marks e, same e, mark, new);
    }

pub check_developers_lem :
    (seq : ℕ) (items : List (Address × ℤ)) (s s' : Store)
    → check_developers seq items s ≡ (ok tt, s')
    → AreFresh seq items s s'
unfolding check_developers
check_developers_lem seq [] s s' h = record {
  fresh = tt;
  distinct = tt;
  frame = ground arith;
  marks = λ d. ground arith;
}
check_developers_lem seq ((d, a) ∷ items) s s' h =
    let (u, s₁, first, rest) =
      >>=-eq-ok (or_panic (check_developer d seq)) (λ _. check_developers seq items) s s' tt h in
    let (fresh, frame, mark, same) = check_developer_lem d seq s s₁ first in
    AreFresh-cons d a seq items s s₁ s' fresh frame mark same
      (check_developers_lem seq items s₁ s' rest)

-- One credit, with its event: the developer's balance in the token, its entry in the index and the
-- event are all that it writes.
pub record AddsTo (d token : Address) (amount : ℤ) (s s' : Store) : Type 0 where
  pub added : balance_of s' d token ≡ balance_of s d token +ℤ amount
  pub others : (e t : Address) → (e ≢ d) ⊎ (t ≢ token) → balance_of s' e t ≡ balance_of s e t
  pub indexed : index_of s' ≡ sorted_insert d (index_of s)
  pub frame : s' ≡ record s {
    developer_balance = s'.developer_balance;
    developer_index = s'.developer_index;
    events = s'.events;
  }

pub credit_item-AddsTo :
    (d token : Address) (amount : ℤ) (s s' : Store)
    → credit_item token d amount s ≡ (ok tt, s')
    → AddsTo d token amount s s'
unfolding credit_item
credit_item-AddsTo d token amount s s' h = record {
  added = ground arith;
  others = λ e t n. ground arith;
  indexed = ground arith;
  frame = ground arith;
}

pub record PaysOut (token : Address) (items : List (Address × ℤ)) (s s' : Store) : Type 0 where
  pub paid : (d : Address) → balance_of s' d token ≡ balance_of s d token +ℤ amount_for d items
  pub others : (d t : Address) → t ≢ token → balance_of s' d t ≡ balance_of s d t
  pub entered :
      (d : Address)
      → contains d (index_of s') ≡ (contains d (developers items) || contains d (index_of s))
  pub frame : s' ≡ record s {
    developer_balance = s'.developer_balance;
    developer_index = s'.developer_index;
    events = s'.events;
  }

pub PaysOut-cons :
    (d token : Address) (a : ℤ) (items : List (Address × ℤ)) (s s₁ s' : Store)
    → AddsTo d token a s s₁
    → PaysOut token items s₁ s'
    → PaysOut token ((d, a) ∷ items) s s'
PaysOut-cons d token a items s s₁ s' first rest = record {
  paid = λ e. grind (
    arith,
    rest.paid e,
    first.added,
    first.others e token,
    +ℤ_assoc (balance_of s e token) a (amount_for e items),
  );
  others = λ e t n. ground (arith, rest.others e t n, first.others e t (inr n));
  entered =
      λ e. ground (arith, rest.entered e, first.indexed, contains-sorted_insert d e (index_of s));
  frame = ground (arith, rest.frame, first.frame);
}

pub credit_items-PaysOut :
    (token : Address) (items : List (Address × ℤ)) (s s' : Store)
    → credit_items token items s ≡ (ok tt, s')
    → PaysOut token items s s'
unfolding credit_items
credit_items-PaysOut token [] s s' h = record {
  paid = λ d. ground (arith, +ℤ_zero (balance_of s d token));
  others = λ d t n. ground arith;
  entered = λ d. ground arith;
  frame = ground arith;
}
credit_items-PaysOut token ((d, a) ∷ items) s s' h =
    let (u, s₁, first, rest) =
      >>=-eq-ok (credit_item token d a) (λ _. credit_items token items) s s' tt h in
    PaysOut-cons d token a items s s₁ s' (credit_item-AddsTo d token a s s₁ first)
      (credit_items-PaysOut token items s₁ s' rest)
