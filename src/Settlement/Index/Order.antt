-- ===== src/Settlement/Index/Order.antt =====
-- The index of developers stays strictly ascending, and `sorted_insert` adds one address to it.
use callora_contracts.Prelude.{
  ℕ, suc, ◌+◌, ◌≡◌, ◌<◌, refl, true, false, arith, List, [], ◌∷◌, ltb, ◌==◌, if◌then◌else◌, ◌||◌,
  All, contains,
}
use callora_contracts.Host.{Address}
use callora_contracts.Settlement.Index.{insert_position, insert_at, sorted_insert}

abbrev pub Ascending : List Address → Type 0
Ascending [] = Unit
Ascending (x ∷ xs) = All (λ y. x < y) xs × Ascending xs

-- Insertion before the first greater entry, by recursion on the list.
abbrev pub insert_before : Address → List Address → List Address
insert_before a [] = a ∷ []
insert_before a (x ∷ xs) = if ltb a x then a ∷ x ∷ xs else x ∷ insert_before a xs

insert_position-add :
    (a : Address) (i : ℕ) (xs : List Address)
    → insert_position a (suc i) xs ≡ suc (insert_position a i xs)
unfolding insert_position
insert_position-add a i [] = refl
insert_position-add a i (x ∷ xs) = ground (arith, insert_position-add a (i + 1) xs)

-- The loop's position is where the recursion inserts.
insert_at-position :
    (a : Address) (xs : List Address) → insert_at (insert_position a 0 xs) a xs ≡ insert_before a xs
unfolding insert_position insert_at
insert_at-position a [] = refl
insert_at-position a (x ∷ xs) = ground (arith, insert_position-add a 0 xs, insert_at-position a xs)

All-insert_before :
    (a x : Address) (xs : List Address)
    → x < a
    → All (λ y. x < y) xs
    → All (λ y. x < y) (insert_before a xs)
All-insert_before a x [] h all = (h, tt)
All-insert_before a x (y ∷ ys) h all = ground (arith, All-insert_before a x ys h)

All-trans : (a x : Address) (xs : List Address) → a < x → All (λ y. x < y) xs → All (λ y. a < y) xs
All-trans a x [] h all = tt
All-trans a x (y ∷ ys) h all = (omega arith, All-trans a x ys h all.1)

insert_before-Ascending :
    (a : Address) (xs : List Address)
    → contains a xs ≡ false
    → Ascending xs
    → Ascending (insert_before a xs)
insert_before-Ascending a [] new up = (tt, tt)
insert_before-Ascending a (x ∷ xs) new up =
    ground (arith, insert_before-Ascending a xs, All-trans a x xs, All-insert_before a x xs)

contains-insert_before :
    (a b : Address) (xs : List Address)
    → contains b (insert_before a xs) ≡ (a == b || contains b xs)
contains-insert_before a b [] = ground arith
contains-insert_before a b (x ∷ xs) = ground (arith, contains-insert_before a b xs)

-- The index stays strictly ascending, so no developer is in it twice.
pub sorted_insert-Ascending :
    (a : Address) (xs : List Address) → Ascending xs → Ascending (sorted_insert a xs)
unfolding sorted_insert
sorted_insert-Ascending a xs up =
    ground (arith, insert_at-position a xs, insert_before-Ascending a xs)

-- After the insertion the index holds the new address and what it held.
pub contains-sorted_insert :
    (a b : Address) (xs : List Address)
    → contains b (sorted_insert a xs) ≡ (a == b || contains b xs)
unfolding sorted_insert
contains-sorted_insert a b xs =
    ground (arith, insert_at-position a xs, contains-insert_before a b xs)

-- An address of the index is not entered again.
pub sorted_insert-old :
    (a : Address) (xs : List Address) → contains a xs ≡ true → sorted_insert a xs ≡ xs
unfolding sorted_insert
sorted_insert-old a xs h = ground arith

-- A new address is inserted before the first greater entry.
pub sorted_insert-before :
    (a : Address) (xs : List Address)
    → contains a xs ≡ false
    → sorted_insert a xs ≡ insert_before a xs
unfolding sorted_insert
sorted_insert-before a xs h = ground (arith, insert_at-position a xs)
