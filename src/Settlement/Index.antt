-- ===== src/Settlement/Index.antt =====
-- `sorted_insert` of contracts/settlement/src/lib.rs: the index of the developers.
pub mod Order
use callora_contracts.Prelude.{ℕ, zero, suc, ◌+◌, List, [], ◌∷◌, ltb, contains, if◌then◌else◌}
use callora_contracts.Host.{Address}

-- The loop that looks for the first entry above `addr`; at the end it is the length.
unfoldable pub insert_position : Address → ℕ → List Address → ℕ
insert_position addr i [] = i
insert_position addr i (existing ∷ rest) =
    let later = insert_position addr (i + 1) rest in if ltb addr existing then i else later

-- `Vec::insert`
unfoldable pub insert_at : ℕ → Address → List Address → List Address
insert_at zero a xs = a ∷ xs
insert_at (suc i) a [] = a ∷ []
insert_at (suc i) a (x ∷ xs) = x ∷ insert_at i a xs

unfoldable pub sorted_insert : Address → List Address → List Address
sorted_insert addr index =
    if contains addr index then index else insert_at (insert_position addr 0 index) addr index
