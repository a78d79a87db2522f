-- ===== src/Host/Token.antt =====
-- What the contracts rely on of a token contract, and lists of payments.
use callora_contracts.Prelude.{◌≡◌, ◌≢◌, some, List, [], ◌∷◌, ◌==◌, if◌then◌else◌}
use callora_contracts.Prelude.Int.{ℤ, pos, ◌+ℤ◌, ◌-ℤ◌}
use callora_contracts.Host.{Address, Ledger, Transfer}

-- The token standard: between two holders a transfer that returns takes the amount from the one,
-- gives it to the other, and leaves everybody else's balance.
pub record IsToken (transfer : Transfer) : Type 0 where
  pub moves :
      (l l' : Ledger) (t from to : Address) (a : ℤ)
      → from ≢ to
      → transfer l t from to a ≡ some l'
      → (l' t from ≡ l t from -ℤ a)
        × (l' t to ≡ l t to +ℤ a)
        × ((d : Address) → d ≢ from → d ≢ to → l' t d ≡ l t d)

-- What the items pay to one address.
abbrev pub amount_for : Address → List (Address × ℤ) → ℤ
amount_for d [] = pos 0
amount_for d ((e, amount) ∷ items) =
    if d == e then amount +ℤ amount_for d items else amount_for d items

abbrev pub developers : List (Address × ℤ) → List Address
developers [] = []
developers ((d, amount) ∷ items) = d ∷ developers items

abbrev pub total_of : List (Address × ℤ) → ℤ
total_of [] = pos 0
total_of ((d, amount) ∷ rest) = amount +ℤ total_of rest
