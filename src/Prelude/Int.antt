-- ===== src/Prelude/Int.antt =====
-- Signed integers over the native numbers, and the `i128` arithmetic of the contracts.
use callora_contracts.Prelude.{
  ℕ, zero, suc, ◌+◌, ◌-◌, ◌*◌, ◌/◌, ◌^◌, ◌≤◌, ◌<◌, ◌≡◌, Bool, true, false, ◌&&◌, Option, none, some,
  arith, ltb, leb, ◌==◌, if◌then◌else◌,
}

-- `negsuc n` is -(n + 1).
pub data ℤ : Type 0 where
  pos : ℕ → ℤ
  negsuc : ℕ → ℤ

abbrev pub pos_part : ℤ → ℕ
pos_part (pos n) = n
pos_part (negsuc n) = 0

abbrev pub neg_part : ℤ → ℕ
neg_part (pos n) = 0
neg_part (negsuc n) = suc n

-- a - b, as an integer.
abbrev pub sub_ℕ : ℕ → ℕ → ℤ
sub_ℕ a b = if leb b a then pos (a - b) else negsuc (b - a - 1)

infixl 65 ◌+ℤ◌ ◌-ℤ◌
infix 50 ◌≤ℤ◌ ◌<ℤ◌
unfoldable pub ◌+ℤ◌ : ℤ → ℤ → ℤ
a +ℤ b = sub_ℕ (pos_part a + pos_part b) (neg_part a + neg_part b)

unfoldable pub ◌-ℤ◌ : ℤ → ℤ → ℤ
a -ℤ b = sub_ℕ (pos_part a + neg_part b) (neg_part a + pos_part b)

abbrev pub ◌≤ℤ◌ : ℤ → ℤ → Type 0
a ≤ℤ b = pos_part a + neg_part b ≤ pos_part b + neg_part a

abbrev pub ◌<ℤ◌ : ℤ → ℤ → Type 0
a <ℤ b = pos_part a + neg_part b < pos_part b + neg_part a

abbrev pub ltb_ℤ : ℤ → ℤ → Bool
ltb_ℤ a b = ltb (pos_part a + neg_part b) (pos_part b + neg_part a)

abbrev pub leb_ℤ : ℤ → ℤ → Bool
leb_ℤ a b = leb (pos_part a + neg_part b) (pos_part b + neg_part a)

-- The bounds of `i128`: -2^127 and 2^127 - 1.
abbrev pub in_i128 : ℤ → Bool
in_i128 a = ltb (pos_part a) (2 ^ 127) && leb (neg_part a) (2 ^ 127)

abbrev pub i128_max : ℤ
i128_max = pos (2 ^ 127 - 1)

abbrev pub i128_min : ℤ
i128_min = negsuc (2 ^ 127 - 1)

-- A value of type `i128`.
abbrev pub IsI128 : ℤ → Type 0
IsI128 a = (pos_part a < 2 ^ 127) × (neg_part a ≤ 2 ^ 127)

-- `a.checked_add(b)` and `a.checked_sub(b)` on `i128`.
abbrev pub checked_add : ℤ → ℤ → Option ℤ
checked_add a b = if in_i128 (a +ℤ b) then some (a +ℤ b) else none

abbrev pub checked_sub : ℤ → ℤ → Option ℤ
checked_sub a b = if in_i128 (a -ℤ b) then some (a -ℤ b) else none

-- `a.saturating_add(b)` on `i128`.
abbrev pub saturating_add : ℤ → ℤ → ℤ
saturating_add a b =
    if in_i128 (a +ℤ b) then a +ℤ b else (if leb_ℤ (pos 0) (a +ℤ b) then i128_max else i128_min)

-- `a.checked_add(b)` on `u64`, and `a.saturating_add(b)` on `u32`.
abbrev pub checked_add_u64 : ℕ → ℕ → Option ℕ
checked_add_u64 a b = if ltb (a + b) (2 ^ 64) then some (a + b) else none

abbrev pub saturating_add_u32 : ℕ → ℕ → ℕ
saturating_add_u32 a b = if ltb (a + b) (2 ^ 32) then a + b else 2 ^ 32 - 1

-- The product.
infixl 70 ◌*ℤ◌
unfoldable pub ◌*ℤ◌ : ℤ → ℤ → ℤ
a *ℤ b =
    sub_ℕ (pos_part a * pos_part b + neg_part a * neg_part b)
      (pos_part a * neg_part b + neg_part a * pos_part b)

abbrev pub neg : ℕ → ℤ
neg zero = pos 0
neg (suc n) = negsuc n

-- The quotient, rounded towards zero.
abbrev pub div_ℤ : ℤ → ℤ → ℤ
div_ℤ (pos m) (pos n) = pos (m / n)
div_ℤ (pos m) (negsuc n) = neg (m / suc n)
div_ℤ (negsuc m) (pos n) = neg (suc m / n)
div_ℤ (negsuc m) (negsuc n) = pos (suc m / suc n)

abbrev pub abs_ℤ : ℤ → ℤ
abs_ℤ (pos n) = pos n
abs_ℤ (negsuc n) = pos (suc n)

-- `a.checked_mul(b)` and `a.checked_div(b)` on `i128`.
abbrev pub checked_mul : ℤ → ℤ → Option ℤ
checked_mul a b = if in_i128 (a *ℤ b) then some (a *ℤ b) else none

abbrev pub checked_div : ℤ → ℤ → Option ℤ
checked_div a (pos zero) = none
checked_div a b = if in_i128 (div_ℤ a b) then some (div_ℤ a b) else none

-- With these the operations can stay shut.
pub +ℤ_parts :
    (a b : ℤ)
    → pos_part (a +ℤ b) + neg_part a + neg_part b ≡ neg_part (a +ℤ b) + pos_part a + pos_part b
unfolding ◌+ℤ◌
+ℤ_parts a b = ground arith

pub -ℤ_parts :
    (a b : ℤ)
    → pos_part (a -ℤ b) + neg_part a + pos_part b ≡ neg_part (a -ℤ b) + pos_part a + neg_part b
unfolding ◌-ℤ◌
-ℤ_parts a b = ground arith

pub eq_of_parts : (a b : ℤ) → pos_part a + neg_part b ≡ pos_part b + neg_part a → a ≡ b
eq_of_parts a b h = ground arith

pub ruleset int_laws = (arith, +ℤ_parts, -ℤ_parts, eq_of_parts)

pub +ℤ_zero : (a : ℤ) → a +ℤ pos 0 ≡ a
unfolding ◌+ℤ◌
+ℤ_zero a = ground arith

pub +ℤ_comm : (a b : ℤ) → a +ℤ b ≡ b +ℤ a
+ℤ_comm a b = omega int_laws

pub +ℤ_assoc : (a b c : ℤ) → a +ℤ b +ℤ c ≡ a +ℤ (b +ℤ c)
+ℤ_assoc a b c = omega int_laws

-- Sums and differences of `i128` values below the bound do not overflow.
pub checked_add_fits :
    (a b : ℤ) → pos 0 ≤ℤ a → pos 0 ≤ℤ b → a +ℤ b ≤ℤ i128_max → checked_add a b ≡ some (a +ℤ b)
unfolding ◌+ℤ◌
checked_add_fits a b p q h = ground arith

-- The product of two integers that are not negative is that of the numbers.
pub *ℤ_pos : (m n : ℕ) → pos m *ℤ pos n ≡ pos (m * n)
unfolding ◌*ℤ◌
*ℤ_pos m n = ground arith
