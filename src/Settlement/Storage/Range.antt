-- ===== src/Settlement/Storage/Range.antt =====
-- The loop of a page: which slots it moves, and what it leaves alone.
use callora_contracts.Prelude.{
  ℕ, zero, suc, ◌+◌, ◌-◌, ◌^◌, ◌≡◌, ◌≤◌, ◌<◌, ◌∙◌, ap, refl, sym, true, false, List, [], ◌∷◌, ◌++◌,
  length, take, drop, take_none, arith, leb,
}
use callora_contracts.Prelude.Int.{saturating_add_u32}
use callora_contracts.Host.{Address, ok, ◌>>◌, >>=-eq-ok, >>=-ok, >>-cong}
use callora_contracts.Settlement.Types.{Store}
use callora_contracts.Settlement.Storage.{migrate_developer_slot, migrate_slots, migrate_range}

next_index : (i : ℕ) → i + 1 < 2 ^ 32 → saturating_add_u32 i 1 ≡ suc i
next_index i small = ground arith

-- The loop of a page moves the slots from `offset` up to `end`: those of it that are still to come,
-- after the entries that are passed over.
module _ (usdc : Address) (offset end : ℕ) where
  range-empty : (i : ℕ) (s : Store) → migrate_range usdc offset end i [] s ≡ (ok tt, s)
  unfolding migrate_range
  range-empty i s = refl

  range-stops :
      (i : ℕ) (xs : List Address) (s : Store)
      → end ≤ i
      → migrate_range usdc offset end i xs s ≡ (ok tt, s)
  unfolding migrate_range
  range-stops i [] s le = refl
  range-stops i (x ∷ xs) s le = ground arith

  range-takes :
      (i : ℕ) (x : Address) (xs : List Address) (s : Store)
      → i + 1 < 2 ^ 32
      → offset ≤ i
      → i < end
      → migrate_range usdc offset end i (x ∷ xs) s
        ≡ (migrate_developer_slot x usdc >> migrate_range usdc offset end (suc i) xs) s
  unfolding migrate_range
  range-takes i x xs s small le lt =
      let over : leb end i ≡ false = ground arith in
      let from : leb offset i ≡ true = ground arith in rw (over, from, next_index i small) refl

  range-passes :
      (i : ℕ) (x : Address) (xs : List Address) (s : Store)
      → i + 1 < 2 ^ 32
      → i < offset
      → i < end
      → migrate_range usdc offset end i (x ∷ xs) s ≡ migrate_range usdc offset end (suc i) xs s
  unfolding migrate_range
  range-passes i x xs s small le lt =
      let over : leb end i ≡ false = ground arith in
      let from : leb offset i ≡ false = ground arith in rw (over, from, next_index i small) refl

  range-slots :
      (n i : ℕ) (xs : List Address) (s : Store)
      → i + length xs < 2 ^ 32
      → offset ≤ i
      → end - i ≡ n
      → migrate_range usdc offset end i xs s ≡ migrate_slots usdc (take n xs) s
  unfolding migrate_slots
  range-slots zero i xs s small le e = range-stops i xs s (omega arith)
  range-slots (suc n) i [] s small le e = range-empty i s
  range-slots (suc n) i (x ∷ xs) s small le e =
      range-takes i x xs s (omega arith) le (omega arith)
      ∙ >>-cong (migrate_developer_slot x usdc) (migrate_range usdc offset end (suc i) xs)
          (migrate_slots usdc (take n xs)) s
          (λ t. range-slots n (suc i) xs t (omega arith) (omega arith) (omega arith))

  pub range-skips :
      (k i : ℕ) (xs : List Address) (s : Store)
      → i + length xs < 2 ^ 32
      → offset ≡ i + k
      → offset ≤ end
      → migrate_range usdc offset end i xs s
        ≡ migrate_slots usdc (take (end - offset) (drop k xs)) s
  unfolding migrate_slots
  range-skips zero i xs s small e le =
      range-slots (end - offset) i xs s small (omega arith) (omega arith)
  range-skips (suc k) i [] s small e le =
      range-empty i s ∙ ap (λ xs. migrate_slots usdc xs s) (sym (take_none (end - offset)))
  range-skips (suc k) i (x ∷ xs) s small e le =
      range-passes i x xs s (omega arith) (omega arith) (omega arith)
      ∙ range-skips k (suc i) xs s (omega arith) (omega arith) le

pub slots-append :
    (usdc : Address) (xs ys : List Address) (s t : Store)
    → migrate_slots usdc (xs ++ ys) s ≡ (ok tt, t)
    → (u : Store) × (migrate_slots usdc xs s ≡ (ok tt, u)) × (migrate_slots usdc ys u ≡ (ok tt, t))
unfolding migrate_slots
slots-append usdc [] ys s t h = (s, refl, h)
slots-append usdc (x ∷ xs) ys s t h =
    let (_, s₁, first, more) =
      >>=-eq-ok (migrate_developer_slot x usdc) (λ _. migrate_slots usdc (xs ++ ys)) s t tt h in
    let (u, before, behind) = slots-append usdc xs ys s₁ t more in
    (
      u,
      >>=-ok (migrate_developer_slot x usdc) (λ _. migrate_slots usdc xs) s s₁ tt first ∙ before,
      behind,
    )

-- What the calls read is as it was.
pub record SameGuards (s s' : Store) : Type 0 where
  pub admin : s'.admin ≡ s.admin
  pub usdc : s'.usdc ≡ s.usdc
  pub index : s'.developer_index ≡ s.developer_index
  pub version : s'.storage_version ≡ s.storage_version

slot-SameGuards :
    (x usdc : Address) (s s' : Store)
    → migrate_developer_slot x usdc s ≡ (ok tt, s')
    → SameGuards s s'
unfolding migrate_developer_slot
slot-SameGuards x usdc s s' h = ground arith

SameGuards-trans : (s t u : Store) → SameGuards s t → SameGuards t u → SameGuards s u
SameGuards-trans s t u h k = record {
  admin = k.admin ∙ h.admin;
  usdc = k.usdc ∙ h.usdc;
  index = k.index ∙ h.index;
  version = k.version ∙ h.version;
}

pub slots-SameGuards :
    (usdc : Address) (xs : List Address) (s s' : Store)
    → migrate_slots usdc xs s ≡ (ok tt, s')
    → SameGuards s s'
unfolding migrate_slots
slots-SameGuards usdc [] s s' h = ground arith
slots-SameGuards usdc (x ∷ xs) s s' h =
    let (_, s₁, first, more) =
      >>=-eq-ok (migrate_developer_slot x usdc) (λ _. migrate_slots usdc xs) s s' tt h in
    SameGuards-trans s s₁ s' (slot-SameGuards x usdc s s₁ first)
      (slots-SameGuards usdc xs s₁ s' more)
