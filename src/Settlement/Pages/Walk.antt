-- ===== src/Settlement/Pages/Walk.antt =====
-- Following the cursor from page to page reads the whole index, in order and once.
use callora_contracts.Prelude.{
  ℕ, zero, suc, ◌+◌, ◌-◌, ◌≡◌, ◌∙◌, ap, sym, ◌<◌, ◌≤◌, refl, true, false, arith, List, [], ◌∷◌,
  ◌++◌, leb, ◌==◌, if◌then◌else◌, All, contains, length, take, drop, take-drop, take_all,
  length-append, Option, none, some,
}
use callora_contracts.Host.{Address}
use callora_contracts.Settlement.Types.{max_developer_balances_page_size}
use callora_contracts.Settlement.Index.Order.{Ascending}
use callora_contracts.Settlement.Pages.{collect, page_addresses}
use mathlib.Core.List.{append_assoc, append-nil}
use Prim.Native.Nat.{min}

-- The entries behind the cursor.
abbrev pub after_address : Address → List Address → List Address
after_address c [] = []
after_address c (x ∷ xs) = if x == c then xs else after_address c xs

abbrev pub after : Option Address → List Address → List Address
after none xs = xs
after (some c) xs = after_address c xs

-- The last entry of a list, or `last` if there is none.
abbrev pub last_of : Option Address → List Address → Option Address
last_of last [] = last
last_of last (x ∷ xs) = last_of (some x) xs

-- What the loop collects once it is past the cursor, with room for `k + 1` more.
collect-take :
    (cursor : Option Address) (limit k : ℕ) (result : List Address) (last : Option Address)
    (xs : List Address)
    → length result + suc k ≡ limit
    → collect cursor limit true result last xs
      ≡ (result ++ take (suc k) xs, last_of last (take (suc k) xs))
unfolding collect
collect-take cursor limit k result last [] h = ground (arith, append-nil result)
collect-take cursor limit zero result last (x ∷ xs) h =
    ground (arith, length-append result (x ∷ []))
collect-take cursor limit (suc k) result last (x ∷ xs) h = ground (
  arith,
  length-append result (x ∷ []),
  collect-take cursor limit k (result ++ x ∷ []) (some x) xs,
  append_assoc result (x ∷ []) (take (suc k) xs),
)

collect-after :
    (c : Address) (limit : ℕ) (xs : List Address)
    → collect (some c) limit false [] none xs
      ≡ collect (some c) limit true [] none (after_address c xs)
unfolding collect
collect-after c limit [] = refl
collect-after c limit (x ∷ xs) = ground (arith, collect-after c limit xs)

-- The number of entries on a page: `limit`, and 100 at most.
abbrev pub page_size : ℕ → ℕ
page_size limit = min limit max_developer_balances_page_size

-- A page is the next `page_size limit` entries behind the cursor, and names the last of them exactly
-- if it is full.
pub page_addresses-eq :
    (index : List Address) (cursor : Option Address) (limit : ℕ)
    → 0 < limit
    → page_addresses index cursor limit ≡ (
      take (page_size limit) (after cursor index),
      if leb (page_size limit) (length (take (page_size limit) (after cursor index)))
          then last_of none (take (page_size limit) (after cursor index))
          else none,
    )
unfolding page_addresses
page_addresses-eq index none limit h =
    ground (arith, collect-take none (page_size limit) (page_size limit - 1) [] none index)
page_addresses-eq index (some c) limit h = ground (
  arith,
  collect-after c (page_size limit) index,
  collect-take (some c) (page_size limit) (page_size limit - 1) [] none (after_address c index),
)

-- Reading behind an entry of a part behind the cursor is reading behind it in the whole index.
contains-lt :
    (x c : Address) (xs : List Address) → All (λ y. x < y) xs → contains c xs ≡ true → x < c
contains-lt x c [] all h = cc
contains-lt x c (y ∷ ys) all h = ground (arith, contains-lt x c ys all.1)

contains-after :
    (c d : Address) (xs : List Address)
    → contains c (after_address d xs) ≡ true
    → contains c xs ≡ true
contains-after c d [] h = h
contains-after c d (x ∷ xs) h = ground (arith, contains-after c d xs)

after-after :
    (c d : Address) (xs : List Address)
    → Ascending xs
    → contains c (after_address d xs) ≡ true
    → after_address c (after_address d xs) ≡ after_address c xs
after-after c d [] up h = refl
after-after c d (x ∷ xs) up h =
    ground (arith, after-after c d xs up.1, contains-lt x c xs up.0, contains-after c d xs)

Ascending-after : (d : Address) (xs : List Address) → Ascending xs → Ascending (after_address d xs)
Ascending-after d [] up = tt
Ascending-after d (x ∷ xs) up = ground (arith, Ascending-after d xs up.1)

-- Behind the last entry of a full page stands what the page left.
after-last :
    (k : ℕ) (c x : Address) (xs : List Address)
    → Ascending (x ∷ xs)
    → last_of (some x) (take k xs) ≡ some c
    → (contains c (x ∷ xs) ≡ true) × (after_address c (x ∷ xs) ≡ drop k xs) × (x ≤ c)
after-last zero c x xs up h = ground arith
after-last (suc k) c x [] up h = ground arith
after-last (suc k) c x (y ∷ ys) up h = ground (arith, after-last k c y ys up.1 h)

-- A reader that follows the cursor until there is none. Each call of `get_page` is one round.
unfoldable pub walk : ℕ → List Address → ℕ → Option Address → List Address
unfolding page_addresses
walk zero index limit cursor = []
walk (suc fuel) index limit cursor =
    let (page, next) = page_addresses index cursor limit in
    page ++ elim next [ none ↦ [] | some c ↦ walk fuel index limit (some c) ]

-- One round of pages of `size`, on what the cursor has left to read.
next_round : ℕ → List Address → ℕ → ℕ → List Address → List Address
unfolding walk
next_round fuel index limit size rest =
    let page = take size rest in
    page ++ elim (if leb size (length page) then last_of none page else none) [
      | none ↦ []
      | some c ↦ walk fuel index limit (some c)
    ]

walk-next_round :
    (fuel : ℕ) (index : List Address) (limit : ℕ) (cursor : Option Address)
    → 0 < limit
    → walk (suc fuel) index limit cursor
      ≡ next_round fuel index limit (page_size limit) (after cursor index)
unfolding walk next_round
walk-next_round fuel index limit cursor h = rw (page_addresses-eq index cursor limit h)

last_of-some : (x : Address) (xs : List Address) → (c : Address) × (last_of (some x) xs ≡ some c)
last_of-some x [] = (x, refl)
last_of-some x (y ∷ ys) = last_of-some y ys

length-drop-le : (k : ℕ) (xs : List Address) → length (drop k xs) ≤ length xs
length-drop-le zero xs = omega arith
length-drop-le (suc k) [] = omega arith
length-drop-le (suc k) (x ∷ xs) = omega (arith, length-drop-le k xs)

Ascending-after_cursor :
    (cursor : Option Address) (xs : List Address) → Ascending xs → Ascending (after cursor xs)
Ascending-after_cursor none xs up = up
Ascending-after_cursor (some c) xs up = Ascending-after c xs up

after-within :
    (cursor : Option Address) (c : Address) (index : List Address)
    → Ascending index
    → contains c (after cursor index) ≡ true
    → after_address c index ≡ after_address c (after cursor index)
after-within none c index up h = refl
after-within (some d) c index up h = sym (after-after c d index up h)

next_round-eq :
    (fuel : ℕ) (index : List Address) (limit k : ℕ) (rest : List Address)
    → Ascending rest
    → ((c : Address) → contains c rest ≡ true → after_address c index ≡ after_address c rest)
    → length rest < suc fuel
    → ((c : Address)
        → length (after_address c index) < fuel
        → walk fuel index limit (some c) ≡ after_address c index)
    → next_round fuel index limit (suc k) rest ≡ rest
unfolding next_round
next_round-eq fuel index limit k [] up same enough ih = ground arith
next_round-eq fuel index limit k (x ∷ xs) up same enough ih =
    let (c, last) = last_of-some x (take k xs) in
    let (held, left, _) = after-last k c x xs up last in
    ground (
      arith,
      last,
      held,
      left,
      same c,
      ih c,
      length-drop-le k xs,
      take-drop k xs,
      take_all k xs,
      append-nil (take k xs),
    )

-- Following the cursor reads what is behind it, in order, each entry once.
pub walk-after :
    (fuel : ℕ) (index : List Address) (limit : ℕ) (cursor : Option Address)
    → Ascending index
    → 0 < limit
    → length (after cursor index) < fuel
    → walk fuel index limit cursor ≡ after cursor index
walk-after zero index limit cursor up some_limit enough = absurd (omega arith)
walk-after (suc fuel) index limit cursor up some_limit enough =
    let size : page_size limit ≡ suc (page_size limit - 1) = omega arith in
    walk-next_round fuel index limit cursor some_limit
    ∙ ap (λ (n : ℕ). next_round fuel index limit n (after cursor index)) size
    ∙ next_round-eq fuel index limit (page_size limit - 1) (after cursor index)
        (Ascending-after_cursor cursor index up) (λ c. after-within cursor c index up) enough
        (λ c. walk-after fuel index limit (some c) up some_limit)
