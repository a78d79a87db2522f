-- ===== src/Settlement/Pages/Reader.antt =====
-- A client that reads the balances page by page sees what the unbounded query returns.
use callora_contracts.Prelude.{
  ℕ, zero, suc, ◌≡◌, ◌∙◌, ap, sym, ◌<◌, refl, List, [], ◌++◌, length, map, Option, none, some,
}
use callora_contracts.Host.{Address}
use callora_contracts.Settlement.Types.{Store, DeveloperBalance}
use callora_contracts.Settlement.Index.Order.{Ascending}
use callora_contracts.Settlement.Payments.{index_of}
use callora_contracts.Settlement.Pages.{get_page, balance_record, page_addresses}
use callora_contracts.Settlement.Pages.Walk.{walk, walk-after}
use mathlib.Core.List.{map-append}

-- The reader calls `get_page` until it returns no next cursor.
pub read_pages : ℕ → Store → Address → ℕ → Option Address → List DeveloperBalance
unfolding get_page
read_pages zero s token limit cursor = []
read_pages (suc fuel) s token limit cursor =
    let (page, next) = get_page s cursor limit token in
    page ++ elim next [ none ↦ [] | some c ↦ read_pages fuel s token limit (some c) ]

read_pages-walk :
    (fuel : ℕ) (s : Store) (token : Address) (limit : ℕ) (cursor : Option Address)
    → read_pages fuel s token limit cursor
      ≡ map (balance_record s token) (walk fuel (index_of s) limit cursor)
unfolding read_pages walk
read_pages-walk zero s token limit cursor = refl
read_pages-walk (suc fuel) s token limit cursor =
    join (page_addresses (index_of s) cursor limit)
      (λ c. read_pages-walk fuel s token limit (some c))
  where
    join :
        (page : List Address × Option Address)
        → ((c : Address)
            → read_pages fuel s token limit (some c)
              ≡ map (balance_record s token) (walk fuel (index_of s) limit (some c)))
        → map (balance_record s token) page.0
            ++ elim page.1 [ none ↦ [] | some c ↦ read_pages fuel s token limit (some c) ]
          ≡ map
              (balance_record s token)
              (page.0 ++ elim page.1 [ none ↦ [] | some c ↦ walk fuel (index_of s) limit (some c) ])
    join (page, none) ih = sym (map-append (balance_record s token) page [])
    join (page, some c) ih =
        rw (ih c)
          (sym (map-append (balance_record s token) page (walk fuel (index_of s) limit (some c))))

-- Reading page by page, with a positive limit and the index in order, returns a balance for every
-- developer of the index, in the order of `get_all_developer_balances`.
pub read_pages-all :
    (fuel : ℕ) (s : Store) (token : Address) (limit : ℕ)
    → Ascending (index_of s)
    → 0 < limit
    → length (index_of s) < fuel
    → read_pages fuel s token limit none ≡ map (balance_record s token) (index_of s)
read_pages-all fuel s token limit up some_limit enough =
    read_pages-walk fuel s token limit none
    ∙ ap (map (balance_record s token))
        (walk-after fuel (index_of s) limit none up some_limit enough)
