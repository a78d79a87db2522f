-- ===== src/Settlement/Pages.antt =====
-- The views over the index of developers: contracts/settlement/src/pagination.rs and the queries of
-- lib.rs. They read the store and write nothing.
pub mod Walk
pub mod Reader
use callora_contracts.Prelude.{
  ℕ, ◌+◌, ◌==◌, leb, Bool, true, false, not, ◌||◌, Option, none, some, List, [], ◌∷◌, ◌++◌, length,
  map, is_some, if◌then◌else◌,
}
use callora_contracts.Prelude.Int.{saturating_add_u32}
use callora_contracts.Host.{Address, Env, ◌>>=◌, gets}
use callora_contracts.Settlement.Types.{
  Store, Call, DeveloperBalance, max_developer_balances_page_size,
}
use callora_contracts.Settlement.Access.{require_admin}
use callora_contracts.Settlement.Payments.{balance_of, index_of}
use Prim.Native.Nat.{min}

abbrev pub balance_record : Store → Address → Address → DeveloperBalance
balance_record s token a = record { address = a; token = token; balance = balance_of s a token }

unfoldable pub get_all_developer_balances : Env → Address → Address → Call (List DeveloperBalance)
unfolding require_admin
get_all_developer_balances env caller token = do
  admin ← require_admin env caller
  gets (λ s. map (balance_record s token) (index_of s))

-- The loop of `get_developer_balances_page`: from `start` up to `end`, counted from `cursor`.
unfoldable pub slice : {A : Type 0} → ℕ → ℕ → ℕ → List A → List A
slice start end cursor [] = []
slice start end cursor (x ∷ xs) =
    let rest = slice start end (cursor + 1) xs in
    if leb end cursor then [] else (if leb start cursor then x ∷ rest else rest)

unfoldable pub balances_page : Store → ℕ → ℕ → Address → List DeveloperBalance
unfolding slice
balances_page s start limit token =
    let index = index_of s in
    let end =
      min (saturating_add_u32 start (min limit max_developer_balances_page_size)) (length index) in
    if limit == 0 || leb (length index) start
    then []
    else map (balance_record s token) (slice start end 0 index)

unfoldable pub get_developer_balances_page :
    Env → Address → ℕ → ℕ → Address → Call (List DeveloperBalance)
unfolding require_admin balances_page
get_developer_balances_page env caller start limit token = do
  admin ← require_admin env caller
  gets (λ s. balances_page s start limit token)

-- `cursor` names the entry that is read.
abbrev pub is_cursor : Option Address → Address → Bool
is_cursor none a = false
is_cursor (some c) a = a == c

-- The loop of `pagination::get_page`, over the addresses: what was collected and the last of it.
unfoldable pub collect :
    Option Address
    → ℕ
    → Bool
    → List Address
    → Option Address
    → List Address
    → List Address × Option Address
collect cursor limit past result last [] = (result, last)
collect cursor limit false result last (a ∷ rest) =
    collect cursor limit (is_cursor cursor a) result last rest
collect cursor limit true result last (a ∷ rest) =
    let result' = result ++ a ∷ [] in
    let more = collect cursor limit true result' (some a) rest in
    if leb limit (length result') then (result', some a) else more

unfoldable pub page_addresses : List Address → Option Address → ℕ → List Address × Option Address
unfolding collect
page_addresses index cursor limit =
    let effective = min limit max_developer_balances_page_size in
    let (result, last) = collect cursor effective (not (is_some cursor)) [] none index in
    if limit == 0
    then ([], none)
    else (result, if leb effective (length result) then last else none)

unfoldable pub get_page :
    Store → Option Address → ℕ → Address → List DeveloperBalance × Option Address
unfolding page_addresses
get_page s cursor limit token =
    let (addresses, next_cursor) = page_addresses (index_of s) cursor limit in
    (map (balance_record s token) addresses, next_cursor)

unfoldable pub get_developer_balances_cursor :
    Env → Address → Option Address → ℕ → Address → Call (List DeveloperBalance × Option Address)
unfolding require_admin get_page
get_developer_balances_cursor env caller cursor limit token = do
  admin ← require_admin env caller
  gets (λ s. get_page s cursor limit token)
