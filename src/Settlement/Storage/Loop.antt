-- ===== src/Settlement/Storage/Loop.antt =====
-- The migration page by page, as its callers are told to run it, against the one-shot migration.
use callora_contracts.Prelude.{
  ℕ, zero, suc, ◌+◌, ◌-◌, ◌^◌, ◌≡◌, ◌≤◌, ◌<◌, ◌∙◌, ap, refl, sym, Bool, true, false, some, List,
  length, take, drop, take-drop, drop-drop, drop_all, arith, leb, Bool-cases, Option-cases, inl,
  inr, if◌then◌else◌,
}
use callora_contracts.Host.{Address, Env, ok, ◌>>=◌, ◌>>◌, pure, >>=-eq-ok}
use callora_contracts.Settlement.Types.{Store, Call}
use callora_contracts.Settlement.Access.{require_admin}
use callora_contracts.Settlement.Payments.{index_of}
use callora_contracts.Settlement.Storage.{
  storage_version, migrate_slots, finish, run_migration, migrate_v1_to_v2, migrate_range, page_end,
  run_page, migrate_v1_to_v2_page,
}
use callora_contracts.Settlement.Storage.Range.{
  range-skips, slots-append, SameGuards, slots-SameGuards,
}

-- The loop of the callers: the next page from where the last one ended, until one says that it is
-- complete. The result says whether that happened within the calls that were allowed.
unfoldable pub migrate_pages : Env → Address → ℕ → ℕ → ℕ → Call Bool
migrate_pages env caller batch_size zero offset = pure false
migrate_pages env caller batch_size (suc calls) offset = do
  (next_offset, is_complete) ← migrate_v1_to_v2_page env caller offset batch_size
  (if is_complete then pure true else migrate_pages env caller batch_size calls next_offset)

page_end-bounds :
    (offset batch_size total : ℕ)
    → total < 2 ^ 32
    → offset ≤ total
    → (offset ≤ page_end offset batch_size total)
      × (page_end offset batch_size total ≤ total)
      × (offset < total → offset < page_end offset batch_size total)
page_end-bounds offset batch_size total small le = (ground arith, ground arith, λ lt. ground arith)

-- What a page reads before it moves anything.
record Ready (env : Env) (caller token : Address) (listed : List Address) (s : Store) : Type 0 where
  authorized : env.authorized caller ≡ true
  admin : s.admin ≡ some caller
  version : storage_version s < 2
  usdc : s.usdc ≡ some token
  index : index_of s ≡ listed
  small : length listed < 2 ^ 32

SameGuards-Ready :
    (env : Env) (caller token : Address) (listed : List Address) (s s' : Store)
    → SameGuards s s'
    → Ready env caller token listed s
    → Ready env caller token listed s'
SameGuards-Ready env caller token listed s s' g r = record {
  authorized = r.authorized;
  admin = g.admin ∙ r.admin;
  version = ground (arith, g.version, r.version);
  usdc = g.usdc ∙ r.usdc;
  index = ground (arith, g.index, r.index);
  small = r.small;
}

module _ (env : Env) (caller token : Address) (listed : List Address) (batch_size : ℕ) where
  page-runs :
      (offset : ℕ) (s : Store)
      → Ready env caller token listed s
      → migrate_v1_to_v2_page env caller offset batch_size s ≡ run_page offset batch_size s
  unfolding migrate_v1_to_v2_page require_admin
  page-runs offset s r = ground (arith, r.authorized, r.admin, r.version)

  -- A page whose slots could be moved: the last one finishes the migration.
  page-ends :
      (offset : ℕ) (s u : Store)
      → Ready env caller token listed s
      → offset ≤ length listed
      → migrate_slots token
          (take (page_end offset batch_size (length listed) - offset) (drop offset listed))
          s
        ≡ (ok tt, u)
      → run_page offset batch_size s
        ≡ (if leb (length listed) (page_end offset batch_size (length listed))
              then finish >> pure (page_end offset batch_size (length listed), true)
              else pure (page_end offset batch_size (length listed), false))
            u
  unfolding run_page
  page-ends offset s u r le moved =
      let end = page_end offset batch_size (length listed) in
      let (low, _, _) = page_end-bounds offset batch_size (length listed) r.small le in
      let range : migrate_range token offset end 0 listed s ≡ (ok tt, u) =
        range-skips token offset end offset 0 listed s (omega (arith, r.small)) (omega arith) low
        ∙ moved in
      ground (arith, r.usdc, r.index, range)

  pages-last :
      (calls offset next : ℕ) (s s' : Store)
      → migrate_v1_to_v2_page env caller offset batch_size s ≡ (ok (next, true), s')
      → migrate_pages env caller batch_size (suc calls) offset s ≡ (ok true, s')
  unfolding migrate_pages
  pages-last calls offset next s s' page = ground (arith, page)

  pages-more :
      (calls offset next : ℕ) (s u : Store)
      → migrate_v1_to_v2_page env caller offset batch_size s ≡ (ok (next, false), u)
      → migrate_pages env caller batch_size (suc calls) offset s
        ≡ migrate_pages env caller batch_size calls next u
  unfolding migrate_pages
  pages-more calls offset next s u page = ground (arith, page)

  pages-finish :
      (calls offset : ℕ) (s t s' : Store)
      → Ready env caller token listed s
      → offset ≤ length listed
      → length listed < offset + calls
      → migrate_slots token (drop offset listed) s ≡ (ok tt, t)
      → finish t ≡ (ok tt, s')
      → migrate_pages env caller batch_size calls offset s ≡ (ok true, s')
  unfolding migrate_slots
  pages-finish zero offset s t s' r le enough moves finishes = absurd (omega arith)
  pages-finish (suc calls) offset s t s' r le enough moves finishes =
      let end = page_end offset batch_size (length listed) in
      let (low, high, gain) = page_end-bounds offset batch_size (length listed) r.small le in
      let (u, here, behind) =
        slots-append token (take (end - offset) (drop offset listed))
          (drop (end - offset) (drop offset listed)) s t
          (ap (λ xs. migrate_slots token xs s) (take-drop (end - offset) (drop offset listed))
            ∙ moves) in
      let page = page-runs offset s r ∙ page-ends offset s u r le here in
      let rest = drop-drop offset (end - offset) end listed (omega arith) in
      let behind' : migrate_slots token (drop end listed) u ≡ (ok tt, t) =
        ap (λ xs. migrate_slots token xs u) (sym rest) ∙ behind in
      elim (Bool-cases (leb (length listed) end)) [
        | inl last ↦
            let none_left = drop_all end listed (ground (arith, last)) in
            let same : (ok tt, u) ≡ (ok tt, t) =
              ap (λ xs. migrate_slots token xs u) (sym none_left) ∙ behind' in
            pages-last calls offset end s s' (page ∙ ground (arith, last, same, finishes))
        | inr more ↦
            let over : end < length listed → length listed < end + calls =
              λ lt. omega (arith, gain (omega arith)) in
            pages-more calls offset end s u (page ∙ ground (arith, more))
            ∙ pages-finish calls end u t s'
                (SameGuards-Ready env caller token listed s u
                  (slots-SameGuards token (take (end - offset) (drop offset listed)) s u here) r)
                high (over (ground (arith, more))) behind' finishes
      ]

one-shot-runs :
    (env : Env) (caller : Address) (s s' : Store)
    → storage_version s < 2
    → migrate_v1_to_v2 env caller s ≡ (ok tt, s')
    → (env.authorized caller ≡ true) × (s.admin ≡ some caller) × (run_migration s ≡ (ok tt, s'))
unfolding migrate_v1_to_v2 require_admin
one-shot-runs env caller s s' before h = (ground arith, ground arith, ground arith)

one-shot-slots :
    (s s' : Store)
    → run_migration s ≡ (ok tt, s')
    → (token : Address) × (s.usdc ≡ some token)
      × ((migrate_slots token (index_of s) >> finish) s ≡ (ok tt, s'))
unfolding run_migration
one-shot-slots s s' h = elim (Option-cases s.usdc) [
  | inl gone ↦ absurd (ground (arith, gone))
  | inr (token, e) ↦ (token, e, ground (arith, e))
]

-- Before version 2 and with fewer than 2^32 developers in the index, wherever the one-shot migration
-- returns, the loop over the pages, with any page size, is complete after one call more than there
-- are developers at the latest, and leaves the very store of the one-shot migration.
pub migrate_pages-one_shot :
    (env : Env) (caller : Address) (batch_size : ℕ) (s s' : Store)
    → storage_version s < 2
    → length (index_of s) < 2 ^ 32
    → migrate_v1_to_v2 env caller s ≡ (ok tt, s')
    → migrate_pages env caller batch_size (length (index_of s) + 1) 0 s ≡ (ok true, s')
migrate_pages-one_shot env caller batch_size s s' before small h =
    let (auth, admin, ran) = one-shot-runs env caller s s' before h in
    let (token, configured, both) = one-shot-slots s s' ran in
    let (_, t, moved, finished) =
      >>=-eq-ok (migrate_slots token (index_of s)) (λ _. finish) s s' tt both in
    let r : Ready env caller token (index_of s) s = record {
      authorized = auth;
      admin = admin;
      version = before;
      usdc = configured;
      index = refl;
      small = small;
    } in
    pages-finish env caller token (index_of s) batch_size (length (index_of s) + 1) 0 s t s' r
      (omega arith) (omega arith) moved finished
