-- ===== src/Settlement/System/Moves.antt =====
-- Balance migrations and the migrations of the storage layout keep the invariant.
use callora_contracts.Prelude.{
  ℕ, ◌≡◌, ◌⊎◌, inl, inr, Bool, Bool-cases, leb, Option-cases, get_or, arith, List, subst, sym,
  if◌then◌else◌, [], ◌∷◌, length,
}
use callora_contracts.Prelude.Int.{saturating_add_u32, pos, +ℤ_parts}
use callora_contracts.Host.{Address, Env, ok, ◌>>=◌, ◌>>◌, pure, >>=-eq-ok}
use callora_contracts.Settlement.Types.{Store, Call}
use callora_contracts.Settlement.Payments.{balance_of, index_of}
use callora_contracts.Settlement.Storage.{
  migrate_developer_slot, migrate_slots, finish, run_migration, migrate_v1_to_v2, migrate_range,
  page_end, run_page, migrate_v1_to_v2_page, migrate_single_developer, storage_version,
  storage_version_v2,
}
use callora_contracts.Settlement.Index.Order.{Ascending}
use callora_contracts.Settlement.System.Sound.{Keeps, Keeps-refl, Keeps-trans, IsQuiet-Keeps}

slot-Keeps :
    (contract addr usdc : Address) (s s' : Store)
    → migrate_developer_slot addr usdc s ≡ (ok tt, s')
    → Keeps contract s s'
unfolding migrate_developer_slot
slot-Keeps contract addr usdc s s' h = record {
  sound = λ i. record {
    ordered =
        subst (λ x. Ascending (get_or [] x)) {x = s.developer_index} {y = s'.developer_index}
          (ground arith) i.ordered;
    nonneg = λ e t. grind (
      arith,
      h,
      i.nonneg e t,
      i.legacy_nonneg addr,
      +ℤ_parts (get_or (pos 0) (s.developer_balance_v1 addr)) (balance_of s addr usdc),
    );
    indexed = λ e t n. ground (arith, i.indexed e t, i.legacy_indexed e);
    legacy_nonneg = λ e. ground (arith, i.legacy_nonneg e);
    legacy_indexed = λ e n. ground (arith, i.legacy_indexed e);
    proposals = λ d m e. i.proposals d m (ground (arith, h));
  };
  marks = λ e. ground arith;
  pool_mark = ground arith;
}

slots-Keeps :
    (contract usdc : Address) (index : List Address) (s s' : Store)
    → migrate_slots usdc index s ≡ (ok tt, s')
    → Keeps contract s s'
unfolding migrate_slots
slots-Keeps contract usdc [] s s' h = subst (Keeps contract s) (cc) (Keeps-refl contract s)
slots-Keeps contract usdc (addr ∷ rest) s s' h =
    let (_, s₁, first, more) =
      >>=-eq-ok (migrate_developer_slot addr usdc) (λ _. migrate_slots usdc rest) s s' tt h in
    Keeps-trans contract s s₁ s' (slot-Keeps contract addr usdc s s₁ first)
      (slots-Keeps contract usdc rest s₁ s' more)

finish-Keeps : (contract : Address) (s s' : Store) → finish s ≡ (ok tt, s') → Keeps contract s s'
unfolding finish
finish-Keeps contract s s' h = IsQuiet-Keeps contract s s' (record {
  index = ground arith;
  balances = ground arith;
  legacy = ground arith;
  proposals = ground arith;
  marks = ground arith;
  pool_mark = ground arith;
})

one_shot-split :
    (env : Env) (caller : Address) (s s' : Store)
    → migrate_v1_to_v2 env caller s ≡ (ok tt, s')
    → (s' ≡ s) ⊎ ((usdc : Address) × ((migrate_slots usdc (index_of s) >> finish) s ≡ (ok tt, s')))
unfolding migrate_v1_to_v2 run_migration
one_shot-split env caller s s' h = elim (Bool-cases (leb storage_version_v2 (storage_version s))) [
  | inl done ↦ inl (ground arith)
  | inr todo ↦ elim (Option-cases s.usdc) [
    | inl gone ↦ ground (arith, gone)
    | inr (u, g) ↦ inr (u, ground (arith, g))
  ]
]

pub migrate_v1_to_v2-Keeps :
    (contract : Address) (env : Env) (caller : Address) (s s' : Store)
    → migrate_v1_to_v2 env caller s ≡ (ok tt, s')
    → Keeps contract s s'
migrate_v1_to_v2-Keeps contract env caller s s' h = elim (one_shot-split env caller s s' h) [
  | inl same ↦ subst (Keeps contract s) (sym same) (Keeps-refl contract s)
  | inr (usdc, ran) ↦
      let (_, s₁, moved, finished) =
        >>=-eq-ok (migrate_slots usdc (index_of s)) (λ _. finish) s s' tt ran in
      Keeps-trans contract s s₁ s' (slots-Keeps contract usdc (index_of s) s s₁ moved)
        (finish-Keeps contract s₁ s' finished)
]

range-Keeps :
    (contract usdc : Address) (offset end i : ℕ) (index : List Address) (s s' : Store)
    → migrate_range usdc offset end i index s ≡ (ok tt, s')
    → Keeps contract s s'
unfolding migrate_range
range-Keeps contract usdc offset end i [] s s' h =
    subst (Keeps contract s) (cc) (Keeps-refl contract s)
range-Keeps contract usdc offset end i (addr ∷ rest) s s' h =
    let next = saturating_add_u32 i 1 in
    let more : Call (Unit {0}) = migrate_range usdc offset end next rest in
    elim (Bool-cases (leb end i)) [
      | inl over ↦
          subst (Keeps contract s) {x = s} {y = s'} (ground (arith, h, over))
            (Keeps-refl contract s)
      | inr inside ↦ elim (Bool-cases (leb offset i)) [
        | inl reached ↦
            let (_, s₁, first, behind) =
              >>=-eq-ok (migrate_developer_slot addr usdc) (λ _. more) s s' tt
                (ground (arith, h, inside, reached)) in
            Keeps-trans contract s s₁ s' (slot-Keeps contract addr usdc s s₁ first)
              (range-Keeps contract usdc offset end next rest s₁ s' behind)
        | inr before ↦
            range-Keeps contract usdc offset end next rest s s' (ground (arith, h, inside, before))
      ]
    ]

pub migrate_single_developer-Keeps :
    (contract : Address) (env : Env) (caller developer : Address) (s s' : Store)
    → migrate_single_developer env caller developer s ≡ (ok tt, s')
    → Keeps contract s s'
unfolding migrate_single_developer
migrate_single_developer-Keeps contract env caller developer s s' h = elim (Option-cases s.usdc) [
  | inl gone ↦ ground (arith, gone)
  | inr (u, g) ↦ slot-Keeps contract developer u s s' (ground (arith, g))
]

abbrev page_tail : ℕ → ℕ → Call (ℕ × Bool)
page_tail end total = (if leb total end then finish else pure tt) >>= λ _. pure (end, leb total end)

tail-Keeps :
    (contract : Address) (end total : ℕ) (r : ℕ × Bool) (s s' : Store)
    → page_tail end total s ≡ (ok r, s')
    → Keeps contract s s'
unfolding finish
tail-Keeps contract end total r s s' h = IsQuiet-Keeps contract s s' (record {
  index = ground arith;
  balances = ground arith;
  legacy = ground arith;
  proposals = ground arith;
  marks = ground arith;
  pool_mark = ground arith;
})

abbrev page_of : ℕ → ℕ → Store → ℕ
page_of offset size s = page_end offset size (length (index_of s))

page-split :
    (env : Env) (caller : Address) (offset size : ℕ) (r : ℕ × Bool) (s s' : Store)
    → migrate_v1_to_v2_page env caller offset size s ≡ (ok r, s')
    → (s' ≡ s)
      ⊎ ((usdc : Address) × ((migrate_range usdc offset (page_of offset size s) 0 (index_of s)
                >>= λ _. page_tail (page_of offset size s) (length (index_of s)))
              s
            ≡ (ok r, s')))
unfolding migrate_v1_to_v2_page run_page
page-split env caller offset size r s s' h =
    elim (Bool-cases (leb storage_version_v2 (storage_version s))) [
      | inl done ↦ inl (ground arith)
      | inr todo ↦ elim (Option-cases s.usdc) [
        | inl gone ↦ ground (arith, gone)
        | inr (u, g) ↦ inr (u, ground (arith, g))
      ]
    ]

pub migrate_v1_to_v2_page-Keeps :
    (contract : Address) (env : Env) (caller : Address) (offset size : ℕ) (r : ℕ × Bool)
    (s s' : Store)
    → migrate_v1_to_v2_page env caller offset size s ≡ (ok r, s')
    → Keeps contract s s'
migrate_v1_to_v2_page-Keeps contract env caller offset size r s s' h =
    elim (page-split env caller offset size r s s' h) [
      | inl same ↦ subst (Keeps contract s) (sym same) (Keeps-refl contract s)
      | inr (usdc, ran) ↦
          let end = page_of offset size s in
          let (_, s₁, moved, last) =
            >>=-eq-ok (migrate_range usdc offset end 0 (index_of s))
              (λ _. page_tail end (length (index_of s))) s s' r ran in
          Keeps-trans contract s s₁ s'
            (range-Keeps contract usdc offset end 0 (index_of s) s s₁ moved)
            (tail-Keeps contract end (length (index_of s)) r s₁ s' last)
    ]
