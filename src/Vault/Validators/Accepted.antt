-- ===== src/Vault/Validators/Accepted.antt =====
-- The strings that are accepted, and what their buffers say.
use callora_contracts.Prelude.{
  ℕ, zero, suc, ◌-◌, ◌≤◌, ◌<◌, ◌≡◌, ◌≢◌, ◌↔◌, refl, true, false, some, List, [], ◌∷◌, ◌++◌, ◌==◌,
  length, length-append, All, is_some, ◌⊎◌, Option-cases, arith, inl, inr, ap, ◌∙◌,
}
use callora_contracts.Vault.Validators.{
  zeros, starts_with_space, ends_with_space, has_invisible, normalize_visible_ascii,
  is_visible_ascii_metadata,
}

-- A visible character or a space.
abbrev pub IsVisible : ℕ → Type 0
IsVisible b = (32 ≤ b) × (b ≤ 126)

has_invisible-All : (s : List ℕ) → has_invisible s ≡ false → All IsVisible s
has_invisible-All [] e = tt
has_invisible-All (b ∷ bs) e = (ground (arith, e), has_invisible-All bs (ground (arith, e)))

All-has_invisible : (s : List ℕ) → All IsVisible s → has_invisible s ≡ false
All-has_invisible [] v = refl
All-has_invisible (b ∷ bs) (v, vs) = ground (arith, v, All-has_invisible bs vs)

length-zeros : (n : ℕ) → length (zeros n) ≡ n
length-zeros zero = refl
length-zeros (suc n) = omega (arith, length-zeros n)

-- What stands before the first zero.
abbrev pub text : List ℕ → List ℕ
text [] = []
text (zero ∷ bs) = []
text (suc b ∷ bs) = suc b ∷ text bs

text-zeros : (n : ℕ) → text (zeros n) ≡ []
text-zeros zero = refl
text-zeros (suc n) = refl

text-padded : (s : List ℕ) (n : ℕ) → All IsVisible s → text (s ++ zeros n) ≡ s
text-padded [] n v = text-zeros n
text-padded (zero ∷ bs) n (v, vs) = absurd (omega arith)
text-padded (suc b ∷ bs) n (v, vs) = ap (λ t. suc b ∷ t) (text-padded bs n vs)

-- Neither end of the string is a space.
pub record IsTrimmed (s : List ℕ) : Type 0 where
  pub start : (b : ℕ) (bs : List ℕ) → s ≡ b ∷ bs → b ≢ 32
  pub ending : (bs : List ℕ) (b : ℕ) → s ≡ bs ++ b ∷ [] → b ≢ 32

-- What metadata may be.
pub record IsMetadata (s : List ℕ) : Type 0 where
  pub size : (0 < length s) × (length s ≤ 256)
  pub visible : All IsVisible s
  pub trimmed : IsTrimmed s

ends-snoc : (bs : List ℕ) (b : ℕ) → ends_with_space (bs ++ b ∷ []) ≡ (b == 32)
ends-snoc [] b = refl
ends-snoc (c ∷ []) b = refl
ends-snoc (c ∷ d ∷ bs) b = ends-snoc (d ∷ bs) b

snoc-cases : (s : List ℕ) → (s ≡ []) ⊎ ((bs : List ℕ) × (b : ℕ) × (s ≡ bs ++ b ∷ []))
snoc-cases [] = inl refl
snoc-cases (c ∷ s) = elim (snoc-cases s) [
  | inl e ↦ inr ([], c, ap (λ t. c ∷ t) e)
  | inr (bs, b, e) ↦ inr (c ∷ bs, b, ap (λ t. c ∷ t) e)
]

IsTrimmed-spaces :
    (s : List ℕ) → IsTrimmed s → (starts_with_space s ≡ false) × (ends_with_space s ≡ false)
IsTrimmed-spaces [] t = (refl, refl)
IsTrimmed-spaces (c ∷ s) t = elim (snoc-cases (c ∷ s)) [
  | inl e ↦ absurd (cc)
  | inr (bs, b, e) ↦ (
    ground (arith, t.start c s refl),
    ap ends_with_space e ∙ ends-snoc bs b ∙ ground (arith, t.ending bs b e),
  )
]

spaces-IsTrimmed :
    (s : List ℕ) → starts_with_space s ≡ false → ends_with_space s ≡ false → IsTrimmed s
spaces-IsTrimmed s p q = record {
  start = λ b bs e n. ground (arith, ap starts_with_space e, p, n);
  ending = λ bs b e n. ground (arith, ap ends_with_space e, ends-snoc bs b, q, n);
}

module _ (s : List ℕ) where
  accepted-IsMetadata : (buf : List ℕ) → normalize_visible_ascii s ≡ some buf → IsMetadata s
  unfolding normalize_visible_ascii
  accepted-IsMetadata buf h = record {
    size = (ground arith, ground arith);
    visible = has_invisible-All s (ground arith);
    trimmed = spaces-IsTrimmed s (ground arith) (ground arith);
  }

  IsMetadata-accepted :
      IsMetadata s → normalize_visible_ascii s ≡ some (s ++ zeros (256 - length s))
  unfolding normalize_visible_ascii
  IsMetadata-accepted m =
      let (p, q) = IsTrimmed-spaces s m.trimmed in
      ground (arith, m.size, p, q, All-has_invisible s m.visible)

-- A string is accepted exactly if it has between 1 and 256 bytes, each of them a visible ASCII
-- character or a space, and neither the first nor the last one a space.
pub is_visible_ascii_metadata-IsMetadata :
    (s : List ℕ) → (is_visible_ascii_metadata s ≡ true) ↔ IsMetadata s
is_visible_ascii_metadata-IsMetadata s = (
  λ h. elim (Option-cases (normalize_visible_ascii s)) [
    | inl e ↦ absurd (ground (arith, e, h))
    | inr (buf, e) ↦ accepted-IsMetadata s buf e
  ],
  λ m. ap is_some (IsMetadata-accepted s m),
)

-- The buffer of an accepted string has 256 bytes, and the string is what stands in it before the
-- first zero: no two strings have the same buffer.
pub text-normalize :
    (s buf : List ℕ) → normalize_visible_ascii s ≡ some buf → (length buf ≡ 256) × (text buf ≡ s)
text-normalize s buf h =
    let m = accepted-IsMetadata s buf h in
    let same : buf ≡ s ++ zeros (256 - length s) = cc (h, IsMetadata-accepted s m) in
    rw same (
      omega
          (arith, length-append s (zeros (256 - length s)), length-zeros (256 - length s), m.size),
      text-padded s (256 - length s) m.visible,
    )
