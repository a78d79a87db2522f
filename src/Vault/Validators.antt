-- ===== src/Vault/Validators.antt =====
-- The strings that metadata may be: contracts/vault/src/validators.rs. A string is its bytes.
pub mod Accepted
use callora_contracts.Prelude.{
  ℕ, zero, suc, ◌-◌, Bool, true, false, Option, none, some, List, [], ◌∷◌, ◌++◌, ◌==◌, ◌||◌, ltb,
  not, length, is_some, if◌then◌else◌,
}

abbrev pub max_validated_string_len : ℕ
max_validated_string_len = 256

-- `[0u8; n]`
abbrev pub zeros : ℕ → List ℕ
zeros zero = []
zeros (suc n) = 0 ∷ zeros n

-- `bytes[0] == b' '`
abbrev pub starts_with_space : List ℕ → Bool
starts_with_space [] = false
starts_with_space (b ∷ bs) = b == 32

-- `bytes[len - 1] == b' '`
abbrev pub ends_with_space : List ℕ → Bool
ends_with_space [] = false
ends_with_space (b ∷ []) = b == 32
ends_with_space (b ∷ c ∷ bs) = ends_with_space (c ∷ bs)

-- The loop over the bytes: some byte is outside 0x20..=0x7e.
abbrev pub has_invisible : List ℕ → Bool
has_invisible [] = false
has_invisible (b ∷ bs) = if ltb b 32 || ltb 126 b then true else has_invisible bs

-- The buffer with the bytes, filled up with zeros; `none` is `Err(())`.
unfoldable pub normalize_visible_ascii : List ℕ → Option (List ℕ)
normalize_visible_ascii s =
    if length s == 0 || ltb max_validated_string_len (length s)
    then none
    else if starts_with_space s || ends_with_space s
    then none
    else if has_invisible s
    then none
    else some (s ++ zeros (max_validated_string_len - length s))

abbrev pub is_visible_ascii_metadata : List ℕ → Bool
is_visible_ascii_metadata s = is_some (normalize_visible_ascii s)
