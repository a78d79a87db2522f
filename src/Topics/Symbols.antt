-- ===== src/Topics/Symbols.antt =====
-- What `Symbol::new` accepts, and what the topics of a contract have to be.
use Prim.Native.Char.{code}
use callora_contracts.Prelude.{
  ℕ, ◌≡◌, ap, sym, ◌∙◌, Bool, true, Option, some, String, List, [], ◌∷◌, length, leb, ◌&&◌, ◌||◌,
  ◌==◌,
}

abbrev pub codes : String → List ℕ
codes String.[] = []
codes (String.◌∷◌ c s) = code c ∷ codes s

-- A letter, a digit or an underscore.
abbrev pub is_symbol_code : ℕ → Bool
is_symbol_code c =
    (leb 97 c && leb c 122) || (leb 65 c && leb c 90) || (leb 48 c && leb c 57) || c == 95

abbrev pub all_symbol_codes : List ℕ → Bool
all_symbol_codes [] = true
all_symbol_codes (c ∷ cs) = is_symbol_code c && all_symbol_codes cs

-- At most 32 of them: what a `Symbol` holds, where `Symbol::new` panics on anything else.
abbrev pub is_symbol : String → Bool
is_symbol s = leb (length (codes s)) 32 && all_symbol_codes (codes s)

-- Every topic is a symbol, and no two of them are the same.
pub record IsTopics {T : Type 0} (name : T → String) : Type 0 where
  pub symbol : (t : T) → is_symbol (name t) ≡ true
  pub apart : (t u : T) → name t ≡ name u → t ≡ u

same_some : {T : Type 0} (t u : T) → some t ≡ some u → t ≡ u
same_some t u h = cc

-- A reader that finds each topic by its text tells them apart.
pub decoded-IsTopics :
    {T : Type 0} (name : T → String) (topic_of : String → Option T)
    → ((t : T) → topic_of (name t) ≡ some t)
    → ((t : T) → is_symbol (name t) ≡ true)
    → IsTopics name
decoded-IsTopics name topic_of found symbols = record {
  symbol = symbols;
  apart = λ t u h. same_some t u (sym (found t) ∙ ap topic_of h ∙ found u);
}
