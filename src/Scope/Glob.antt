-- ===== src/Scope/Glob.antt =====
-- `glob_match` of scope.py: `re.fullmatch` of the pattern's parts, escaped and joined by `.*`.
-- A dot of Python's `re` does not match a line feed.
pub mod Trans
use Prim.Native.Char.{code}
use sealedrun.Prelude.{ℕ, String, Bool, true, false, ◌&&◌, ◌||◌, not, List, [], ◌∷◌, nat_eq}

-- The code points of a text.
abbrev pub codes : String → List ℕ
codes String.[] = []
codes (String.◌∷◌ c s) = code c ∷ codes s

abbrev pub star : ℕ
star = 42

abbrev pub line_feed : ℕ
line_feed = 10

-- Whether the regular expression of a pattern matches a whole text, code point by code point.
unfoldable pub matches : List ℕ → List ℕ → Bool
matches [] [] = true
matches [] (c ∷ value) = false
matches (p ∷ pattern) [] = nat_eq p star && matches pattern []
matches (p ∷ pattern) (c ∷ value) = elim (nat_eq p star) [
  | true ↦ matches pattern (c ∷ value) || (not (nat_eq c line_feed) && matches (p ∷ pattern) value)
  | false ↦ nat_eq p c && matches pattern value
]

unfoldable pub glob_match : String → String → Bool
unfolding matches
glob_match pattern value = matches (codes pattern) (codes value)
