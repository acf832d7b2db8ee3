-- ===== src/Scope/Glob/Trans.antt =====
-- scope.py: globs that match the texts of globs.
use sealedrun.Prelude.{ℕ, String, ◌≡◌, true, List, [], ◌∷◌, arith}
use sealedrun.Scope.Glob.{codes, matches, glob_match}

matches_trans :
    (wide narrow value : List ℕ)
    → matches wide narrow ≡ true
    → matches narrow value ≡ true
    → matches wide value ≡ true
unfolding matches
matches_trans [] [] [] h k = k
matches_trans [] [] (d ∷ value) h k = k
matches_trans [] (c ∷ narrow) value h k = absurd (ground arith)
matches_trans (p ∷ wide) [] [] h k = h
matches_trans (p ∷ wide) [] (d ∷ value) h k = absurd (ground arith)
matches_trans (p ∷ wide) (c ∷ narrow) [] h k =
    ground (arith, matches_trans wide (c ∷ narrow) [], matches_trans (p ∷ wide) narrow [])
matches_trans (p ∷ wide) (c ∷ narrow) (d ∷ value) h k = ground (
  arith,
  matches_trans wide (c ∷ narrow) (d ∷ value),
  matches_trans (p ∷ wide) narrow (d ∷ value),
  matches_trans (p ∷ wide) (c ∷ narrow) value,
  matches_trans (p ∷ wide) narrow value,
  matches_trans wide narrow value,
)

-- A glob that matches the text of a second glob matches every value that the second matches.
pub glob_match_trans :
    (wide narrow value : String)
    → glob_match wide narrow ≡ true
    → glob_match narrow value ≡ true
    → glob_match wide value ≡ true
unfolding glob_match
glob_match_trans wide narrow value = matches_trans (codes wide) (codes narrow) (codes value)
