-- ===== src/Prelude/Texts.antt =====
-- Python's text operations `removeprefix`, `removesuffix`, `split` and `rstrip("/")`.
use Prim.Native.Char.{Char, code}
use Prim.Native.Nat.{ℕ}
use Prim.Native.String.{String}
use mathlib.Core.Bool.{◌&&◌}
use mathlib.Core.Option.{Option, none, some}
use mathlib.Core.List.{List, [], ◌∷◌}
use text.Mathlib.Text.{◌==◌}
use sealedrun.Prelude.Tests.{nat_eq, or_else, if◌then◌else◌}

-- What stands behind a prefix.
drop_prefix : String → String → Option String
drop_prefix String.[] s = some s
drop_prefix (String.◌∷◌ c p) String.[] = none
drop_prefix (String.◌∷◌ c p) (String.◌∷◌ d s) =
    let rest = drop_prefix p s in if nat_eq (code c) (code d) then rest else none

unfoldable pub removeprefix : String → String → String
unfolding drop_prefix
removeprefix p s = or_else (drop_prefix p s) s

unfoldable pub removesuffix : String → String → String
removesuffix q String.[] = String.[]
removesuffix q (String.◌∷◌ c s) =
    let rest = removesuffix q s in if String.◌∷◌ c s == q then String.[] else String.◌∷◌ c rest

-- A character put before the first part.
push : Char → List String → List String
push c [] = []
push c (part ∷ parts) = String.◌∷◌ c part ∷ parts

-- The parts between the characters of a code point.
unfoldable pub split_on : ℕ → String → List String
unfolding push
split_on at String.[] = String.[] ∷ []
split_on at (String.◌∷◌ c s) =
    let parts = split_on at s in if nat_eq (code c) at then String.[] ∷ parts else push c parts

unfoldable pub rstrip_slash : String → String
rstrip_slash String.[] = String.[]
rstrip_slash (String.◌∷◌ c s) =
    let rest = rstrip_slash s in
    if nat_eq (code c) b'/' && rest == String.[] then String.[] else String.◌∷◌ c rest
