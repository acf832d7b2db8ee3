-- ===== src/Platform.antt =====
-- What the recorder takes of Python's standard library by Unicode tables or by a grammar of its
-- own: `str.lower`, `fnmatch.fnmatchcase` and `urllib.parse.urlsplit`.
use sealedrun.Prelude.{String, Bool, Option}

pub record UrlParts : Type 0 where
  pub username : Option String
  pub password : Option String
  pub hostname : Option String
  pub query : String
  pub fragment : String

pub record Platform : Type 0 where
  pub lower : String → String
  -- the name, and the pattern
  pub fnmatchcase : String → String → Bool
  -- `none` is a ValueError
  pub urlsplit : String → Option UrlParts
