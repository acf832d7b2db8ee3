-- ===== src/Recorder/Upstreams.antt =====
-- services/recorder/src/sealedrun_recorder/upstreams.py: the providers and servers that the proxies
-- forward to, and the credentials that a call carries. The reading of the file is not modelled.
pub mod Load
pub mod Credentials
pub mod Routing
pub mod Loaded
use text.Mathlib.Text.{starts_with}
use Prim.Native.String.{◌++◌}
use sealedrun.Prelude.{
  ℕ, String, ◌==◌, Bool, true, false, ◌&&◌, ◌||◌, not, Option, none, some, List, [], ◌∷◌, find, any,
  all, elem, length, is_nil, is_some, or_else, if◌then◌else◌, nat_eq, Dict, lookup, insert,
  dict_keys, map, sorted_set,
}
use sealedrun.Result.{Exc, value_error, Result, ok, err, raise_if, or_raise, ◌>>=◌, ◌>>◌}
use sealedrun.Json.{
  Json, Fields, get, text_at, as_text, as_object, as_list, list_of, dict_of, truthy,
}
use sealedrun.Json
use sealedrun.Platform.{Platform, UrlParts}
use sealedrun.Prelude.Texts.{rstrip_slash}

abbrev pub dialects : List String
dialects = "openai" ∷ "anthropic" ∷ "ollama" ∷ "gemini" ∷ "systemone" ∷ []

abbrev pub locations : List String
locations = "local" ∷ "cloud" ∷ "unknown" ∷ []

abbrev pub auth_styles : List String
auth_styles = "bearer" ∷ "x-api-key" ∷ "x-goog-api-key" ∷ "api-key" ∷ "none" ∷ []

abbrev pub mcp_auth_styles : List String
mcp_auth_styles = "bearer" ∷ "x-api-key" ∷ "api-key" ∷ "none" ∷ []

abbrev pub default_auth : Dict String
default_auth =
    ("openai", "bearer")
    ∷ ("anthropic", "x-api-key")
    ∷ ("ollama", "bearer")
    ∷ ("gemini", "x-goog-api-key")
    ∷ ("systemone", "bearer")
    ∷ []

abbrev pub credential_headers : List String
credential_headers =
    "authorization" ∷ "x-api-key" ∷ "x-goog-api-key" ∷ "api-key" ∷ "cookie" ∷ "proxy-authorization"
    ∷ []

-- `Upstream`
pub record Upstream : Type 0 where
  pub name : String
  pub url : String
  pub dialect : String
  pub location : String
  pub models : List String
  pub auth : String
  pub key_env : Option String
  pub key : Option String
  pub headers : Dict String
  pub client_auth : Bool

-- `McpServer`, which is also `A2aAgent`
pub record McpServer : Type 0 where
  pub name : String
  pub url : String
  pub location : String
  pub auth : String
  pub key_env : Option String
  pub key : Option String
  pub headers : Dict String
  pub client_auth : Bool

-- What `_with_credential` reads of either.
pub record Target : Type 0 where
  pub auth : String
  pub key : Option String
  pub headers : Dict String
  pub client_auth : Bool

abbrev pub upstream_target : Upstream → Target
upstream_target u = record {
  auth = u.auth;
  key = u.key;
  headers = u.headers;
  client_auth = u.client_auth;
}

abbrev pub server_target : McpServer → Target
server_target s = record {
  auth = s.auth;
  key = s.key;
  headers = s.headers;
  client_auth = s.client_auth;
}

-- `{**headers, **client}`
unfoldable pub merge : Dict String → Dict String → Dict String
merge headers [] = headers
merge headers ((k, v) ∷ client) = merge (insert k v headers) client

-- The last lines of `_with_credential`: the configured key.
unfoldable pub own_credential : Target → Dict String
own_credential target = elim target.key [
  | none ↦ target.headers
  | some secret ↦
      if target.auth == "none"
      then target.headers
      else if target.auth == "bearer"
      then insert "authorization" ("Bearer " ++ secret) target.headers
      else insert target.auth secret target.headers
]

-- `_with_credential`; no client headers are `None` or an empty mapping.
unfoldable pub with_credential : Target → Dict String → Dict String
unfolding merge own_credential
with_credential target client =
    if target.client_auth && not (is_nil client)
    then merge target.headers client
    else own_credential target

-- `missing_key` and `ready`
unfoldable pub missing_key : Option String → Option String → Bool
missing_key key_env key = is_some key_env && not (is_some key)

unfoldable pub ready : Upstream → Dict String → Bool
unfolding missing_key
ready u client = not (missing_key u.key_env u.key) || u.client_auth && not (is_nil client)

-- `endpoint`
unfoldable pub endpoint : Upstream → String → String
endpoint u path = rstrip_slash u.url ++ path

-- `Upstreams`; the servers and agents by name, the later of two with one name.
pub record Upstreams : Type 0 where
  pub upstreams : List Upstream
  pub mcp_servers : Dict McpServer
  pub a2a_agents : Dict McpServer

abbrev pub by_name : List McpServer → Dict McpServer → Dict McpServer
by_name [] found = found
by_name (server ∷ servers) found = by_name servers (insert server.name server found)

abbrev pub distinct : List String → Bool
distinct [] = true
distinct (x ∷ xs) = not (elem x xs) && distinct xs

-- `dict.fromkeys` of a list: each key at its first place.
abbrev pub first_of_each : List String → List String → List String
first_of_each seen [] = []
first_of_each seen (x ∷ xs) =
    let more = first_of_each (x ∷ seen) xs in
    let rest = first_of_each seen xs in if elem x seen then rest else x ∷ more

module _ (platform : Platform) where
  -- `Upstream.serves`
  unfoldable pub serves : Upstream → String → Bool
  serves u model = any (λ pattern. platform.fnmatchcase model pattern) u.models

  -- `Upstreams.route`
  unfoldable pub route : List Upstream → String → String → Option Upstream
  route upstreams dialect model = find (λ u. u.dialect == dialect && serves u model) upstreams

  -- The dialects of the upstreams that serve a model, in file order.
  unfoldable pub serving : List Upstream → String → List String
  serving [] model = []
  serving (u ∷ us) model =
      let rest = serving us model in if serves u model then u.dialect ∷ rest else rest

  -- `Upstreams.dialects_for`
  unfoldable pub dialects_for : List Upstream → String → List String
  unfolding serving
  dialects_for upstreams model = first_of_each [] (serving upstreams model)

  -- `_check_url`
  unfoldable pub check_url : Option Json → Result String
  check_url value = do
    url ← or_raise (Json.given_text value) (value_error "url must be http(s)")
    raise_if (not (starts_with url "http://") && not (starts_with url "https://"))
        (value_error "url must be http(s)")
    parts ← or_raise (platform.urlsplit url) (value_error "urlsplit")
    raise_if (is_some parts.username || is_some parts.password)
        (value_error "url must not carry credentials; use key_env")
    raise_if (not (parts.query == "") || not (parts.fragment == ""))
        (value_error "url must not carry a query string or fragment")
    ok url

  -- The mapping of header names to strings, or a refusal.
  unfoldable pub header_texts : Dict Json → Option (Dict String)
  header_texts [] = some []
  header_texts ((k, v) ∷ rest) = elim (as_text v) [
    | none ↦ none
    | some s ↦ elim (header_texts rest) [ none ↦ none | some more ↦ some ((k, s) ∷ more) ]
  ]

  -- `{k.lower(): v for k, v in headers.items()}` behind `found`
  unfoldable pub lower_keys : Dict String → Dict String → Dict String
  lower_keys [] found = found
  lower_keys ((k, v) ∷ rest) found = lower_keys rest (insert (platform.lower k) v found)

  -- `_check_common`: the client credential's style and the headers, as they are kept.
  unfoldable pub check_common : Json → Json → Result (Bool × Dict String)
  unfolding header_texts lower_keys
  check_common client_auth headers = do
    style ← or_raise (as_text client_auth) (value_error "client_auth")
    raise_if (not (style == "replace") && not (style == "passthrough")) (value_error "client_auth")
    fields ← or_raise (as_object headers) (value_error "headers must map names to strings")
    texts ←
        or_raise (header_texts (dict_of fields)) (value_error "headers must map names to strings")
    raise_if (any (λ k. elem (platform.lower k) credential_headers) (dict_keys texts))
        (value_error "put credentials in key_env, not headers")
    ok (style == "passthrough", lower_keys texts [])
