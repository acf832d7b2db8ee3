-- ===== src/Recorder/Upstreams/Load.antt =====
-- upstreams.py: `_parse`, `_parse_mcp` and `load_upstreams` on the value of the YAML file. A value
-- that a set cannot test (TypeError) is an error like one that is not in it.
use sealedrun.Prelude.{
  ℕ, ◌+◌, String, ◌==◌, Bool, ◌&&◌, ◌||◌, not, Option, none, some, List, [], ◌∷◌, elem, is_nil,
  is_some, or_else, if◌then◌else◌, nat_eq, leb, Dict, lookup, map,
}
use sealedrun.Result.{value_error, Result, ok, err, raise_if, or_raise, ◌>>=◌, ◌>>◌}
use sealedrun.Json
use sealedrun.Json.{Json, Fields, get, as_text, as_object, as_list, truthy}
use sealedrun.Platform.{Platform}
use sealedrun.Scope.Glob.{codes}
use sealedrun.Recorder.Upstreams.{
  Upstream, McpServer, Upstreams, dialects, locations, auth_styles, mcp_auth_styles, default_auth,
  by_name, distinct, check_url, check_common,
}

abbrev nonempty : String → Bool
nonempty s = not (s == "")

-- `entry.get(key, default)` as a text; any other value is refused.
abbrev pub text_or : Fields → String → String → Result String
text_or entry key default = elim (Json.field_of key entry) [
  | none ↦ ok default
  | some v ↦ or_raise (as_text v) (value_error key)
]

-- A text of a set of texts.
abbrev pub one_of : List String → Result String → Result String
one_of allowed given = do
  value ← given
  raise_if (not (elem value allowed)) (value_error "must be one of")
  ok value

-- `key_env`: absent, `null`, or a text that is not empty.
unfoldable pub key_env_of : Fields → Result (Option String)
key_env_of entry = elim (Json.field_of "key_env" entry) [
  | none ↦ ok none
  | some v ↦ elim v [
    | Json.null ↦ ok none
    | Json.text s ↦
        if s == "" then err (value_error "key_env must be a variable name") else ok (some s)
    | _ ↦ err (value_error "key_env must be a variable name")
  ]
]

-- `env.get(key_env) if key_env else None`; an empty value is no key.
unfoldable pub key_of : Option String → Dict String → Option String
key_of none env = none
key_of (some variable) env = elim (lookup variable env) [
  | none ↦ none
  | some value ↦ if value == "" then none else some value
]

-- The texts of a list of patterns, or a refusal.
unfoldable pub pattern_texts : List Json → Option (List String)
pattern_texts [] = some []
pattern_texts (v ∷ rest) = elim (as_text v) [
  | none ↦ none
  | some s ↦
      if s == ""
      then none
      else elim (pattern_texts rest) [ none ↦ none | some more ↦ some (s ∷ more) ]
]

abbrev pub models_of : Fields → Option (List String)
models_of entry = elim (Json.field_of "models" entry) [
  | none ↦ some ("*" ∷ [])
  | some v ↦ elim (as_list v) [ none ↦ none | some values ↦ pattern_texts values ]
]

-- The characters of `MCP_NAME`, between one and 64, and perhaps a last line feed.
name_char : ℕ → Bool
name_char c =
    leb b'A' c && leb c b'Z'
    || leb b'a' c && leb c b'z'
    || leb b'0' c && leb c b'9'
    || nat_eq c b'.'
    || nat_eq c b'_'
    || nat_eq c b'-'

name_rest : ℕ → List ℕ → Bool
name_rest count [] = leb 1 count && leb count 64
name_rest count (c ∷ cs) =
    let more = name_rest (count + 1) cs in
    if name_char c then more else nat_eq c 10 && is_nil cs && leb 1 count && leb count 64

unfoldable pub mcp_name : String → Bool
unfolding name_rest name_char
mcp_name name = name_rest 0 (codes name)

abbrev pub value_or : Fields → String → Json → Json
value_or entry key default = or_else (Json.field_of key entry) default

-- `DEFAULT_AUTH[dialect] if key_env else "none"`
abbrev pub default_style : String → Option String → String
default_style dialect key_env =
    if is_some key_env then or_else (lookup dialect default_auth) "none" else "none"

abbrev pub auth_mode : Fields → Json
auth_mode entry = value_or entry "client_auth" (Json.text "replace")

abbrev pub static_headers : Fields → Json
static_headers entry = value_or entry "headers" (Json.object Json.no_fields)

module _ (platform : Platform) (env : Dict String) where
  -- `_parse`
  unfoldable pub parse : Json → Result Upstream
  unfolding pattern_texts
  parse value = do
    entry ← or_raise (as_object value) (value_error "each upstream must be a mapping")
    name ← or_raise (Json.text_at "name" value) (value_error "upstream needs a name")
    raise_if (name == "") (value_error "upstream needs a name")
    url ← check_url platform (Json.field_of "url" entry)
    dialect ← one_of dialects (text_or entry "dialect" "openai")
    location ← one_of locations (text_or entry "location" "unknown")
    models ← or_raise (models_of entry) (value_error "models must be a list of patterns")
    key_env ← key_env_of entry
    auth ← one_of auth_styles (text_or entry "auth" (default_style dialect key_env))
    (client_auth, headers) ← check_common platform (auth_mode entry) (static_headers entry)
    ok (record {
      name = name;
      url = url;
      dialect = dialect;
      location = location;
      models = models;
      auth = auth;
      key_env = key_env;
      key = key_of key_env env;
      headers = headers;
      client_auth = client_auth;
    })

  -- `_parse_mcp`, which reads the A2A agents too
  unfoldable pub parse_mcp : Json → Result McpServer
  parse_mcp value = do
    entry ← or_raise (as_object value) (value_error "each server must be a mapping")
    name ← or_raise (Json.text_at "name" value) (value_error "server needs a name")
    raise_if (not (mcp_name name)) (value_error "server needs a name")
    url ← check_url platform (Json.field_of "url" entry)
    location ← one_of locations (text_or entry "location" "unknown")
    key_env ← key_env_of entry
    auth ←
        one_of mcp_auth_styles (text_or entry "auth" (if is_some key_env then "bearer" else "none"))
    (client_auth, headers) ← check_common platform (auth_mode entry) (static_headers entry)
    ok (record {
      name = name;
      url = url;
      location = location;
      auth = auth;
      key_env = key_env;
      key = key_of key_env env;
      headers = headers;
      client_auth = client_auth;
    })

  unfoldable pub parse_all : List Json → Result (List Upstream)
  unfolding parse
  parse_all [] = ok []
  parse_all (v ∷ rest) = do u ← parse v; us ← parse_all rest; ok (u ∷ us)

  unfoldable pub parse_all_mcp : List Json → Result (List McpServer)
  parse_all_mcp [] = ok []
  parse_all_mcp (v ∷ rest) = do s ← parse_mcp v; ss ← parse_all_mcp rest; ok (s ∷ ss)

  -- `document.get(key, [])`, which must be a list
  abbrev pub entries : Fields → String → Result (List Json)
  entries document key = elim (Json.field_of key document) [
    | none ↦ ok []
    | some v ↦ or_raise (as_list v) (value_error key)
  ]

  -- `load_upstreams`: `none` is a file that is not there. A falsy document is an empty mapping.
  unfoldable pub load_upstreams : Option Json → Result Upstreams
  unfolding parse_all parse_all_mcp
  load_upstreams none = ok (record { upstreams = []; mcp_servers = []; a2a_agents = [] })
  load_upstreams (some value) = do
    document ←
        or_raise (as_object (if truthy value then value else Json.object Json.no_fields))
          (value_error "expected a mapping")
    listed ← entries document "upstreams"
    servers ← entries document "mcp_servers"
    agents ← entries document "a2a_agents"
    upstreams ← parse_all listed
    mcp_servers ← parse_all_mcp servers
    a2a_agents ← parse_all_mcp agents
    raise_if (not (distinct (map (λ u. u.name) upstreams)))
        (value_error "upstream names must be unique")
    raise_if (not (distinct (map (λ s. s.name) mcp_servers)))
        (value_error "MCP server names must be unique")
    raise_if (not (distinct (map (λ a. a.name) a2a_agents)))
        (value_error "A2A agent names must be unique")
    ok (record {
      upstreams = upstreams;
      mcp_servers = by_name mcp_servers [];
      a2a_agents = by_name a2a_agents [];
    })
