-- ===== src/Tests/UpstreamExamples.antt =====
-- A file of one upstream is loaded and a call is sent to it.
use sealedrun.Prelude.{
  String, ◌==◌, ◌||◌, ◌&&◌, not, ◌≡◌, refl, none, some, false, [], ◌∷◌, elem, is_nil, is_some, Dict,
  lookup, if◌then◌else◌,
}
use sealedrun.Result.{ok}
use sealedrun.Json
use sealedrun.Json.{Json}
use sealedrun.Platform.{Platform}
use sealedrun.Recorder.Upstreams.{
  Upstream, Upstreams, upstream_target, own_credential, with_credential, check_url, check_common,
  header_texts, lower_keys, serves, route, dialects_for,
}
use sealedrun.Recorder.Upstreams.Load.{
  key_env_of, key_of, pattern_texts, parse, parse_all, parse_all_mcp, load_upstreams,
}
use sealedrun.Recorder.Upstreams.Credentials.{key_header, client_header}
use sealedrun.Recorder.Upstreams.Routing.{dialects_for-route}
use sealedrun.Recorder.Upstreams.Loaded.{IsChecked, route-load_upstreams, with_credential-route}

abbrev toy_platform : Platform
toy_platform = record {
  lower = λ s. s;
  fnmatchcase = λ name pattern. pattern == "*" || pattern == name;
  urlsplit = λ url.
      some (record {
        username = none;
        password = none;
        hostname = some "h";
        query = "";
        fragment = "";
      });
}

abbrev toy_file : Json
toy_file = Json.object (
    Json.field "upstreams"
      (Json.array (
        Json.item
          (Json.object (
            Json.field "name" (Json.text "a") (
              Json.field "url" (Json.text "https://h") (
                Json.field "key_env" (Json.text "K") (
                  Json.field "headers"
                    (Json.object (Json.field "x-team" (Json.text "t") Json.no_fields))
                    Json.no_fields)))))
          Json.no_items))
      Json.no_fields)

abbrev toy_upstream : Upstream
toy_upstream = record {
  name = "a";
  url = "https://h";
  dialect = "openai";
  location = "unknown";
  models = "*" ∷ [];
  auth = "bearer";
  key_env = some "K";
  key = some "s";
  headers = ("x-team", "t") ∷ [];
  client_auth = false;
}

abbrev toy_upstreams : Upstreams
toy_upstreams = record { upstreams = toy_upstream ∷ []; mcp_servers = []; a2a_agents = [] }

toy_loaded : load_upstreams toy_platform (("K", "s") ∷ []) (some toy_file) ≡ ok toy_upstreams
unfolding load_upstreams parse_all parse_all_mcp parse key_env_of key_of pattern_texts check_url
    check_common header_texts lower_keys
toy_loaded = refl

toy_routed : route toy_platform toy_upstreams.upstreams "openai" "gpt" ≡ some toy_upstream
unfolding route serves
toy_routed = refl

-- The key goes into its header, and the client's own credential goes nowhere.
toy_headers :
    with_credential (upstream_target toy_upstream) (("authorization", "Bearer mine") ∷ [])
    ≡ ("x-team", "t") ∷ ("authorization", "Bearer s") ∷ []
unfolding with_credential own_credential
toy_headers = refl

abbrev toy_client : Dict String
toy_client = ("cookie", "c") ∷ []

route-load_upstreams_example : IsChecked toy_platform toy_upstream
route-load_upstreams_example =
    route-load_upstreams toy_platform (("K", "s") ∷ []) (some toy_file) toy_upstreams "openai" "gpt"
      toy_upstream toy_loaded toy_routed

with_credential-route_example :
    lookup "cookie" (with_credential (upstream_target toy_upstream) toy_client) ≡ (
      if toy_upstream.client_auth && not (is_nil toy_client)
      then client_header toy_client "cookie"
      else key_header (upstream_target toy_upstream) "cookie")
with_credential-route_example =
    with_credential-route toy_platform (("K", "s") ∷ []) (some toy_file) toy_upstreams "openai"
      "gpt" toy_upstream toy_client "cookie" toy_loaded toy_routed refl

dialects_for-route_example :
    elem "openai" (dialects_for toy_platform (toy_upstream ∷ []) "gpt")
    ≡ is_some (route toy_platform (toy_upstream ∷ []) "openai" "gpt")
dialects_for-route_example = dialects_for-route toy_platform (toy_upstream ∷ []) "openai" "gpt"
