-- ===== src/Recorder/Upstreams/Loaded.antt =====
-- What the upstreams of a file satisfy (services/recorder/src/sealedrun_recorder/upstreams.py).
use text.Mathlib.Text.{starts_with}
use sealedrun.Prelude.{
  String, ◌==◌, ◌≡◌, subst, true, false, ◌&&◌, ◌||◌, not, inl, inr, Option, none, some, List, [],
  ◌∷◌, elem, is_nil, is_some, if◌then◌else◌, Dict, lookup, map, arith, eq_iff, Bool-cases,
}
use sealedrun.Result.{
  Result, ok, raise_if, or_raise, >>=-eq-ok, >>-eq-ok, raise_if-eq-ok, or_raise-eq-ok, ok-injective,
}
use sealedrun.Json
use sealedrun.Json.{Json, as_text, as_object, truthy}
use sealedrun.Platform.{Platform, UrlParts}
use sealedrun.Recorder.Upstreams.{
  Upstream, Upstreams, dialects, locations, auth_styles, credential_headers, upstream_target,
  with_credential, route, serves, check_url, check_common, distinct,
}
use sealedrun.Recorder.Upstreams.Credentials.{
  HasNoCredential, check_common-HasNoCredential, lookup-with_credential, key_header, client_header,
}
use sealedrun.Recorder.Upstreams.Load.{
  parse, parse_all, parse_all_mcp, load_upstreams, one_of, text_or, default_style, auth_mode,
  static_headers, models_of, key_env_of, entries,
}

module _ (platform : Platform) where
  -- A URL of http(s) in which `urlsplit` finds no user, password, query or fragment.
  pub record IsBare (url : String) : Type 0 where
    pub scheme : (starts_with url "http://" || starts_with url "https://") ≡ true
    pub parts : UrlParts
    pub split : platform.urlsplit url ≡ some parts
    pub no_username : is_some parts.username ≡ false
    pub no_password : is_some parts.password ≡ false
    pub no_query : parts.query ≡ ""
    pub no_fragment : parts.fragment ≡ ""

  check_url-IsBare :
      (value : Option Json) (url : String) → check_url platform value ≡ ok url → IsBare url
  unfolding check_url
  check_url-IsBare value url h =
      let (u, a, h1) = >>=-eq-ok (or_raise (Json.given_text value) _) _ h in
      let (h2, b) =
        >>-eq-ok (raise_if (not (starts_with u "http://") && not (starts_with u "https://")) _) _
          h1 in
      let (parts, c, h3) = >>=-eq-ok (or_raise (platform.urlsplit u) _) _ h2 in
      let (h4, d) = >>-eq-ok (raise_if (is_some parts.username || is_some parts.password) _) _ h3 in
      let (h5, e) =
        >>-eq-ok (raise_if (not (parts.query == "") || not (parts.fragment == "")) _) _ h4 in
      subst (λ (x : String). IsBare x) (ok-injective h5)
        (record {
          scheme = (let r = raise_if-eq-ok _ _ b in ground arith);
          parts = parts;
          split = or_raise-eq-ok _ _ c;
          no_username = (let r = raise_if-eq-ok _ _ d in ground arith);
          no_password = (let r = raise_if-eq-ok _ _ d in ground arith);
          no_query = (let r = raise_if-eq-ok _ _ e in ground (arith, eq_iff parts.query ""));
          no_fragment = (let r = raise_if-eq-ok _ _ e in ground (arith, eq_iff parts.fragment ""));
        })

  one_of-elem :
      (allowed : List String) (given : Result String) (v : String)
      → one_of allowed given ≡ ok v
      → elem v allowed ≡ true
  one_of-elem allowed given v h =
      let (x, a, h1) = >>=-eq-ok given _ h in
      let (h2, b) = >>-eq-ok (raise_if (not (elem x allowed)) _) _ h1 in
      let r = raise_if-eq-ok _ _ b in
      subst (λ (y : String). elem y allowed ≡ true) (ok-injective h2) (ground arith)

  -- What `_parse` lets through.
  pub record IsChecked (u : Upstream) : Type 0 where
    pub named : (u.name == "") ≡ false
    pub bare : IsBare u.url
    pub spoken : elem u.dialect dialects ≡ true
    pub placed : elem u.location locations ≡ true
    pub styled : elem u.auth auth_styles ≡ true
    pub clean : HasNoCredential u.headers

  module _ (env : Dict String) where
    parse-IsChecked : (value : Json) (u : Upstream) → parse platform env value ≡ ok u → IsChecked u
    unfolding parse
    parse-IsChecked value u h =
        let (entry, a, h1) = >>=-eq-ok (or_raise (as_object value) _) _ h in
        let (name, b, h2) = >>=-eq-ok (or_raise (Json.text_at "name" value) _) _ h1 in
        let (h3, c) = >>-eq-ok (raise_if (name == "") _) _ h2 in
        let (url, d, h4) = >>=-eq-ok (check_url platform (Json.field_of "url" entry)) _ h3 in
        let (dialect, e, h5) =
          >>=-eq-ok (one_of dialects (text_or entry "dialect" "openai")) _ h4 in
        let (location, f, h6) =
          >>=-eq-ok (one_of locations (text_or entry "location" "unknown")) _ h5 in
        let (models, g, h7) = >>=-eq-ok (or_raise (models_of entry) _) _ h6 in
        let (key_env, i, h8) = >>=-eq-ok (key_env_of entry) _ h7 in
        let (auth, j, h9) =
          >>=-eq-ok (one_of auth_styles (text_or entry "auth" (default_style dialect key_env))) _
            h8 in
        let ((client_auth, headers), k, h10) =
          >>=-eq-ok (check_common platform (auth_mode entry) (static_headers entry)) _ h9 in
        subst (λ (x : Upstream). IsChecked x) (ok-injective h10)
          (record {
            named = raise_if-eq-ok _ _ c;
            bare = check_url-IsBare (Json.field_of "url" entry) url d;
            spoken = one_of-elem dialects (text_or entry "dialect" "openai") dialect e;
            placed = one_of-elem locations (text_or entry "location" "unknown") location f;
            styled =
                one_of-elem auth_styles (text_or entry "auth" (default_style dialect key_env)) auth
                  j;
            clean =
                check_common-HasNoCredential platform (auth_mode entry) (static_headers entry)
                  client_auth headers k;
          })

    abbrev AllChecked : List Upstream → Type 0
    AllChecked [] = Unit
    AllChecked (u ∷ us) = IsChecked u × AllChecked us

    parse_all-AllChecked :
        (values : List Json) (us : List Upstream)
        → parse_all platform env values ≡ ok us
        → AllChecked us
    unfolding parse_all
    parse_all-AllChecked [] us h = subst (λ (x : List Upstream). AllChecked x) (ok-injective h) tt
    parse_all-AllChecked (v ∷ values) us h =
        let (u, a, h1) = >>=-eq-ok (parse platform env v) _ h in
        let (rest, b, h2) = >>=-eq-ok (parse_all platform env values) _ h1 in
        subst (λ (x : List Upstream). AllChecked x) (ok-injective h2)
          (parse-IsChecked v u a, parse_all-AllChecked values rest b)

    load_upstreams-AllChecked :
        (file : Option Json) (us : Upstreams)
        → load_upstreams platform env file ≡ ok us
        → AllChecked us.upstreams
    unfolding load_upstreams
    load_upstreams-AllChecked none us h =
        subst (λ (x : Upstreams). AllChecked x.upstreams) (ok-injective h) tt
    load_upstreams-AllChecked (some value) us h =
        let (document, a, h1) =
          >>=-eq-ok
            (or_raise (as_object (if truthy value then value else Json.object Json.no_fields)) _) _
            h in
        let (listed, b, h2) = >>=-eq-ok (entries platform env document "upstreams") _ h1 in
        let (servers, c, h3) = >>=-eq-ok (entries platform env document "mcp_servers") _ h2 in
        let (agents, d, h4) = >>=-eq-ok (entries platform env document "a2a_agents") _ h3 in
        let (upstreams, e, h5) = >>=-eq-ok (parse_all platform env listed) _ h4 in
        let (mcp, f, h6) = >>=-eq-ok (parse_all_mcp platform env servers) _ h5 in
        let (a2a, g, h7) = >>=-eq-ok (parse_all_mcp platform env agents) _ h6 in
        let (h8, i) = >>-eq-ok (raise_if (not (distinct (map (λ x. x.name) upstreams))) _) _ h7 in
        let (h9, j) = >>-eq-ok (raise_if (not (distinct (map (λ x. x.name) mcp))) _) _ h8 in
        let (h10, k) = >>-eq-ok (raise_if (not (distinct (map (λ x. x.name) a2a))) _) _ h9 in
        subst (λ (x : Upstreams). AllChecked x.upstreams) (ok-injective h10)
          (parse_all-AllChecked listed upstreams e)

    route-IsChecked :
        (us : List Upstream) (dialect model : String) (u : Upstream)
        → AllChecked us
        → route platform us dialect model ≡ some u
        → IsChecked u
    unfolding route
    route-IsChecked [] dialect model u checked h = absurd (cc h)
    route-IsChecked (v ∷ us) dialect model u checked h =
        let (c, rest) = checked in
        elim (Bool-cases (v.dialect == dialect && serves platform v model)) [
          | inl e ↦ subst (λ (x : Upstream). IsChecked x) (ground (arith, h, e)) c
          | inr e ↦ route-IsChecked us dialect model u rest (ground (arith, h, e))
        ]

    -- An upstream to which a request is routed, out of a file that loads, has a name, a URL of
    -- http(s) in which `urlsplit` finds no user, password, query or fragment, a known dialect,
    -- location and credential style, and no static header that is a credential.
    pub route-load_upstreams :
        (file : Option Json) (us : Upstreams) (dialect model : String) (u : Upstream)
        → load_upstreams platform env file ≡ ok us
        → route platform us.upstreams dialect model ≡ some u
        → IsChecked u
    route-load_upstreams file us dialect model u loaded routed =
        route-IsChecked us.upstreams dialect model u (load_upstreams-AllChecked file us loaded)
          routed

    -- For an upstream to which a request is routed, out of a file that loads, and a credential
    -- header: the call carries the client's value where the upstream passes the client's
    -- credentials through and the client sent any, the configured key in the header of its style
    -- otherwise, and nothing else.
    pub with_credential-route :
        (file : Option Json) (us : Upstreams) (dialect model : String) (u : Upstream)
        (client : Dict String) (header : String)
        → load_upstreams platform env file ≡ ok us
        → route platform us.upstreams dialect model ≡ some u
        → elem header credential_headers ≡ true
        → lookup header (with_credential (upstream_target u) client) ≡ (
            if u.client_auth && not (is_nil client)
            then client_header client header
            else key_header (upstream_target u) header)
    with_credential-route file us dialect model u client header loaded routed listed =
        let checked = route-load_upstreams file us dialect model u loaded routed in
        lookup-with_credential (upstream_target u) client header (checked.clean header listed)
