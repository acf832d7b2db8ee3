-- ===== src/Recorder/Upstreams/Credentials.antt =====
-- Which credentials a call carries to an upstream (services/recorder/src/sealedrun_recorder/upstreams.py,
-- `_check_common` and `_with_credential`).
use Prim.Native.String
use sealedrun.Prelude.{
  elem-apart, String, ◌==◌, ◌≡◌, refl, subst, Bool, true, false, ◌&&◌, not, Option, none, some, [],
  ◌∷◌, any, elem, is_nil, if◌then◌else◌, Dict, lookup, insert, dict_keys, lookup-insert, arith,
}
use sealedrun.Result.{ok, raise_if, or_raise, >>=-eq-ok, >>-eq-ok, raise_if-eq-ok, ok-injective}
use sealedrun.Json.{Json, as_text, as_object, dict_of}
use sealedrun.Platform.{Platform}
use sealedrun.Recorder.Upstreams.{
  Target, credential_headers, merge, own_credential, with_credential, header_texts, lower_keys,
  check_common,
}

-- The value that the configured key gives a header, if any.
abbrev pub key_header : Target → String → Option String
key_header target header = elim target.key [
  | none ↦ none
  | some secret ↦
      if target.auth == "none"
      then none
      else if target.auth == "bearer"
      then (if "authorization" == header then some (String.◌++◌ "Bearer " secret) else none)
      else if target.auth == header
      then some secret
      else none
]

-- What the client's headers give a header: the later of two with one name.
abbrev pub client_header : Dict String → String → Option String
client_header client header = lookup header (merge [] client)

-- A header without credentials: no header of `credential_headers` has a value.
abbrev pub HasNoCredential : Dict String → Type 0
HasNoCredential headers =
    (header : String) → elem header credential_headers ≡ true → lookup header headers ≡ none

-- The first value that is there.
abbrev pub first_value : Option String → Option String → Option String
first_value none other = other
first_value (some v) other = some v

first_value-insert :
    (o : Option String) (same : Bool) (v : String) (rest : Option String)
    → first_value o (if same then some v else rest)
      ≡ first_value (first_value o (if same then some v else none)) rest
first_value-insert none true v rest = refl
first_value-insert none false v rest = refl
first_value-insert (some w) same v rest = refl

pub lookup-merge :
    (header : String) (headers client : Dict String)
    → lookup header (merge headers client)
      ≡ first_value (client_header client header) (lookup header headers)
unfolding merge
lookup-merge header headers [] = refl
lookup-merge header headers ((k, v) ∷ client) = ground (
  arith,
  lookup-merge header (insert k v headers) client,
  lookup-merge header ((k, v) ∷ []) client,
  lookup-insert k header v headers,
  first_value-insert (client_header client header) (k == header) v (lookup header headers),
)

abbrev target_of : String → Option String → Dict String → Bool → Target
target_of auth key headers client_auth = record {
  auth = auth;
  key = key;
  headers = headers;
  client_auth = client_auth;
}

-- The header that the configured key leaves, beside headers without it.
key_lookup :
    (header auth : String) (key : Option String) (headers : Dict String) (client_auth : Bool)
    → lookup header headers ≡ none
    → lookup header (own_credential (target_of auth key headers client_auth))
      ≡ key_header (target_of auth key headers client_auth) header
unfolding own_credential
key_lookup header auth none headers client_auth absent = absent
key_lookup header auth (some secret) headers client_auth absent = ground (
  arith,
  lookup-insert "authorization" header (String.◌++◌ "Bearer " secret) headers,
  lookup-insert auth header secret headers,
  absent,
)

first_value-none : (o : Option String) → first_value o none ≡ o
first_value-none none = refl
first_value-none (some v) = refl

-- The header that a client's call carries to a target without credentials of its own.
pub lookup-with_credential :
    (target : Target) (client : Dict String) (header : String)
    → lookup header target.headers ≡ none
    → lookup header (with_credential target client) ≡ (
        if target.client_auth && not (is_nil client)
        then client_header client header
        else key_header target header)
unfolding with_credential
lookup-with_credential target client header absent = ground (
  arith,
  key_lookup header target.auth target.key target.headers target.client_auth absent,
  lookup-merge header target.headers client,
  first_value-none (client_header client header),
  absent,
)

module _ (platform : Platform) where
  -- The lower-case names of headers that `_check_common` lets through.
  lookup-lower_keys :
      (header : String) (texts found : Dict String)
      → elem header credential_headers ≡ true
      → any (λ k. elem (platform.lower k) credential_headers) (dict_keys texts) ≡ false
      → lookup header found ≡ none
      → lookup header (lower_keys platform texts found) ≡ none
  unfolding lower_keys
  lookup-lower_keys header [] found listed clean absent = absent
  lookup-lower_keys header ((k, v) ∷ texts) found listed clean absent = ground (
    arith,
    lookup-lower_keys header texts (insert (platform.lower k) v found) listed,
    elem-apart header (platform.lower k) credential_headers listed,
    lookup-insert (platform.lower k) header v found,
    clean,
    absent,
  )

  pub check_common-HasNoCredential :
      (style headers : Json) (client_auth : Bool) (kept : Dict String)
      → check_common platform style headers ≡ ok (client_auth, kept)
      → HasNoCredential kept
  unfolding check_common
  check_common-HasNoCredential style headers client_auth kept h =
      let (s, a, h1) = >>=-eq-ok (or_raise (as_text style) _) _ h in
      let (h2, b) = >>-eq-ok (raise_if _ _) _ h1 in
      let (fields, c, h3) = >>=-eq-ok (or_raise (as_object headers) _) _ h2 in
      let (texts, d, h4) = >>=-eq-ok (or_raise (header_texts platform (dict_of fields)) _) _ h3 in
      let (h5, e) = >>-eq-ok (raise_if _ _) _ h4 in
      λ header listed.
        subst (λ (x : Bool × Dict String). lookup header x.1 ≡ none) (ok-injective h5)
          (lookup-lower_keys header texts [] listed (raise_if-eq-ok _ _ e) refl)
