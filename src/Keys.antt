-- ===== src/Keys.antt =====
-- packages/sealedrun-py/src/sealedrun/keys.py: algorithms, profiles, key sets and their signatures.
pub mod Fuel
pub mod Curve
pub mod Encoding
pub mod LowS
use sealedrun.Prelude.{
  ◌%◌, ◌+◌, ℕ, ◌-◌, ◌/◌, ◌<◌, String, ◌≡◌, ◌==◌, Bool, true, false, ◌&&◌, ◌||◌, not, Option, none,
  some, List, [], ◌∷◌, ◌++◌, all, elem, length, sorted_set, Dict, lookup, dict_keys, if◌then◌else◌,
  nat_eq, ltb,
}
use sealedrun.Result.{Exc, value_error, key_error, Result, ok, err, raise_if, or_raise, ◌>>=◌, ◌>>◌}
use sealedrun.Model.{Bytes}
use sealedrun.Library.{Library}
use sealedrun.Hashing.{digest}
use Encoding.{to_big, from_big, take_bytes, drop_bytes}
use Curve.{ed25519_key_is_valid, ed25519_r_is_acceptable}
use Prim.Native.Nat.{min}

-- `b"sealedrun/es256/seed"`
abbrev seed_domain : Bytes
seed_domain =
    115 ∷ 101 ∷ 97 ∷ 108 ∷ 101 ∷ 100 ∷ 114 ∷ 117 ∷ 110 ∷ 47 ∷ 101 ∷ 115 ∷ 50 ∷ 53 ∷ 54 ∷ 47 ∷ 115
    ∷ 101 ∷ 101 ∷ 100 ∷ []

abbrev pub p256_order : ℕ
p256_order = 0xFFFFFFFF00000000FFFFFFFFFFFFFFFFBCE6FAADA7179E84F3B9CAC2FC632551

-- `PROFILES` in file order, each pair of algorithms.
abbrev pub profiles : Dict (List String)
profiles =
    ("sealedrun-hybrid-1", "ed25519" ∷ "ml-dsa-65" ∷ [])
    ∷ ("aat-compat-1", "es256" ∷ "ml-dsa-65" ∷ [])
    ∷ ("sealedrun-hybrid-2", "ed25519" ∷ "ml-dsa-87" ∷ [])
    ∷ []

abbrev pub sig_algs : List String
sig_algs = "ed25519" ∷ "ml-dsa-65" ∷ "es256" ∷ "ml-dsa-87" ∷ []

abbrev pub seed_size : ℕ
seed_size = 32

abbrev pub texts_eq : List String → List String → Bool
texts_eq [] [] = true
texts_eq (x ∷ xs) (y ∷ ys) = x == y && texts_eq xs ys
texts_eq _ _ = false

-- The loop of `KeySet.profile` over the profiles left.
find_profile : List String → Dict (List String) → Option String
find_profile algs [] = none
find_profile algs ((name, pair) ∷ rest) =
    let next = find_profile algs rest in if texts_eq (sorted_set pair) algs then some name else next

-- `KeySet.profile`; the keys of a dictionary are distinct, so sorting them keeps each.
unfoldable pub profile : Dict String → Result String
unfolding find_profile sorted_set
profile keys =
    or_raise (find_profile (sorted_set (dict_keys keys)) profiles)
      (value_error "key set does not match a registered profile")

-- `KeySet.from_json`
unfoldable pub keyset_from_json : Dict String → Result (Dict String)
keyset_from_json value = do name ← profile value; ok value

-- `set(a) == set(b)`
abbrev pub same_members : List String → List String → Bool
same_members a b = all (λ x. elem x b) a && all (λ x. elem x a) b

-- A signer: the algorithm and the secret that `seed()` exports.
abbrev pub Signers : Type 0
Signers = Dict Bytes

module _ (lib : Library) where
  -- `KeySet.kid`
  unfoldable pub kid : Dict String → Result String
  kid keys = do h ← digest lib "sha-256" (lib.canonical_keys keys); ok (lib.b64url_encode h)

  verify_es256 : Bytes → Bytes → Bytes → Bool
  verify_es256 public_key message signature =
      if not (nat_eq (length signature) 64)
      then false
      else let r = from_big (take_bytes 32 signature) in
        let s = from_big (drop_bytes 32 signature) in
        if ltb (p256_order / 2) s then false else lib.ecdsa_verify public_key message (r, s)

  unfoldable pub verify_one : String → Bytes → Bytes → Bytes → Bool
  unfolding verify_es256
  verify_one alg public_key message signature =
      if alg == "ed25519"
      then (if not (ed25519_key_is_valid lib public_key) || not (ed25519_r_is_acceptable signature)
          then false
          else lib.ed25519_verify public_key message signature)
      else if alg == "es256"
      then verify_es256 public_key message signature
      else if alg == "ml-dsa-65"
      then lib.mldsa_verify alg public_key message signature
      else if alg == "ml-dsa-87"
      then lib.mldsa_verify alg public_key message signature
      else false

  -- The generator of `KeySet.verify` over the keys left; it stops at the first failure.
  unfoldable pub verify_each : Dict String → Bytes → Dict String → Result Bool
  verify_each [] message signatures = ok true
  verify_each ((alg, key) ∷ rest) message signatures =
      let others = verify_each rest message signatures in
      do
        public_key ← or_raise (lib.b64url_decode key) (value_error "base64")
        text ← or_raise (lookup alg signatures) (key_error alg)
        signature ← or_raise (lib.b64url_decode text) (value_error "base64")
        if verify_one alg public_key message signature then others else ok false

  -- `KeySet.verify`
  unfoldable pub keyset_verify : Dict String → Bytes → Dict String → Result Bool
  unfolding verify_each
  keyset_verify keys message signatures =
      if not (same_members (dict_keys signatures) (dict_keys keys))
      then ok false
      else verify_each keys message signatures

  -- `Es256Signer.sign`: `r || s` with low-S.
  unfoldable pub es256_sign : Bytes → Bytes → Bytes
  es256_sign key message =
      let (r, s) = lib.ecdsa_raw key message in to_big 32 r ++ to_big 32 (min s (p256_order - s))

  -- `Signer.sign`
  unfoldable pub sign_one : String → Bytes → Bytes → Bytes
  unfolding es256_sign
  sign_one alg key message =
      if alg == "es256" then es256_sign key message else lib.sign_raw alg key message

  -- `PrivateKeySet.sign`
  unfoldable pub sign : Signers → Bytes → Dict String
  unfolding sign_one
  sign [] message = []
  sign ((alg, key) ∷ rest) message =
      (alg, lib.b64url_encode (sign_one alg key message)) ∷ sign rest message

  -- `PrivateKeySet.public`
  unfoldable pub public : Signers → Dict String
  public [] = []
  public ((alg, key) ∷ rest) = (alg, lib.b64url_encode (lib.public_raw alg key)) ∷ public rest

  -- `from_seed` of the signers: the key that is loaded of a seed, for ECDSA the scalar in [1, n - 1]
  -- that a SHA-256 with a domain gives, in its 32 bytes.
  unfoldable pub key_of_seed : String → Bytes → Result Bytes
  key_of_seed alg seed =
      if alg == "es256"
      then (do
        h ← digest lib "sha-256" (seed_domain ++ seed)
        ok (to_big 32 (from_big h % (p256_order - 1) + 1)))
      else ok seed

  -- The loop of `PrivateKeySet.from_seeds`.
  load_seeds : Dict Bytes → Result Signers
  load_seeds [] = ok []
  load_seeds ((alg, seed) ∷ rest) =
      let others = load_seeds rest in
      do
        raise_if (not (elem alg sig_algs)) (value_error "unsupported signature algorithm")
        raise_if (not (nat_eq (length seed) seed_size)) (value_error "seed must be 32 bytes")
        key ← key_of_seed alg seed
        loaded ← others
        ok ((alg, key) ∷ loaded)

  -- `PrivateKeySet.from_seeds`
  unfoldable pub from_seeds : Dict Bytes → Result Signers
  unfolding load_seeds
  from_seeds seeds = do signers ← load_seeds seeds; name ← profile (public signers); ok signers
