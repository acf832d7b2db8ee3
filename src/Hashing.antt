-- ===== src/Hashing.antt =====
-- packages/sealedrun-py/src/sealedrun/hashing.py: the registered hash algorithms.
use sealedrun.Prelude.{ℕ, zero, suc, ◌*◌, String, ◌==◌, Option, none, some, if◌then◌else◌}
use Prim.Native.String.{◌++◌}
use sealedrun.Result.{key_error, value_error, Result, ok, or_raise, ◌>>=◌}
use sealedrun.Model.{Bytes}
use sealedrun.Library.{Library}

-- `HASH_ALGS`: the hashlib name and the digest length in bytes.
pub hash_algs : String → Option (String × ℕ)
hash_algs alg =
    if alg == "sha-256"
    then some ("sha256", 32)
    else if alg == "sha-384"
    then some ("sha384", 48)
    else none

abbrev pub default_hash_alg : String
default_hash_alg = "sha-256"

unfoldable pub digest_size : String → Result ℕ
unfolding hash_algs
digest_size alg = do entry ← or_raise (hash_algs alg) (key_error alg); ok entry.1

-- `"0" * n`
unfoldable pub zeros : ℕ → String
zeros zero = ""
zeros (suc n) = "0" ++ zeros n

unfoldable pub zero_hash : String → Result String
unfolding zeros
zero_hash alg = do size ← digest_size alg; ok (zeros (size * 2))

module _ (lib : Library) where
  open lib use {hash_bytes, hex, b64url_encode}

  unfoldable pub digest : String → Bytes → Result Bytes
  unfolding hash_algs
  digest alg body = do
    entry ← or_raise (hash_algs alg) (key_error alg)
    ok (hash_bytes entry.0 body)

  -- `canonical` is the JCS form of the protected part, `none` where rfc8785 refuses it.
  unfoldable pub object_hash : String → Option Bytes → Result String
  object_hash alg canonical = do
    body ← or_raise canonical (value_error "not canonicalizable")
    h ← digest alg body
    ok (hex h)

  unfoldable pub payload_digest : String → Bytes → Result String
  payload_digest alg body = do h ← digest alg body; ok (b64url_encode h)
