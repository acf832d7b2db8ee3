-- ===== src/Library.antt =====
-- What the package calls and does not implement: hashlib, base64, rfc8785, jsonschema, datetime
-- and the cryptography package, as one record of functions. The two witness verifiers of
-- packages/sealedrun-py/src/sealedrun/anchors parse ASN.1 with the last; they are taken with it.
use sealedrun.Prelude.{ℕ, String, Bool, Option, List, Dict}
use sealedrun.Model.{Bytes, Doc, DelegationDoc, ManifestDoc, Record, Extensions, Anchor}

-- `sealedrun.trust.Witness`, an entry of the trust list, which only the verifiers read.
pub record Witness : Type 0 where
  pub name : String
  pub keys : List String

pub record Library : Type 0 where
  -- `hashlib.new(name, data).digest()`
  pub hash_bytes : String → Bytes → Bytes
  -- `rfc8785.dumps`; `none` is a value that it refuses
  pub canonical_record : Doc → Option Bytes
  pub canonical_delegation : DelegationDoc → Option Bytes
  pub canonical_manifest : ManifestDoc → Option Bytes
  pub canonical_keys : Dict String → Bytes
  pub canonical_rule : List String → Bytes
  -- `bytes.hex`, `bytes.fromhex`
  pub hex : Bytes → String
  pub from_hex : String → Option Bytes
  -- `base64.urlsafe_b64encode(data).rstrip(b"=")` and its inverse
  pub b64url_encode : Bytes → String
  pub b64url_decode : String → Option Bytes
  -- `len` of a text, in characters
  pub text_length : String → ℕ
  -- `text.encode()`
  pub utf8 : String → Bytes
  -- the private and public keys of the cryptography package: `false` is `InvalidSignature` or
  -- `ValueError`
  pub sign_raw : String → Bytes → Bytes → Bytes
  pub public_raw : String → Bytes → Bytes
  pub ecdsa_raw : Bytes → Bytes → ℕ × ℕ
  pub ed25519_verify : Bytes → Bytes → Bytes → Bool
  pub ecdsa_verify : Bytes → Bytes → ℕ × ℕ → Bool
  pub mldsa_verify : String → Bytes → Bytes → Bytes → Bool
  -- `pow(x, -1, p)`, which raises ValueError where there is no inverse
  pub inverse_mod : ℕ → ℕ → Option ℕ
  -- `datetime.strptime` and `strftime`, on microseconds
  pub parse_timestamp : String → Option ℕ
  pub format_timestamp : ℕ → String
  -- the violations that jsonschema reports
  pub schema_errors : Record → List String
  pub extension_errors : Extensions → List String
  -- `rfc3161.verify(receipt, witness, witnesses)` and `rekor.verify(…)`
  pub rfc3161_verify : Anchor → List Witness → Bool
  pub rekor_verify : Anchor → List Witness → Bool
  -- `default_witnesses()`, the trust list that is shipped with the package
  pub trust_list : List Witness
