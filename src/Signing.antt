-- ===== src/Signing.antt =====
-- packages/sealedrun-py/src/sealedrun/signing.py: sealing a document and checking the seal.
pub mod Raw
pub mod RoundTrip
use sealedrun.Prelude.{
  ℕ, String, ◌==◌, Bool, true, false, Option, none, some, List, [], ◌∷◌, ◌++◌, Dict,
}
use sealedrun.Result.{value_error, Result, ok, err, or_raise, ◌>>=◌}
use sealedrun.Model.{Bytes, Sealed}
use sealedrun.Library.{Library}
use sealedrun.Hashing.{object_hash}
use sealedrun.Keys.{Signers, sign, keyset_verify}

-- The bytes of "sealedrun/record/v1" and of the two other domains.
abbrev pub domain_record : Bytes
domain_record =
    115 ∷ 101 ∷ 97 ∷ 108 ∷ 101 ∷ 100 ∷ 114 ∷ 117 ∷ 110 ∷ 47 ∷ 114 ∷ 101 ∷ 99 ∷ 111 ∷ 114 ∷ 100 ∷ 47
    ∷ 118 ∷ 49 ∷ []

abbrev pub domain_delegation : Bytes
domain_delegation =
    115 ∷ 101 ∷ 97 ∷ 108 ∷ 101 ∷ 100 ∷ 114 ∷ 117 ∷ 110 ∷ 47 ∷ 100 ∷ 101 ∷ 108 ∷ 101 ∷ 103 ∷ 97 ∷ 116
    ∷ 105 ∷ 111 ∷ 110 ∷ 47 ∷ 118 ∷ 49 ∷ []

abbrev pub domain_manifest : Bytes
domain_manifest =
    115 ∷ 101 ∷ 97 ∷ 108 ∷ 101 ∷ 100 ∷ 114 ∷ 117 ∷ 110 ∷ 47 ∷ 109 ∷ 97 ∷ 110 ∷ 105 ∷ 102 ∷ 101 ∷ 115
    ∷ 116 ∷ 47 ∷ 118 ∷ 49 ∷ []

module _ (lib : Library) where
  -- `domain || 0x00 || hash_bytes`
  unfoldable pub signing_input : Bytes → String → Result Bytes
  signing_input domain hash_hex = do
    body ← or_raise (lib.from_hex hash_hex) (value_error "fromhex")
    ok (domain ++ 0 ∷ body)

  -- A `Sealed` value has its unprotected fields apart, so `protected_part` is a projection; Raw has
  -- the objects whose fields stand together.
  module _ {D : Type 0} (canonical : D → Option Bytes) (hash_alg : D → String) where
    unfoldable pub seal : D → Bytes → Signers → Result (Sealed D)
    seal doc domain keys = do
      hash_hex ← object_hash lib (hash_alg doc) (canonical doc)
      message ← signing_input domain hash_hex
      ok (record {
        protected = doc;
        hash = hash_hex;
        signatures = sign lib keys message;
        principal_signatures = none;
      })

    -- An exception of the hash is False.
    unfoldable pub check_hash : Sealed D → Bool
    check_hash obj = elim (object_hash lib (hash_alg obj.protected) (canonical obj.protected)) [
      | ok h ↦ h == obj.hash
      | err e ↦ false
    ]

  module _ {D : Type 0} where
    unfoldable pub countersign : Sealed D → Bytes → Signers → Result (Sealed D)
    countersign obj domain keys = do
      message ← signing_input domain obj.hash
      ok (record obj { principal_signatures = some (sign lib keys message) })

    -- The signatures of a field against the stored hash; an exception is False.
    unfoldable pub check_field : Sealed D → Bytes → Dict String → Dict String → Bool
    check_field obj domain keys field =
        elim (signing_input domain obj.hash >>= λ message. keyset_verify lib keys message field) [
          | ok b ↦ b
          | err e ↦ false
        ]

    -- `check_signatures` on `signatures`
    unfoldable pub check_signatures : Sealed D → Bytes → Dict String → Bool
    unfolding check_field
    check_signatures obj domain keys = check_field obj domain keys obj.signatures
