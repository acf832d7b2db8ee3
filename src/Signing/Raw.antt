-- ===== src/Signing/Raw.antt =====
-- packages/sealedrun-py/src/sealedrun/signing.py on JSON objects with all of their fields, the
-- unprotected ones among the others. RFC 8785 and the JSON form of the signatures are parameters.
pub mod Sealed
use sealedrun.Prelude.{
  String, ◌==◌, ◌≡◌, refl, sym, ap, ◌∙◌, Bool, true, false, not, Option, none, some, List, [], ◌∷◌,
  ◌++◌, elem, filter, filter-append, append_nil, Dict, lookup, arith, eq_iff, inl, inr, Bool-cases,
  if◌then◌else◌,
}
use sealedrun.Result.{
  key_error, type_error, Result, ok, err, or_raise, ◌>>=◌, >>=-eq-ok, or_raise-eq-ok, ok-injective,
}
use sealedrun.Model.{Bytes}
use sealedrun.Json
use sealedrun.Json.{Json}
use sealedrun.Library.{Library}
use sealedrun.Hashing.{object_hash}
use sealedrun.Keys.{Signers, sign}
use sealedrun.Signing.{signing_input}

abbrev pub unprotected_fields : List String
unprotected_fields = "hash" ∷ "signatures" ∷ "principal_signatures" ∷ []

abbrev is_protected : String × Json → Bool
is_protected entry = not (elem entry.0 unprotected_fields)

unfoldable pub protected_part : Dict Json → Dict Json
protected_part obj = filter (λ entry. is_protected entry) obj

-- `obj[key]` where a text is needed.
abbrev pub text_field : String → Dict Json → Result String
text_field key obj = do
  value ← or_raise (lookup key obj) (key_error key)
  or_raise (Json.as_text value) (type_error "not a text")

module _ (lib : Library) (canonical : Dict Json → Option Bytes) (encoded : Dict String → Json) where
  -- `seal`
  unfoldable pub seal_object : Dict Json → Bytes → Signers → Result (Dict Json)
  seal_object obj domain keys = do
    let protected = protected_part obj
    alg ← text_field "hash_alg" protected
    hash_hex ← object_hash lib alg (canonical protected)
    message ← signing_input lib domain hash_hex
    ok (
        protected
        ++ ("hash", Json.text hash_hex) ∷ ("signatures", encoded (sign lib keys message)) ∷ [])

  -- The `try` of `check_hash`.
  abbrev pub recomputed : Dict Json → Result Bool
  recomputed obj = do
    alg ← text_field "hash_alg" obj
    h ← object_hash lib alg (canonical (protected_part obj))
    stored ← text_field "hash" obj
    ok (h == stored)

  -- `check_hash`
  unfoldable pub check_object_hash : Dict Json → Bool
  check_object_hash obj = elim (recomputed obj) [ ok b ↦ b | err e ↦ false ]
