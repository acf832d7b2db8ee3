-- ===== src/Signing/RoundTrip.antt =====
-- signing.py: `seal` against `check_hash`.
use sealedrun.Prelude.{String, ◌≡◌, inl, inr, true, Option, arith, eq_refl, eq_iff}
use sealedrun.Result.{ok, >>=-eq-ok, Result-cases}
use sealedrun.Model.{Bytes, Sealed}
use sealedrun.Library.{Library}
use sealedrun.Hashing.{object_hash}
use sealedrun.Keys.{Signers, sign}
use sealedrun.Signing.{signing_input, seal, check_hash}

module _ (lib : Library) {D : Type 0} (canonical : D → Option Bytes) (hash_alg : D → String) where
  -- What a successful seal puts on a document.
  pub record IsSealed (doc : D) (domain : Bytes) (keys : Signers) (obj : Sealed D) : Type 0 where
    pub same : obj.protected ≡ doc
    pub hashed : object_hash lib (hash_alg doc) (canonical doc) ≡ ok obj.hash
    pub message : Bytes
    pub input : signing_input lib domain obj.hash ≡ ok message
    pub signed : obj.signatures ≡ sign lib keys message

  pub seal-IsSealed :
      (doc : D) (domain : Bytes) (keys : Signers) (obj : Sealed D)
      → seal lib canonical hash_alg doc domain keys ≡ ok obj
      → IsSealed doc domain keys obj
  unfolding seal
  seal-IsSealed doc domain keys obj h =
      let (hash_hex, p, q) = >>=-eq-ok (object_hash lib (hash_alg doc) (canonical doc)) _ h in
      let (m, r, s) = >>=-eq-ok (signing_input lib domain hash_hex) _ q in
      record { same = cc; hashed = cc (p, s); message = m; input = cc (r, s); signed = cc }

  -- A stored hash that is the recomputed one.
  pub check_hash-eq_true :
      (obj : Sealed D)
      → check_hash lib canonical hash_alg obj ≡ true
      → object_hash lib (hash_alg obj.protected) (canonical obj.protected) ≡ ok obj.hash
  unfolding check_hash
  check_hash-eq_true obj h =
      elim (Result-cases (object_hash lib (hash_alg obj.protected) (canonical obj.protected))) [
        | inl (a, e) ↦ ground (arith, e, eq_iff a obj.hash)
        | inr (x, e) ↦ ground (arith, e)
      ]

  -- What `seal` returns passes the hash check.
  pub IsSealed-check_hash :
      (doc : D) (domain : Bytes) (keys : Signers) (obj : Sealed D)
      → IsSealed doc domain keys obj
      → check_hash lib canonical hash_alg obj ≡ true
  unfolding check_hash
  IsSealed-check_hash doc domain keys obj s =
      rw (s.same, check_hash) (rw (s.hashed, check_hash) (eq_refl obj.hash))
