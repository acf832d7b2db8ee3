-- ===== src/Signing/Raw/Sealed.antt =====
-- signing.py: a sealed JSON object.
use sealedrun.Prelude.{
  String, ◌==◌, ◌≡◌, refl, sym, ap, ◌∙◌, subst, Bool, true, not, Option, none, some, [], ◌∷◌, ◌++◌,
  elem, filter, filter-append, append_nil, Dict, lookup, arith, eq_iff, eq_refl, inl, inr,
  Bool-cases, if◌then◌else◌,
}
use sealedrun.Result.{Result-cases, ◌>>=◌, Result, ok, >>=-eq-ok, ok-injective}
use sealedrun.Model.{Bytes, Sealed}
use sealedrun.Json.{Json}
use sealedrun.Library.{Library}
use sealedrun.Hashing.{object_hash}
use sealedrun.Keys.{Signers, sign}
use sealedrun.Signing.{signing_input, check_hash}
use sealedrun.Signing.Raw.{
  unprotected_fields, protected_part, text_field, seal_object, recomputed, check_object_hash,
}

-- A field that the filter keeps stays, and the others do not.
lookup-filter :
    (p : String → Bool) (key : String) (obj : Dict Json)
    → lookup key (filter (λ entry. p entry.0) obj) ≡ (if p key then lookup key obj else none)
lookup-filter p key [] = ground arith
lookup-filter p key ((k, value) ∷ obj) = elim (Bool-cases (k == key)) [
  | inl e ↦
      let same : p k ≡ p key = ap p ((eq_iff k key).0 e) in
      ground (arith, e, same, lookup-filter p key obj)
  | inr e ↦ ground (arith, e, lookup-filter p key obj)
]

lookup-protected_part :
    (key : String) (obj : Dict Json)
    → lookup key (protected_part obj)
      ≡ (if not (elem key unprotected_fields) then lookup key obj else none)
unfolding protected_part
lookup-protected_part key obj = lookup-filter (λ k. not (elem k unprotected_fields)) key obj

lookup-append :
    (key : String) (a b : Dict Json)
    → lookup key (a ++ b) ≡ (elim (lookup key a) [ none ↦ lookup key b | some value ↦ some value ])
lookup-append key [] b = refl
lookup-append key ((k, value) ∷ a) b = ground (arith, lookup-append key a b)

protected_part_again : (obj : Dict Json) → protected_part (protected_part obj) ≡ protected_part obj
unfolding protected_part
protected_part_again [] = refl
protected_part_again ((k, value) ∷ obj) = ground (arith, protected_part_again obj)

-- The two fields that a seal adds are not protected.
protected_part-append :
    (obj : Dict Json) (h signatures : Json)
    → protected_part (protected_part obj ++ ("hash", h) ∷ ("signatures", signatures) ∷ [])
      ≡ protected_part obj
unfolding protected_part
protected_part-append obj h signatures =
    filter-append _ (protected_part obj) (("hash", h) ∷ ("signatures", signatures) ∷ [])
    ∙ (append_nil _ ∙ protected_part_again obj)

protected_part-behind :
    (obj : Dict Json) (h : Json) (more : Dict Json)
    → protected_part more ≡ []
    → protected_part (obj ++ ("hash", h) ∷ more) ≡ protected_part obj
unfolding protected_part
protected_part-behind obj h more e =
    filter-append _ obj (("hash", h) ∷ more) ∙ (rw e refl ∙ append_nil _)

module _ (lib : Library) (canonical : Dict Json → Option Bytes) (encoded : Dict String → Json) where
  -- What a sealed object has.
  pub record IsSealedObject (obj : Dict Json) (domain : Bytes) (keys : Signers) (done : Dict Json)
      : Type 0 where
    pub same : protected_part done ≡ protected_part obj
    pub hash : String
    pub message : Bytes
    pub hashed : lookup "hash" done ≡ some (Json.text hash)
    pub over : signing_input lib domain hash ≡ ok message
    pub signed : lookup "signatures" done ≡ some (encoded (sign lib keys message))
    pub uncountersigned : lookup "principal_signatures" done ≡ none
    pub passes : check_object_hash lib canonical encoded done ≡ true

  -- The check of an object, by what it reads.
  check_object_hash-reads :
      (done : Dict Json) (alg hash : String) (part : Dict Json)
      → text_field "hash_alg" done ≡ ok alg
      → protected_part done ≡ part
      → object_hash lib alg (canonical part) ≡ ok hash
      → lookup "hash" done ≡ some (Json.text hash)
      → check_object_hash lib canonical encoded done ≡ true
  unfolding check_object_hash
  check_object_hash-reads done alg hash part a p o h =
      let read : recomputed lib canonical encoded done ≡ ok true =
        rw a (rw p (rw o (rw h (ap (λ b. Result.ok b) (eq_refl hash))))) in
      rw (read, check_object_hash)

  -- A sealed object has the protected part of the object that was given, whatever hash and
  -- signatures stood on that; its `hash` is the text that is signed with the domain, its `signatures`
  -- are the signers' over it, it has no countersignature, and it passes `check_hash`.
  pub seal_object-IsSealedObject :
      (obj : Dict Json) (domain : Bytes) (keys : Signers) (done : Dict Json)
      → seal_object lib canonical encoded obj domain keys ≡ ok done
      → IsSealedObject obj domain keys done
  unfolding seal_object
  seal_object-IsSealedObject obj domain keys done h =
      let (alg, a, h1) = >>=-eq-ok (text_field "hash_alg" (protected_part obj)) _ h in
      let (hash, b, h2) = >>=-eq-ok (object_hash lib alg (canonical (protected_part obj))) _ h1 in
      let (message, c, h3) = >>=-eq-ok (signing_input lib domain hash) _ h2 in
      let signatures = encoded (sign lib keys message) in
      let whole : Dict Json =
        protected_part obj ++ ("hash", Json.text hash) ∷ ("signatures", signatures) ∷ [] in
      let behind = λ (key : String).
        lookup-append key (protected_part obj)
          (("hash", Json.text hash) ∷ ("signatures", signatures) ∷ []) in
      let same = protected_part-append obj (Json.text hash) signatures in
      let hashed : lookup "hash" whole ≡ some (Json.text hash) =
        behind "hash" ∙ rw (lookup-protected_part "hash" obj) refl in
      let alg_kept : lookup "hash_alg" whole ≡ lookup "hash_alg" (protected_part obj) =
        sym (lookup-protected_part "hash_alg" whole) ∙ ap (lookup "hash_alg") same in
      let read : text_field "hash_alg" whole ≡ ok alg = rw alg_kept a in
      subst (λ (x : Dict Json). IsSealedObject obj domain keys x) (ok-injective h3)
        (record {
          same = same;
          hash = hash;
          message = message;
          hashed = hashed;
          over = c;
          signed = behind "signatures" ∙ rw (lookup-protected_part "signatures" obj) refl;
          uncountersigned =
              behind "principal_signatures"
              ∙ rw (lookup-protected_part "principal_signatures" obj) refl;
          passes = check_object_hash-reads whole alg hash (protected_part obj) read same b hashed;
        })

  -- The fields of a typed document as a JSON object: all of them protected, with its algorithm and
  -- its canonical form.
  record IsFields {D : Type 0} (form : D → Option Bytes) (alg : D → String) (fields : D → Dict Json)
      : Type 0 where
    whole : (doc : D) → protected_part (fields doc) ≡ fields doc
    named : (doc : D) → lookup "hash_alg" (fields doc) ≡ some (Json.text (alg doc))
    formed : (doc : D) → canonical (fields doc) ≡ form doc

  -- The object of a typed document with its hash and the other unprotected fields.
  object_of : {D : Type 0} → (D → Dict Json) → Sealed D → Dict Json → Dict Json
  object_of fields obj more = fields obj.protected ++ ("hash", Json.text obj.hash) ∷ more

  -- The check on a typed document, whose unprotected fields stand apart, is the check on its object.
  check_object_hash-object_of :
      {D : Type 0} (form : D → Option Bytes) (alg : D → String) (fields : D → Dict Json)
      (obj : Sealed D) (more : Dict Json)
      → IsFields form alg fields
      → protected_part more ≡ []
      → check_object_hash lib canonical encoded (object_of fields obj more)
        ≡ check_hash lib form alg obj
  unfolding check_object_hash check_hash object_of
  check_object_hash-object_of form alg fields obj more is none_protected =
      let doc = obj.protected in
      let object : Dict Json = fields doc ++ ("hash", Json.text obj.hash) ∷ more in
      let same : protected_part object ≡ fields doc =
        protected_part-behind (fields doc) (Json.text obj.hash) more none_protected
        ∙ is.whole doc in
      let alg_kept : lookup "hash_alg" object ≡ some (Json.text (alg doc)) =
        sym (lookup-protected_part "hash_alg" object)
        ∙ (ap (lookup "hash_alg") same ∙ is.named doc) in
      let unhashed : lookup "hash" (fields doc) ≡ none =
        ap (lookup "hash") (sym (is.whole doc)) ∙ lookup-protected_part "hash" (fields doc) in
      let hashed : lookup "hash" object ≡ some (Json.text obj.hash) =
        lookup-append "hash" (fields doc) (("hash", Json.text obj.hash) ∷ more)
        ∙ rw unhashed refl in
      let read : recomputed lib canonical encoded object
          ≡ (object_hash lib (alg doc) (form doc) >>= λ h. ok (h == obj.hash)) =
        rw alg_kept (rw same (rw (is.formed doc) (rw hashed refl))) in
      elim (Result-cases (object_hash lib (alg doc) (form doc))) [
        | inl (h, e) ↦ rw (read, check_object_hash) (rw (e, check_hash) refl)
        | inr (x, e) ↦ rw (read, check_object_hash) (rw (e, check_hash) refl)
      ]
