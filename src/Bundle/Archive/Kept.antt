-- ===== src/Bundle/Archive/Kept.antt =====
-- bundle.py: the files of an archive put in their place.
use text.Mathlib.Text.{starts_with}
use sealedrun.Prelude.{
  String, ◌==◌, ◌≡◌, refl, sym, ◌∙◌, subst, not, inl, inr, some, List, [], ◌∷◌, Dict, lookup,
  insert, lookup-insert, arith, eq_iff, Bool-cases, if_either,
}
use sealedrun.Result.{ok, or_raise, >>=-eq-ok, >>-eq-ok, raise_if-eq-ok, ok-injective}
use sealedrun.Model.{Bytes}
use sealedrun.Library.{Library}
use sealedrun.Hashing.{payload_digest}
use sealedrun.Bundle.{Bundle, refuse_if}
use sealedrun.Prelude.Texts.{split_on, removeprefix, removesuffix}
use sealedrun.Bundle.Archive.{Codec, key_of_parts, payload_key, place_file, read_run, must_match}

module _ (lib : Library) where
  -- The bodies of a table stand under their digests.
  abbrev pub AllDigested : String → Dict Bytes → Type 0
  AllDigested hash_alg payloads =
      (digest : String) (body : Bytes)
      → lookup digest payloads ≡ some body
      → payload_digest lib hash_alg body ≡ ok digest

  key_of_parts-digest :
      (parts : List String) (content : Bytes) (hash_alg key : String)
      → key_of_parts lib parts content hash_alg ≡ ok key
      → payload_digest lib hash_alg content ≡ ok key
  unfolding key_of_parts
  key_of_parts-digest [] content hash_alg key h = absurd (cc h)
  key_of_parts-digest (a ∷ []) content hash_alg key h = absurd (cc h)
  key_of_parts-digest (a ∷ b ∷ []) content hash_alg key h = absurd (cc h)
  key_of_parts-digest (a ∷ b ∷ c ∷ d ∷ parts) content hash_alg key h = absurd (cc h)
  key_of_parts-digest (folder ∷ alg ∷ name ∷ []) content hash_alg key h =
      let (h1, a) = >>-eq-ok (refuse_if (not (alg == hash_alg)) _ _) _ h in
      let (digest, b, h2) = >>=-eq-ok (payload_digest lib hash_alg content) _ h1 in
      let (h3, c) = >>-eq-ok (refuse_if (not (name == digest)) _ _) _ h2 in
      let r = raise_if-eq-ok (not (name == digest)) _ c in
      let same = (eq_iff name digest).0 (ground arith) in
      subst (λ (x : String). payload_digest lib hash_alg content ≡ ok x)
        (sym same ∙ ok-injective h3) b

  payload_key-digest :
      (path : String) (content : Bytes) (hash_alg key : String)
      → payload_key lib path content hash_alg ≡ ok key
      → payload_digest lib hash_alg content ≡ ok key
  unfolding payload_key
  payload_key-digest path content hash_alg key h =
      key_of_parts-digest (split_on b'/' path) content hash_alg key h

  insert-AllDigested :
      (hash_alg key : String) (content : Bytes) (payloads : Dict Bytes)
      → payload_digest lib hash_alg content ≡ ok key
      → AllDigested hash_alg payloads
      → AllDigested hash_alg (insert key content payloads)
  insert-AllDigested hash_alg key content payloads digested all_digested digest body h =
      elim (Bool-cases (key == digest)) [
        | inl e ↦
            let same = (eq_iff key digest).0 e in
            let own : content ≡ body =
              ground (arith, lookup-insert key digest content payloads, h, e) in
            subst (λ (x : Bytes). payload_digest lib hash_alg x ≡ ok digest) own
              (subst (λ (x : String). payload_digest lib hash_alg content ≡ ok x) same digested)
        | inr e ↦
            all_digested digest body
              (ground (arith, lookup-insert key digest content payloads, h, e))
      ]

  -- A file put in its place leaves the manifest and keeps the bodies under their digests.
  abbrev pub IsKept : Bundle → Bundle → String → Type 0
  IsKept before after hash_alg =
      (after.manifest ≡ before.manifest)
      × (AllDigested hash_alg before.payloads → AllDigested hash_alg after.payloads)

  module _ (codec : Codec) where
    pub place_file-IsKept :
        (hash_alg path : String) (content : Bytes) (bundle placed : Bundle)
        → place_file lib codec hash_alg path content bundle ≡ ok placed
        → IsKept bundle placed hash_alg
    unfolding place_file
    place_file-IsKept hash_alg path content bundle placed =
        if_either (starts_with path "delegations/")
          (λ h.
            let (doc, a, h1) = >>=-eq-ok (or_raise (codec.json_delegation content) _) _ h in
            let (h2, b) = >>-eq-ok (must_match lib (codec.delegation_errors doc)) _ h1 in
            subst (λ (x : Bundle). IsKept bundle x hash_alg) (ok-injective h2) (refl, λ d. d))
          (if_either (starts_with path "runs/")
            (λ h.
              let run_id = removesuffix ".jsonl" (removeprefix "runs/" path) in
              let (records, a, h1) = >>=-eq-ok (read_run lib codec run_id content) _ h in
              subst (λ (x : Bundle). IsKept bundle x hash_alg) (ok-injective h1) (refl, λ d. d))
            (if_either (starts_with path "payloads/")
              (λ h.
                let (key, a, h1) = >>=-eq-ok (payload_key lib path content hash_alg) _ h in
                let digested = payload_key-digest path content hash_alg key a in
                subst (λ (x : Bundle). IsKept bundle x hash_alg) (ok-injective h1)
                  (refl, insert-AllDigested hash_alg key content bundle.payloads digested))
              (if_either (starts_with path "anchors/")
                (λ h.
                  let (receipt, a, h1) = >>=-eq-ok (or_raise (codec.json_receipt content) _) _ h in
                  subst (λ (x : Bundle). IsKept bundle x hash_alg) (ok-injective h1) (refl, λ d. d))
                (λ h.
                  subst (λ (x : Bundle). IsKept bundle x hash_alg) (ok-injective h)
                    (refl, λ d. d)))))
