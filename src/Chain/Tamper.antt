-- ===== src/Chain/Tamper.antt =====
-- Two hash chains with one last hash (SPEC 5).
use native.Mathlib.Decide.{ℕ_discrete}
use sealedrun.Prelude.{
  ℕ, ◌+◌, String, ◌≡◌, ◌≢◌, refl, List, [], ◌∷◌, arith, length, inl, inr, ◌⊎◌, String-discrete,
}
use sealedrun.Model.{Doc, Record}
use sealedrun.Library.{Library}
use sealedrun.Chain.{Link, Linked, HasHash, head_of}

Doc-discrete : Discrete Doc
Doc-discrete = hlevel (ℕ_discrete, String-discrete)

-- The documents of a run.
abbrev pub docs : List Record → List Doc
docs [] = []
docs (r ∷ rs) = r.protected ∷ docs rs

module _ (lib : Library) where
  -- Two documents with one hash.
  pub record Collision : Type 0 where
    pub one : Doc
    pub other : Doc
    pub apart : one ≢ other
    pub hash : String
    pub one_hash : HasHash lib one hash
    pub other_hash : HasHash lib other hash

  -- Two records with one hash at one place.
  same_doc :
      (r s : Record) {run run' alg alg' prev prev' : String} {seq seq' : ℕ}
      → r.hash ≡ s.hash
      → Link lib run alg seq prev r
      → Link lib run' alg' seq' prev' s
      → (r.protected ≡ s.protected) ⊎ Collision
  same_doc r s e k l = elim (Doc-discrete r.protected s.protected) [
    | yes p ↦ inl p
    | no n ↦ inr (record {
      one = r.protected;
      other = s.protected;
      apart = n;
      hash = r.hash;
      one_hash = k.hashed;
      other_hash = cc (l.hashed, e);
    })
  ]

  -- What two chains of one length share, or a collision.
  pub same_docs :
      (run run' alg alg' : String) (seq seq' : ℕ) (prev prev' : String) (rs ss : List Record)
      → length rs ≡ length ss
      → head_of prev rs ≡ head_of prev' ss
      → Linked lib run alg seq prev rs
      → Linked lib run' alg' seq' prev' ss
      → ((docs rs ≡ docs ss) × (prev ≡ prev')) ⊎ Collision
  same_docs run run' alg alg' seq seq' prev prev' [] [] n e k l = inl (refl, e)
  same_docs run run' alg alg' seq seq' prev prev' [] (s ∷ ss) n e k l = absurd (omega (arith, n))
  same_docs run run' alg alg' seq seq' prev prev' (r ∷ rs) [] n e k l = absurd (omega (arith, n))
  same_docs run run' alg alg' seq seq' prev prev' (r ∷ rs) (s ∷ ss) n e (k, ks) (l, ls) =
      elim (same_docs run run' alg alg' (seq + 1) (seq' + 1) r.hash s.hash rs ss (omega (arith, n))
        e ks ls) [
          | inr c ↦ inr c
          | inl (d, h) ↦ elim (same_doc r s h k l) [
            | inr c ↦ inr c
            | inl p ↦ inl (cc (p, d), cc (p, k.linked, l.linked))
          ]
        ]
