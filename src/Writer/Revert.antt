-- ===== src/Writer/Revert.antt =====
-- records.py: `revert` behind one sealed record.
use sealedrun.Prelude.{
  ◌+◌, ◌==◌, ◌≡◌, refl, true, false, List, [], ◌∷◌, ◌++◌, arith, eq_iff, eq_refl, is_nil, inl, inr,
  Bool-cases,
}
use sealedrun.Result.{ok}
use sealedrun.Model.{Doc, Record}
use sealedrun.Library.{Library}
use sealedrun.Signing.{domain_record}
use sealedrun.Signing.RoundTrip.{IsSealed, seal-IsSealed}
use sealedrun.Writer.{Writer, seal_doc, revert, init}

pub init-append : (rs : List Record) (r : Record) → init (rs ++ r ∷ []) ≡ rs
init-append [] r = refl
init-append (x ∷ []) r = refl
init-append (x ∷ y ∷ rs) r = rw (init-append (y ∷ rs) r)

pub is_nil-append : (rs : List Record) (r : Record) → is_nil (rs ++ r ∷ []) ≡ false
is_nil-append [] r = refl
is_nil-append (x ∷ rs) r = refl

-- What a successful `seal_doc` did.
pub record IsStep (lib : Library) (w w' : Writer) (doc : Doc) (entry : Record) : Type 0 where
  pub in_turn : doc.seq ≡ w.seq
  pub linked : doc.prev_hash ≡ w.head
  pub sealed : IsSealed lib lib.canonical_record (λ d. d.hash_alg) doc domain_record w.agent entry
  pub next : w' ≡ record w { records = w.records ++ entry ∷ []; seq = w.seq + 1; head = entry.hash }

module _ (lib : Library) where
  pub seal_doc-IsStep :
      (w w' : Writer) (doc : Doc) (entry : Record)
      → seal_doc lib w doc ≡ ok (w', entry)
      → IsStep lib w w' doc entry
  unfolding seal_doc
  seal_doc-IsStep w w' doc entry h = record {
    in_turn = ground arith;
    linked = ground (arith, eq_iff doc.prev_hash w.head);
    sealed =
        seal-IsSealed lib lib.canonical_record (λ d. d.hash_alg) doc domain_record w.agent entry
          (ground arith);
    next = ground arith;
  }

  -- Taking back the step that was just made gives the writer behind which it was made.
  pub revert-IsStep :
      (w w' : Writer) (doc : Doc) (entry : Record)
      → w.closed ≡ false
      → IsStep lib w w' doc entry
      → revert w' entry true ≡ ok w
  unfolding revert
  revert-IsStep w w' doc entry h s = rw s.next (
      rw
        (
          eq_refl entry.hash,
          is_nil-append w.records entry,
          init-append w.records entry,
          s.sealed.same,
          s.in_turn,
          s.linked,
        )
        (elim (Bool-cases (doc.kind == "run_end")) [ inl e ↦ rw e (rw h) | inr e ↦ rw e ]))

  -- The same for a step that ended the run: the writer is open again.
  pub revert-IsStep_end :
      (w w' : Writer) (doc : Doc) (entry : Record)
      → w.closed ≡ false
      → doc.kind ≡ "run_end"
      → IsStep lib w w' doc entry
      → revert (record w' { closed = true }) entry true ≡ ok w
  unfolding revert
  revert-IsStep_end w w' doc entry h e s = rw s.next (
      rw
        (
          eq_refl entry.hash,
          is_nil-append w.records entry,
          init-append w.records entry,
          s.sealed.same,
          s.in_turn,
          s.linked,
        )
        (rw e (rw h)))
