-- ===== src/Recorder/Live/Ended.antt =====
-- live.py: the outcomes of `end` on the tables and the writers.
use sealedrun.Prelude.{String, ◌≡◌, refl, sym, ap, ◌∙◌, Bool, some, lookup, inl, inr, subst}
use sealedrun.Result.{Exc, Result, ok, err, Result-cases}
use sealedrun.Model.{Record}
use sealedrun.Library.{Library}
use sealedrun.Writer.{Writer, Fields, finish}
use sealedrun.Writer.Chained.{revert-finish}
use sealedrun.Recorder.Live.{LiveRuns, settle, as_live, end_run, end_with, store_end, drop_writer}
use sealedrun.Recorder.Live.Atomic.{
  settle_failed, as_live-eq-ok, first, second, kept, writer_of-found,
}

module _ (lib : Library) where
  end-refused :
      (run_id : String) (fields : Fields) (committed : Bool) (live : LiveRuns) (w : Writer)
      (e : Exc)
      → lookup run_id live.writers ≡ some w
      → as_live (finish lib w fields) ≡ err e
      → end_run lib run_id fields committed live ≡ (err e, live)
  unfolding end_run end_with
  end-refused run_id fields committed live w e found h =
      ap (end_with lib fields committed run_id) (writer_of-found run_id live w found)
      ∙ rw (end_with, h)

  end-sealed :
      (run_id : String) (fields : Fields) (committed : Bool) (live : LiveRuns) (w w' : Writer)
      (entry : Record)
      → lookup run_id live.writers ≡ some w
      → as_live (finish lib w fields) ≡ ok (w', entry)
      → end_run lib run_id fields committed live
        ≡ drop_writer lib run_id (
            settle w' entry "run_end not stored"
              (store_end lib run_id entry live.db)
              committed
              live)
  unfolding end_run end_with
  end-sealed run_id fields committed live w w' entry found h =
      ap (end_with lib fields committed run_id) (writer_of-found run_id live w found)
      ∙ rw (end_with, h)

  drop_writer-err :
      (run_id : String) (outcome : Result Record × LiveRuns) (live : LiveRuns) (e : Exc)
      → drop_writer lib run_id outcome ≡ (err e, live)
      → outcome ≡ (err e, live)
  unfolding drop_writer
  drop_writer-err run_id (err e', l) live e h = h
  drop_writer-err run_id (ok entry, l) live e h = absurd (cc (first h))

  -- The end of a run that fails leaves the tables as they were, and the run's writer in memory as
  -- it was: a `run_end` that was sealed and not stored is taken back, and the run goes on.
  pub end_failed :
      (run_id : String) (fields : Fields) (committed : Bool) (live live' : LiveRuns) (w : Writer)
      (e : Exc)
      → lookup run_id live.writers ≡ some w
      → w.run_id ≡ run_id
      → end_run lib run_id fields committed live ≡ (err e, live')
      → (live'.db ≡ live.db) × (lookup run_id live'.writers ≡ some w)
  unfolding end_run end_with
  end_failed run_id fields committed live live' w e found named h =
      elim (Result-cases (as_live (finish lib w fields))) [
        | inr (e', refused) ↦
            subst (λ (l : LiveRuns). (l.db ≡ live.db) × (lookup run_id l.writers ≡ some w))
              (second (sym (end-refused run_id fields committed live w e' found refused) ∙ h))
              (refl, found)
        | inl ((w', entry), sealed) ↦
            let (taken, same_run) = revert-finish lib w w' fields entry (as_live-eq-ok _ sealed) in
            let settled =
              drop_writer-err run_id _ live' e
                (sym (end-sealed run_id fields committed live w w' entry found sealed) ∙ h) in
            subst (λ (l : LiveRuns). (l.db ≡ live.db) × (lookup run_id l.writers ≡ some w))
              (sym (
                settle_failed lib w w' entry _ _ committed live live' e
                  (record { taken = taken; same_run = same_run }) settled))
              (refl, kept w.run_id run_id w live.writers named)
      ]
