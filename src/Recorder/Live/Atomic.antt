-- ===== src/Recorder/Live/Atomic.antt =====
-- live.py: the outcomes of `append` on the tables and the writers.
use sealedrun.Prelude.{
  ◌+◌, String, ◌≡◌, refl, sym, ap, ◌∙◌, Bool, true, false, Option, none, some, [], ◌∷◌, ◌++◌, arith,
  eq_refl, lookup, insert, lookup-insert, inl, inr, Option-cases, subst, Dict,
}
use sealedrun.Result.{
  Exc, Result, ok, err, value_error, key_error, invalid_record, verification, body_too_large,
  type_error, runtime_error, export_error, raise_if, >>=-eq-ok, >>-eq-ok, Result-cases,
  ok-injective, live_run,
}
use sealedrun.Model.{Doc, Record}
use sealedrun.Library.{Library}
use sealedrun.Writer.{revert, Writer, Fields, preview}
use sealedrun.Writer.Revert.{IsStep, seal_doc-IsStep, revert-IsStep}
use sealedrun.Recorder.Store.{Db, get_run, record_row}
use sealedrun.Recorder.Live.{
  LiveRuns, Step, writer_of, seal_step, store_step, settle, take_back, append, append_with, as_live,
  step_payload, check_target, with_prompt,
}

pub as_live-eq-ok : {A : Type 0} (r : Result A) {a : A} → as_live r ≡ ok a → r ≡ ok a
as_live-eq-ok (ok a) h = h
as_live-eq-ok (err (value_error m)) h = absurd (cc h)
as_live-eq-ok (err (key_error m)) h = absurd (cc h)
as_live-eq-ok (err (live_run m)) h = absurd (cc h)
as_live-eq-ok (err (invalid_record m)) h = absurd (cc h)
as_live-eq-ok (err (verification c m r s)) h = absurd (cc h)
as_live-eq-ok (err (body_too_large m)) h = absurd (cc h)
as_live-eq-ok (err (type_error m)) h = absurd (cc h)
as_live-eq-ok (err (runtime_error m)) h = absurd (cc h)
as_live-eq-ok (err (export_error n m)) h = absurd (cc h)

pub second : {A B : Type 0} {p q : A × B} → p ≡ q → p.1 ≡ q.1
second e = ap (λ x. x.1) e

pub first : {A B : Type 0} {p q : A × B} → p ≡ q → p.0 ≡ q.0
first e = ap (λ x. x.0) e

pub kept : (k j : String) (w : Writer) (d : Dict Writer) → k ≡ j → lookup j (insert k w d) ≡ some w
kept k j w d h = rw (lookup-insert k j w d, h, eq_refl j)

-- A record that `revert` takes off the writer behind it.
pub record Reverts (w w' : Writer) (entry : Record) : Type 0 where
  pub taken : revert w' entry true ≡ ok w
  pub same_run : w'.run_id ≡ w.run_id

-- A step made behind an open writer.
pub record IsOpenStep (lib : Library) (w w' : Writer) (entry : Record) : Type 0 where
  pub doc : Doc
  pub was_open : w.closed ≡ false
  pub step : IsStep lib w w' doc entry

pub writer_of-found :
    (run_id : String) (live : LiveRuns) (w : Writer)
    → lookup run_id live.writers ≡ some w
    → writer_of run_id live ≡ (ok w, live)
unfolding writer_of
writer_of-found run_id live w h = rw (writer_of, h)

module _ (lib : Library) where
  preview-open :
      (w : Writer) (kind : String) (fields : Fields) (doc : Doc)
      → preview lib w kind fields ≡ ok doc
      → w.closed ≡ false
  unfolding preview
  preview-open w kind fields doc h = ground arith

  -- A step that seals makes one record behind the writer.
  pub seal_step-IsOpenStep :
      (w w' : Writer) (step : Step) (entry : Record)
      → seal_step lib w step ≡ ok (w', entry)
      → IsOpenStep lib w w' entry
  unfolding seal_step
  seal_step-IsOpenStep w w' step entry h =
      let (payload, _, h1) = >>=-eq-ok (step_payload lib w step) _ h in
      let (h2, _) = >>-eq-ok (check_target lib step.fields.target) _ h1 in
      let (extensions, _, h3) = >>=-eq-ok (with_prompt lib w step step.fields.extensions) _ h2 in
      let (doc, p, h4) = >>=-eq-ok (preview lib w step.kind _) _ (as_live-eq-ok _ h3) in
      let (h5, _) = >>-eq-ok (raise_if _ _) _ h4 in
      record {
        doc = doc;
        was_open = preview-open w step.kind _ doc p;
        step = seal_doc-IsStep lib w w' doc entry h5;
      }

  pub IsOpenStep-Reverts :
      {w w' : Writer} {entry : Record} → IsOpenStep lib w w' entry → Reverts w w' entry
  IsOpenStep-Reverts {w} {w'} {entry} s = record {
    taken = revert-IsStep lib w w' s.doc entry s.was_open s.step;
    same_run = ap (λ (v : Writer). v.run_id) s.step.next;
  }

  take_back-Reverts :
      (w w' : Writer) (entry : Record) (message : String) (live : LiveRuns)
      → Reverts w w' entry
      → take_back w' entry message live
        ≡ (err (live_run message), record live { writers = insert w.run_id w live.writers })
  unfolding take_back
  take_back-Reverts w w' entry message live s =
      rw (take_back, s.taken)
        (ap
          (λ (r : String).
            (err (live_run message), record live { writers = insert r w live.writers }))
          s.same_run)

  pub settle_failed :
      (w w' : Writer) (entry : Record) (message : String) (o : Option Db) (committed : Bool)
      (live live' : LiveRuns) (e : Exc)
      → Reverts w w' entry
      → settle w' entry message o committed live ≡ (err e, live')
      → live' ≡ record live { writers = insert w.run_id w live.writers }
  unfolding settle
  settle_failed w w' entry message none committed live live' e s h =
      let k : take_back w' entry "run not found" live ≡ (err e, live') = h in
      second (sym k ∙ take_back-Reverts w w' entry "run not found" live s)
  settle_failed w w' entry message (some db) true live live' e s h = absurd (cc h)
  settle_failed w w' entry message (some db) false live live' e s h =
      let k : take_back w' entry message live ≡ (err e, live') = h in
      second (sym k ∙ take_back-Reverts w w' entry message live s)

  pub settle_stored :
      (w w' : Writer) (entry stored : Record) (message : String) (o : Option Db) (committed : Bool)
      (live live' : LiveRuns)
      → IsOpenStep lib w w' entry
      → settle w' entry message o committed live ≡ (ok stored, live')
      → (stored ≡ entry) × (o ≡ some live'.db) × (live'.writers ≡ insert w.run_id w' live.writers)
  unfolding settle
  settle_stored w w' entry stored message none committed live live' s h =
      let k : take_back w' entry "run not found" live ≡ (ok stored, live') = h in
      absurd (cc (k, take_back-Reverts w w' entry "run not found" live (IsOpenStep-Reverts s)))
  settle_stored w w' entry stored message (some db) true live live' s h =
      (ap (λ r. r) (sym (ok-injective (first h))), cc (second h), cc (second h))
  settle_stored w w' entry stored message (some db) false live live' s h =
      let k : take_back w' entry message live ≡ (ok stored, live') = h in
      absurd (cc (k, take_back-Reverts w w' entry message live (IsOpenStep-Reverts s)))

  pub append-refused :
      (run_id : String) (step : Step) (committed : Bool) (live : LiveRuns) (w : Writer) (e : Exc)
      → lookup run_id live.writers ≡ some w
      → seal_step lib w step ≡ err e
      → append lib run_id step committed live ≡ (err e, live)
  unfolding append append_with
  append-refused run_id step committed live w e found h =
      ap (append_with lib step committed run_id) (writer_of-found run_id live w found)
      ∙ rw (append_with, h)

  pub append-sealed :
      (run_id : String) (step : Step) (committed : Bool) (live : LiveRuns) (w w' : Writer)
      (entry : Record)
      → lookup run_id live.writers ≡ some w
      → seal_step lib w step ≡ ok (w', entry)
      → append lib run_id step committed live
        ≡ settle w' entry "record not stored"
            (store_step lib step run_id entry w.hash_alg live.db)
            committed
            live
  unfolding append append_with
  append-sealed run_id step committed live w w' entry found h =
      ap (append_with lib step committed run_id) (writer_of-found run_id live w found)
      ∙ rw (append_with, h)

  pub store_step-records :
      (step : Step) (run_id : String) (entry : Record) (hash_alg : String) (db db' : Db)
      → store_step lib step run_id entry hash_alg db ≡ some db'
      → db'.records ≡ db.records ++ record_row entry ∷ []
  unfolding store_step
  store_step-records step run_id entry hash_alg db db' h =
      elim (Option-cases (get_run run_id db.runs)) [
        | inl n ↦ absurd (cc (h, n))
        | inr (run, y) ↦ cc (h, y)
      ]

  -- An append that fails, at the check, the sealing, the tables or the commit, leaves the tables
  -- as they were, and the run's writer in memory as it was: the record that was sealed and not
  -- stored is taken back.
  pub append_failed :
      (run_id : String) (step : Step) (committed : Bool) (live live' : LiveRuns) (w : Writer)
      (e : Exc)
      → lookup run_id live.writers ≡ some w
      → w.run_id ≡ run_id
      → append lib run_id step committed live ≡ (err e, live')
      → (live'.db ≡ live.db) × (lookup run_id live'.writers ≡ some w)
  append_failed run_id step committed live live' w e found named h =
      elim (Result-cases (seal_step lib w step)) [
        | inr (e', refused) ↦
            subst (λ (l : LiveRuns). (l.db ≡ live.db) × (lookup run_id l.writers ≡ some w))
              (second (sym (append-refused run_id step committed live w e' found refused) ∙ h))
              (refl, found)
        | inl ((w', entry), sealed) ↦
            subst (λ (l : LiveRuns). (l.db ≡ live.db) × (lookup run_id l.writers ≡ some w))
              (sym (
                settle_failed w w' entry _ _ committed live live' e
                  (IsOpenStep-Reverts (seal_step-IsOpenStep w w' step entry sealed))
                  (sym (append-sealed run_id step committed live w w' entry found sealed) ∙ h)))
              (refl, kept w.run_id run_id w live.writers named)
      ]

  -- An append that succeeds had its commit, and gave the next record of the run: its seq and its
  -- prev_hash are the writer's. The tables have one record row more, the record's own, and the
  -- run's writer in memory stands behind the record.
  pub append_stored :
      (run_id : String) (step : Step) (committed : Bool) (live live' : LiveRuns) (w : Writer)
      (entry : Record)
      → lookup run_id live.writers ≡ some w
      → w.run_id ≡ run_id
      → append lib run_id step committed live ≡ (ok entry, live')
      → (entry.protected.seq ≡ w.seq)
        × (entry.protected.prev_hash ≡ w.head)
        × (live'.db.records ≡ live.db.records ++ record_row entry ∷ [])
        × (lookup run_id live'.writers
            ≡ some (record w {
              records = w.records ++ entry ∷ [];
              seq = w.seq + 1;
              head = entry.hash;
            }))
  append_stored run_id step committed live live' w entry found named h =
      elim (Result-cases (seal_step lib w step)) [
        | inr (e', refused) ↦
            absurd (cc (h, append-refused run_id step committed live w e' found refused))
        | inl ((w', sealed_entry), sealed) ↦
            let settled =
              sym (append-sealed run_id step committed live w w' sealed_entry found sealed) ∙ h in
            let s = seal_step-IsOpenStep w w' step sealed_entry sealed in
            let (same, stored, behind) =
              settle_stored w w' sealed_entry entry _ _ committed live live' s settled in
            let t = subst (λ (r : Record). IsOpenStep lib w w' r) (sym same) s in
            let row =
              subst
                (λ (r : Record). store_step lib step run_id r w.hash_alg live.db ≡ some live'.db)
                (sym same) stored in
            (
              ap (λ r. r.seq) t.step.sealed.same ∙ t.step.in_turn,
              ap (λ r. r.prev_hash) t.step.sealed.same ∙ t.step.linked,
              store_step-records step run_id entry w.hash_alg live.db live'.db row,
              ap (lookup run_id) behind
                  ∙ (kept w.run_id run_id w' live.writers named
                      ∙ ap (λ (v : Writer). some v) t.step.next),
            )
      ]
