-- ===== src/Recorder/Live/Rows.antt =====
-- live.py: what any `append` and any look for a writer leave in the tables.
use sealedrun.Prelude.{
  String, ◌≡◌, refl, sym, ap, ◌∙◌, Bool, inl, inr, [], ◌∷◌, ◌++◌, lookup, Option-cases,
}
use sealedrun.Result.{Exc, Result, ok, err, Result-cases}
use sealedrun.Model.{Record}
use sealedrun.Library.{Library}
use sealedrun.Writer.{Writer}
use sealedrun.Recorder.Store.{record_row}
use sealedrun.Recorder.Live.{
  LiveRuns, Step, append, append_with, seal_step, settle, store_step, writer_of, stored_writer,
  remember, head, head_with,
}
use sealedrun.Recorder.Live.Atomic.{
  seal_step-IsOpenStep, IsOpenStep-Reverts, settle_stored, settle_failed, store_step-records, first,
  second,
}

-- An answer with a record has that record's row behind the others, and one without has no change.
abbrev pub Grown : LiveRuns → Result Record → LiveRuns → Type 0
Grown live (ok entry) after = after.db.records ≡ live.db.records ++ record_row entry ∷ []
Grown live (err e) after = after.db ≡ live.db

pub writer_of_db : (run_id : String) (live : LiveRuns) → (writer_of run_id live).1.db ≡ live.db
unfolding writer_of remember
writer_of_db run_id live = elim (Option-cases (lookup run_id live.writers)) [
  | inr (w, h) ↦ rw (writer_of, h)
  | inl h ↦ elim (Result-cases (stored_writer run_id live)) [
    | inl (w, k) ↦ rw (writer_of, h, k)
    | inr (e, k) ↦ rw (writer_of, h, k)
  ]
]

Grown-unchanged :
    (live after : LiveRuns) (answer : Result Record) (e : Exc)
    → ◌≡◌ {A = Result Record × LiveRuns} (err e, live) (answer, after)
    → Grown live answer after
Grown-unchanged live after (ok entry) e' h = absurd (cc (first h))
Grown-unchanged live after (err e) e' h = ap (λ (l : LiveRuns). l.db) (sym (second h))

head_with_db :
    (run_id : String) (found : Result Writer) (live : LiveRuns)
    → (head_with run_id (found, live)).1.db ≡ live.db
unfolding head_with
head_with_db run_id (err e) live = refl
head_with_db run_id (ok w) live = refl

pub head_db : (run_id : String) (live : LiveRuns) → (head run_id live).1.db ≡ live.db
unfolding head
head_db run_id live =
    head_with_db run_id (writer_of run_id live).0 (writer_of run_id live).1
    ∙ writer_of_db run_id live

module _ (lib : Library) where
  settle-Grown :
      (step : Step) (committed : Bool) (run_id : String) (w w' : Writer) (entry : Record)
      (live after : LiveRuns) (answer : Result Record)
      → seal_step lib w step ≡ ok (w', entry)
      → settle w' entry "record not stored"
          (store_step lib step run_id entry w.hash_alg live.db)
          committed
          live
        ≡ (answer, after)
      → Grown live answer after
  settle-Grown step committed run_id w w' entry live after (ok stored) sealed h =
      let (same, rows, writers) =
        settle_stored lib w w' entry stored _ _ committed live after
          (seal_step-IsOpenStep lib w w' step entry sealed) h in
      store_step-records lib step run_id entry w.hash_alg live.db after.db rows
      ∙ ap (λ (r : Record). live.db.records ++ record_row r ∷ []) (sym same)
  settle-Grown step committed run_id w w' entry live after (err e) sealed h =
      ap (λ (l : LiveRuns). l.db)
        (settle_failed lib w w' entry _ _ committed live after e
          (IsOpenStep-Reverts lib (seal_step-IsOpenStep lib w w' step entry sealed)) h)

  append_with-Grown :
      (step : Step) (committed : Bool) (run_id : String) (found : Result Writer)
      (live after : LiveRuns) (answer : Result Record)
      → append_with lib step committed run_id (found, live) ≡ (answer, after)
      → Grown live answer after
  unfolding append_with
  append_with-Grown step committed run_id (err e) live after answer h =
      Grown-unchanged live after answer e h
  append_with-Grown step committed run_id (ok w) live after answer h =
      elim (Result-cases (seal_step lib w step)) [
        | inr (e, k) ↦
            let refused : append_with lib step committed run_id (ok w, live) ≡ (err e, live) =
              rw (append_with, k) in
            let same = h in Grown-unchanged live after answer e (sym refused ∙ same)
        | inl ((w', entry), k) ↦
            let settled : append_with lib step committed run_id (ok w, live)
                ≡ settle w' entry "record not stored"
                    (store_step lib step run_id entry w.hash_alg live.db) committed live =
              rw (append_with, k) in
            let given : append_with lib step committed run_id (ok w, live) ≡ (answer, after) = h in
            settle-Grown step committed run_id w w' entry live after answer k (sym settled ∙ given)
      ]

  Grown-cast :
      (live live' after : LiveRuns) (answer : Result Record)
      → live.db ≡ live'.db
      → Grown live answer after
      → Grown live' answer after
  Grown-cast live live' after (ok entry) same h =
      h ∙ ap (λ d. d.records ++ record_row entry ∷ []) same
  Grown-cast live live' after (err e) same h = h ∙ same

  pub append-Grown :
      (run_id : String) (step : Step) (committed : Bool) (live : LiveRuns)
      → Grown live
          (append lib run_id step committed live).0
          (append lib run_id step committed live).1
  unfolding append
  append-Grown run_id step committed live =
      Grown-cast (writer_of run_id live).1 live (append lib run_id step committed live).1
        (append lib run_id step committed live).0 (writer_of_db run_id live)
        (append_with-Grown step committed run_id (writer_of run_id live).0 (writer_of run_id live).1
          (append lib run_id step committed live).1 (append lib run_id step committed live).0 refl)
