-- ===== src/Recorder/Service.antt =====
-- services/recorder/src/sealedrun_recorder: the calls of live.py and importer.py on one state, in any
-- order. A call has the answer of the database to its commit among its arguments.
use sealedrun.Prelude.{
  ℕ, String, ◌≡◌, refl, sym, subst, Bool, true, false, inl, inr, Option, none, some, List, Dict,
  Option-cases,
}
use sealedrun.Result.{Result, ok, err, Result-cases, ◌>>=◌}
use sealedrun.Model.{Bytes, Record, Extensions}
use sealedrun.Library.{Library}
use sealedrun.Hashing.{payload_digest}
use sealedrun.Writer.{Writer, Fields, new_writer, start, finish, revert}
use sealedrun.Bundle.Archive.{Codec}
use sealedrun.Recorder.Store.{PayloadRow, Db, get_run}
use sealedrun.Recorder.Live.{
  LiveRuns, Step, as_live, remember, writer_of, seal_step, store_body, store_step, take_back,
  settle, append, append_with, store_end, drop_writer, end_run, end_with, start_run, start_with,
  start_rows, head, head_with,
}
use sealedrun.Recorder.Live.Rows.{writer_of_db}
use sealedrun.Recorder.Import.{import_bundle}
use sealedrun.Recorder.Import.Digested.{
  AllDigested, store_payload-AllDigested, import_bundle-AllDigested,
}

-- A call and the state behind it.
pub data Call (lib : Library) (codec : Codec) (live : LiveRuns) : LiveRuns → Type 0 where
  started :
      (run_id : String) (parent : Option (Dict String)) (fields : Fields) (committed : Bool)
      → Call lib codec live ((start_run lib run_id parent fields committed live).1)
  appended :
      (run_id : String) (step : Step) (committed : Bool)
      → Call lib codec live ((append lib run_id step committed live).1)
  ended :
      (run_id : String) (fields : Fields) (committed : Bool)
      → Call lib codec live ((end_run lib run_id fields committed live).1)
  asked : (run_id : String) → Call lib codec live ((head run_id live).1)
  imported :
      (archive : Bytes) (trusted : Option (List String)) (limit : ℕ) (at : String)
      (committed : Bool)
      → Call lib codec live (record live {
        db = (import_bundle lib codec archive trusted limit at committed live.db).1;
      })

-- Calls one after the other.
pub data Calls (lib : Library) (codec : Codec) (live : LiveRuns) : LiveRuns → Type 0 where
  stay : Calls lib codec live live
  next :
      {mid after : LiveRuns}
      → Calls lib codec live mid
      → Call lib codec mid after
      → Calls lib codec live after

module _ (lib : Library) where
  -- The stored bodies of a state stand under their digests.
  abbrev pub IsSound : LiveRuns → Type 0
  IsSound live = AllDigested lib live.db.payloads

  store_body-AllDigested :
      (hash_alg : String) (body : Option Bytes) (rows : List PayloadRow)
      → AllDigested lib rows
      → AllDigested lib (store_body lib hash_alg body rows)
  unfolding store_body
  store_body-AllDigested hash_alg none rows all = all
  store_body-AllDigested hash_alg (some body) rows all =
      elim (Result-cases (payload_digest lib hash_alg body)) [
        | inl (digest, h) ↦
            let stored = store_payload-AllDigested lib digest hash_alg body rows h all in
            subst (λ (x : List PayloadRow). AllDigested lib x) (sym (rw (store_body, h))) stored
        | inr (e, h) ↦
            subst (λ (x : List PayloadRow). AllDigested lib x) (sym (rw (store_body, h))) all
      ]

  store_step-AllDigested :
      (step : Step) (run_id : String) (entry : Record) (hash_alg : String) (db after : Db)
      → store_step lib step run_id entry hash_alg db ≡ some after
      → AllDigested lib db.payloads
      → AllDigested lib after.payloads
  unfolding store_step
  store_step-AllDigested step run_id entry hash_alg db after h all =
      let first = store_body-AllDigested hash_alg step.request db.payloads all in
      let both =
        store_body-AllDigested hash_alg step.response
          (store_body lib hash_alg step.request db.payloads) first in
      elim (Option-cases (get_run run_id db.runs)) [
        | inl missing ↦ absurd (cc (h, missing))
        | inr (run, found) ↦
            let same : store_body lib hash_alg step.response
                  (store_body lib hash_alg step.request db.payloads)
                ≡ after.payloads =
              cc (h, found) in
            subst (λ (x : List PayloadRow). AllDigested lib x) same both
      ]

  take_back_db :
      (w : Writer) (entry : Record) (message : String) (live : LiveRuns)
      → (take_back w entry message live).1.db ≡ live.db
  unfolding take_back
  take_back_db w entry message live = elim (Result-cases (revert w entry true)) [
    | inl (w', h) ↦ rw (take_back, h)
    | inr (e, h) ↦ rw (take_back, h)
  ]

  settle-IsSound :
      (w : Writer) (entry : Record) (message : String) (o : Option Db) (committed : Bool)
      (live : LiveRuns)
      → ((db : Db) → o ≡ some db → AllDigested lib db.payloads)
      → IsSound live
      → IsSound ((settle w entry message o committed live).1)
  unfolding settle
  settle-IsSound w entry message none committed live filled sound =
      subst (λ (x : Db). AllDigested lib x.payloads)
        (sym (take_back_db w entry "run not found" live)) sound
  settle-IsSound w entry message (some db) true live filled sound = filled db refl
  settle-IsSound w entry message (some db) false live filled sound =
      subst (λ (x : Db). AllDigested lib x.payloads) (sym (take_back_db w entry message live)) sound

  append_with-IsSound :
      (step : Step) (committed : Bool) (run_id : String) (found : Result Writer) (live : LiveRuns)
      → IsSound live
      → IsSound ((append_with lib step committed run_id (found, live)).1)
  unfolding append_with
  append_with-IsSound step committed run_id (err e) live sound = sound
  append_with-IsSound step committed run_id (ok w) live sound =
      elim (Result-cases (seal_step lib w step)) [
        | inr (e, h) ↦
            let k : append_with lib step committed run_id (ok w, live) ≡ (err e, live) =
              rw (append_with, h) in
            subst (λ (x : Result Record × LiveRuns). IsSound (x.1)) (sym k) sound
        | inl ((w', entry), h) ↦
            let k : append_with lib step committed run_id (ok w, live)
                ≡ settle w' entry "record not stored"
                    (store_step lib step run_id entry w.hash_alg live.db) committed live =
              rw (append_with, h) in
            subst (λ (x : Result Record × LiveRuns). IsSound (x.1)) (sym k)
              (settle-IsSound w' entry "record not stored"
                (store_step lib step run_id entry w.hash_alg live.db) committed live
                (λ db k. store_step-AllDigested step run_id entry w.hash_alg live.db db k sound)
                sound)
      ]

  append-IsSound :
      (run_id : String) (step : Step) (committed : Bool) (live : LiveRuns)
      → IsSound live
      → IsSound ((append lib run_id step committed live).1)
  unfolding append
  append-IsSound run_id step committed live sound =
      append_with-IsSound step committed run_id (writer_of run_id live).0 (writer_of run_id live).1
        (subst (λ (x : Db). AllDigested lib x.payloads) (sym (writer_of_db run_id live)) sound)

  store_end-AllDigested :
      (run_id : String) (entry : Record) (db after : Db)
      → store_end lib run_id entry db ≡ some after
      → AllDigested lib db.payloads
      → AllDigested lib after.payloads
  unfolding store_end
  store_end-AllDigested run_id entry db after h all = elim (Option-cases (get_run run_id db.runs)) [
    | inl missing ↦ absurd (cc (h, missing))
    | inr (run, found) ↦
        let same : db.payloads ≡ after.payloads = cc (h, found) in
        subst (λ (x : List PayloadRow). AllDigested lib x) same all
  ]

  drop_writer-IsSound :
      (run_id : String) (r : Result Record × LiveRuns)
      → IsSound (r.1)
      → IsSound ((drop_writer lib run_id r).1)
  unfolding drop_writer
  drop_writer-IsSound run_id (err e, live) sound = sound
  drop_writer-IsSound run_id (ok entry, live) sound = sound

  end_with-IsSound :
      (fields : Fields) (committed : Bool) (run_id : String) (found : Result Writer)
      (live : LiveRuns)
      → IsSound live
      → IsSound ((end_with lib fields committed run_id (found, live)).1)
  unfolding end_with
  end_with-IsSound fields committed run_id (err e) live sound = sound
  end_with-IsSound fields committed run_id (ok w) live sound =
      elim (Result-cases (as_live (finish lib w fields))) [
        | inr (e, h) ↦
            let k : end_with lib fields committed run_id (ok w, live) ≡ (err e, live) =
              rw (end_with, h) in
            subst (λ (x : Result Record × LiveRuns). IsSound (x.1)) (sym k) sound
        | inl ((w', entry), h) ↦
            let settled =
              settle w' entry "run_end not stored" (store_end lib run_id entry live.db) committed
                live in
            let k : end_with lib fields committed run_id (ok w, live)
                ≡ drop_writer lib run_id settled =
              rw (end_with, h) in
            subst (λ (x : Result Record × LiveRuns). IsSound (x.1)) (sym k)
              (drop_writer-IsSound run_id settled (
                settle-IsSound w' entry "run_end not stored" (store_end lib run_id entry live.db)
                  committed live (λ db k. store_end-AllDigested run_id entry live.db db k sound)
                  sound))
      ]

  end_run-IsSound :
      (run_id : String) (fields : Fields) (committed : Bool) (live : LiveRuns)
      → IsSound live
      → IsSound ((end_run lib run_id fields committed live).1)
  unfolding end_run
  end_run-IsSound run_id fields committed live sound =
      end_with-IsSound fields committed run_id (writer_of run_id live).0 (writer_of run_id live).1
        (subst (λ (x : Db). AllDigested lib x.payloads) (sym (writer_of_db run_id live)) sound)

  start_with-IsSound :
      (extensions : Option Extensions) (committed : Bool) (live : LiveRuns)
      (r : Result (Writer × Record))
      → IsSound live
      → IsSound ((start_with lib extensions committed live r).1)
  unfolding start_with start_rows remember
  start_with-IsSound extensions committed live (err e) sound = sound
  start_with-IsSound extensions true live (ok (w, entry)) sound = sound
  start_with-IsSound extensions false live (ok (w, entry)) sound = sound

  start_run-IsSound :
      (run_id : String) (parent : Option (Dict String)) (fields : Fields) (committed : Bool)
      (live : LiveRuns)
      → IsSound live
      → IsSound ((start_run lib run_id parent fields committed live).1)
  unfolding start_run
  start_run-IsSound run_id parent fields committed live sound =
      start_with-IsSound fields.extensions committed live
        (new_writer live.agent live.delegation run_id >>= λ w. start lib w parent fields) sound

  head_with-IsSound :
      (run_id : String) (found : Result Writer) (live : LiveRuns)
      → IsSound live
      → IsSound ((head_with run_id (found, live)).1)
  unfolding head_with
  head_with-IsSound run_id (err e) live sound = sound
  head_with-IsSound run_id (ok w) live sound = sound

  head-IsSound : (run_id : String) (live : LiveRuns) → IsSound live → IsSound ((head run_id live).1)
  unfolding head
  head-IsSound run_id live sound =
      head_with-IsSound run_id (writer_of run_id live).0 (writer_of run_id live).1
        (subst (λ (x : Db). AllDigested lib x.payloads) (sym (writer_of_db run_id live)) sound)

  module _ (codec : Codec) where
    Call-IsSound :
        {live after : LiveRuns} → Call lib codec live after → IsSound live → IsSound after
    Call-IsSound {live} (Call.started run_id parent fields committed) sound =
        start_run-IsSound run_id parent fields committed live sound
    Call-IsSound {live} (Call.appended run_id step committed) sound =
        append-IsSound run_id step committed live sound
    Call-IsSound {live} (Call.ended run_id fields committed) sound =
        end_run-IsSound run_id fields committed live sound
    Call-IsSound {live} (Call.asked run_id) sound = head-IsSound run_id live sound
    Call-IsSound {live} (Call.imported archive trusted limit at committed) sound =
        import_bundle-AllDigested lib codec archive trusted limit at committed live.db sound

    -- Behind any sequence of starts, steps, ends, heads and imports, with any answer of the database
    -- to each commit, every stored payload body has the digest that it is stored under, and the
    -- size that its row says, where those stored before had.
    pub Calls-IsSound :
        (live after : LiveRuns) → Calls lib codec live after → IsSound live → IsSound after
    Calls-IsSound live after Calls.stay sound = sound
    Calls-IsSound live after (Calls.next {mid} calls call) sound =
        Call-IsSound call (Calls-IsSound live mid calls sound)
