-- ===== src/Recorder/Live.antt =====
-- services/recorder/src/sealedrun_recorder/live.py: one writer per run over the tables. An operation
-- holds its run's lock from end to end, so it is one step here. `committed` is the database's
-- answer to the commit: `false` stands for any exception that the session raises.
pub mod Atomic
pub mod Rows
pub mod Ended
use text.Mathlib.Text.{starts_with}
use sealedrun.Prelude.{
  ℕ, suc, ◌+◌, String, ◌==◌, Bool, true, false, ◌&&◌, ◌||◌, not, Option, none, some, List, [], ◌∷◌,
  ◌++◌, filter, find, length, is_nil, is_some, or_else, if◌then◌else◌, ltb, nat_eq, opt_eq, Dict,
  lookup, insert, erase,
}
use sealedrun.Result.{
  Exc, value_error, key_error, live_run, invalid_record, verification, body_too_large, type_error,
  runtime_error, export_error, Result, ok, err, raise_if, or_raise, ◌>>=◌, ◌>>◌,
}
use sealedrun.Model.{
  Bytes, Doc, Record, Delegation, Extensions, no_extensions, extensions_of, Receipt, Target,
  PayloadRef,
}
use sealedrun.Library.{Library}
use sealedrun.Hashing.{payload_digest, zeros}
use sealedrun.Keys.{Signers}
use sealedrun.Writer.{
  Writer, Fields, new_writer, resume, payload_ref, preview, seal_doc, start, finish, revert,
}
use sealedrun.Recorder.Store.{
  RunRow, RecordRow, PayloadRow, Db, get_run, put_run, last_row, record_row, store_payload,
  count_cloud_labels, run_label,
}

abbrev pub max_writers : ℕ
max_writers = 4096

-- `LiveRuns`; the writers stand from the least to the most recently remembered.
pub record LiveRuns : Type 0 where
  pub agent : Signers
  pub delegation : Delegation
  pub writers : Dict Writer
  pub db : Db

-- `popitem(last=False)` while there are too many.
trim : Dict Writer → Dict Writer
trim [] = []
trim (entry ∷ writers) =
    let rest = trim writers in
    if ltb max_writers (length (entry ∷ writers)) then rest else entry ∷ writers

-- `_remember`
unfoldable pub remember : Writer → LiveRuns → LiveRuns
unfolding trim
remember w live = record live { writers = trim (erase w.run_id live.writers ++ (w.run_id, w) ∷ []) }

-- The stored record of a run with seq 0.
first_row : String → List RecordRow → Option RecordRow
first_row run_id rows = find (λ row. row.run_id == run_id && nat_eq row.seq 0) rows

-- Whether the run's first record names the recorder's delegation.
bound_to : Record → Delegation → Bool
bound_to first delegation = elim (extensions_of first.protected).delegation [
  | none ↦ false
  | some binding ↦ binding.delegation_id == delegation.protected.delegation_id
]

-- What `_writer` reads from the tables for a run that has no writer in memory.
unfoldable pub stored_writer : String → LiveRuns → Result Writer
unfolding first_row bound_to
stored_writer run_id live = do
  run ← or_raise (get_run run_id live.db.runs) (live_run "run not found or not live")
  raise_if (not (run.source == "live")) (live_run "run not found or not live")
  raise_if run.complete (live_run "run is closed")
  first ← or_raise (first_row run_id live.db.records) (key_error "first")
  end ← or_raise (last_row run_id live.db.records) (key_error "last")
  raise_if (not (bound_to first.document live.delegation))
      (live_run "run was started under a different delegation")
  resume live.agent live.delegation run_id (end.seq + 1) end.hash

-- `_writer`
unfoldable pub writer_of : String → LiveRuns → Result Writer × LiveRuns
unfolding stored_writer
writer_of run_id live = elim (lookup run_id live.writers) [
  | some w ↦ (ok w, live)
  | none ↦ elim (stored_writer run_id live) [
    | ok w ↦ (ok w, remember w live)
    | err e ↦ (err e, live)
  ]
]

-- `except ValueError as error: raise LiveRunError`
abbrev pub as_live {ℓ} : {A : Type ℓ} → Result A → Result A
as_live (ok a) = ok a
as_live (err (value_error message)) = err (live_run message)
as_live (err (key_error k)) = err (key_error k)
as_live (err (live_run m)) = err (live_run m)
as_live (err (invalid_record m)) = err (invalid_record m)
as_live (err (verification c m r s)) = err (verification c m r s)
as_live (err (body_too_large m)) = err (body_too_large m)
as_live (err (type_error m)) = err (type_error m)
as_live (err (runtime_error m)) = err (runtime_error m)
as_live (err (export_error n m)) = err (export_error n m)

-- The arguments of `append` beside the run.
pub record Step : Type 0 where
  pub kind : String
  pub fields : Fields
  pub request : Option Bytes
  pub response : Option Bytes
  pub request_media_type : Option String
  pub response_media_type : Option String
  pub check : Bool
  -- issuer and status of a `proxy` receipt
  pub receipt : Option (String × ℕ)
  pub system_prompt : Option Bytes

module _ (lib : Library) where
  too_long : ℕ → Option String → Bool
  too_long limit none = false
  too_long limit (some text) = ltb limit (lib.text_length text)

  -- `_check_target`
  unfoldable pub check_target : Target → Result (Unit {0})
  unfolding too_long
  check_target target = do
    raise_if (too_long 16 (some target.type)) (live_run "target.type longer than 16 characters")
    raise_if (too_long 256 (some target.name)) (live_run "target.name longer than 256 characters")
    raise_if (too_long 16 target.location) (live_run "target.location longer than 16 characters")
    raise_if (too_long 2048 target.endpoint)
        (live_run "target.endpoint longer than 2048 characters")
    raise_if (too_long 256 target.provider) (live_run "target.provider longer than 256 characters")

  -- Lines 134 to 142.
  unfoldable pub step_payload : Writer → Step → Result (Option PayloadRef)
  step_payload w step =
      if is_some step.request || is_some step.response
      then (do
        ref ←
            payload_ref lib w.hash_alg step.request step.response "bundle" step.request_media_type
              step.response_media_type
        ok (some ref))
      else ok none

  -- Lines 144 to 149: the digest of the system prompt.
  unfoldable pub with_prompt : Writer → Step → Option Extensions → Result (Option Extensions)
  with_prompt w step extensions = elim step.system_prompt [
    | none ↦ ok extensions
    | some prompt ↦ do
      digest ← payload_digest lib w.hash_alg prompt
      let given = or_else extensions no_extensions
      let llm =
          or_else given.llm (record { model = step.fields.target.name; system_prompt_hash = none })
      ok (some (record given { llm = some (record llm { system_prompt_hash = some digest }) }))
  ]

  -- Lines 150 to 159: the proxy's receipt.
  unfoldable pub with_receipt :
      Writer → Step → Option PayloadRef → Option Extensions → Option Extensions
  with_receipt w step none extensions = extensions
  with_receipt w step (some payload) extensions = elim step.receipt [
    | none ↦ extensions
    | some (issuer, status) ↦
        if is_some step.response
        then some (record (or_else extensions no_extensions) {
          receipt = some (record {
            observed_by = "proxy";
            kind = "http_response";
            digest = payload.response_hash;
            digest_alg = some w.hash_alg;
            issuer = some issuer;
            status = some status;
          });
        })
        else extensions
  ]

  -- `_schema_problems`
  schema_problems : Doc → List String
  schema_problems doc =
      filter (λ e. not (starts_with e "signatures"))
        (lib.schema_errors (record {
          protected = doc;
          hash = zeros 64;
          signatures = [];
          principal_signatures = none;
        }))

  -- Lines 134 to 170: the sealed record and the writer behind it.
  unfoldable pub seal_step : Writer → Step → Result (Writer × Record)
  unfolding step_payload with_prompt with_receipt schema_problems
  seal_step w step = do
    payload ← step_payload w step
    check_target step.fields.target
    extensions ← with_prompt w step step.fields.extensions
    let fields = record step.fields {
      payload = payload;
      extensions = with_receipt w step payload extensions;
    }
    as_live (do
      doc ← preview lib w step.kind fields
      raise_if (step.check && not (is_nil (schema_problems doc)))
          (invalid_record "record would not verify")
      seal_doc lib w doc)

  -- The loop of lines 176 to 178 for one body.
  unfoldable pub store_body : String → Option Bytes → List PayloadRow → List PayloadRow
  store_body hash_alg none rows = rows
  store_body hash_alg (some body) rows = elim (payload_digest lib hash_alg body) [
    | ok digest ↦ store_payload digest hash_alg body rows
    | err e ↦ rows
  ]

  -- Lines 180 to 185: the figures of the run.
  unfoldable pub advance_run : RunRow → Record → RunRow
  advance_run run entry =
      let counted =
        count_cloud_labels
          (record run { record_count = run.record_count + 1; last_hash = entry.hash }) entry in
      if entry.protected.kind == "anchor"
      then record counted {
        anchors = counted.anchors + 1;
        last_anchor_at = some entry.protected.occurred_at;
      }
      else counted

  -- Lines 172 to 186: the tables behind the commit, `none` where the run has no row.
  unfoldable pub store_step : Step → String → Record → String → Db → Option Db
  unfolding store_body advance_run
  store_step step run_id entry hash_alg db = elim (get_run run_id db.runs) [
    | none ↦ none
    | some run ↦ some (record db {
      runs = put_run (advance_run run entry) db.runs;
      records = db.records ++ record_row entry ∷ [];
      payloads = store_body hash_alg step.response (store_body hash_alg step.request db.payloads);
    })
  ]

-- The writer taken back: lines 190 to 193. An exception of `revert` itself would be passed on.
unfoldable pub take_back : Writer → Record → String → LiveRuns → Result Record × LiveRuns
take_back w entry message live = elim (revert w entry true) [
  | ok w' ↦ (err (live_run message), record live { writers = insert w.run_id w' live.writers })
  | err e ↦ (err e, record live { writers = insert w.run_id w live.writers })
]

-- The outcome of the session's block, for `append` and `end`.
unfoldable pub settle :
    Writer → Record → String → Option Db → Bool → LiveRuns → Result Record × LiveRuns
unfolding take_back
settle w entry message none committed live = take_back w entry "run not found" live
settle w entry message (some db) true live =
    (ok entry, record live { writers = insert w.run_id w live.writers; db = db })
settle w entry message (some db) false live = take_back w entry message live

module _ (lib : Library) where
  unfoldable pub append_with :
      Step → Bool → String → Result Writer × LiveRuns → Result Record × LiveRuns
  append_with step committed run_id (err e, live) = (err e, live)
  append_with step committed run_id (ok w, live) = elim (seal_step lib w step) [
    | err e ↦ (err e, live)
    | ok (w', entry) ↦
        settle w' entry "record not stored" (store_step lib step run_id entry w.hash_alg live.db)
          committed live
  ]

  -- `LiveRuns.append`
  unfoldable pub append : String → Step → Bool → LiveRuns → Result Record × LiveRuns
  unfolding append_with
  append run_id step committed live = append_with step committed run_id (writer_of run_id live)

  -- Lines 231 to 240.
  unfoldable pub store_end : String → Record → Db → Option Db
  store_end run_id entry db = elim (get_run run_id db.runs) [
    | none ↦ none
    | some run ↦ some (record db {
      runs =
          put_run
            (record run {
              record_count = run.record_count + 1;
              last_hash = entry.hash;
              ended_at = some entry.protected.occurred_at;
              complete = true;
            })
            db.runs;
      records = db.records ++ record_row entry ∷ [];
    })
  ]

  -- Lines 246 to 248: the writer of an ended run is dropped.
  unfoldable pub drop_writer : String → Result Record × LiveRuns → Result Record × LiveRuns
  drop_writer run_id (err e, live) = (err e, live)
  drop_writer run_id (ok entry, live) =
      (ok entry, record live { writers = erase run_id live.writers })

  unfoldable pub end_with :
      Fields → Bool → String → Result Writer × LiveRuns → Result Record × LiveRuns
  end_with fields committed run_id (err e, live) = (err e, live)
  end_with fields committed run_id (ok w, live) = elim (as_live (finish lib w fields)) [
    | err e ↦ (err e, live)
    | ok (w', entry) ↦
        drop_writer run_id
          (settle w' entry "run_end not stored" (store_end run_id entry live.db) committed live)
  ]

  -- `LiveRuns.end`
  unfoldable pub end_run : String → Fields → Bool → LiveRuns → Result Record × LiveRuns
  unfolding end_with store_end drop_writer
  end_run run_id fields committed live = end_with fields committed run_id (writer_of run_id live)

  -- The rows that `start` adds.
  unfoldable pub start_rows : Writer → Record → Option Extensions → Db → Db
  start_rows w entry extensions db = record db {
    runs =
        db.runs
        ++ (record {
          run_id = w.run_id;
          bundle_id = none;
          source = "live";
          agent_id = w.agent_id;
          principal_id = w.principal_id;
          hash_alg = w.hash_alg;
          started_at = entry.protected.occurred_at;
          ended_at = none;
          record_count = 1;
          first_seq = 0;
          last_hash = entry.hash;
          complete = false;
          anchors = 0;
          labels_sent_to_cloud = [];
          labels_self_reported = [];
          run_label = run_label extensions;
          last_anchor_at = none;
        })
          ∷ [];
    records = db.records ++ record_row entry ∷ [];
  }

  -- What `start` does with the sealed `run_start`.
  unfoldable pub start_with :
      Option Extensions → Bool → LiveRuns → Result (Writer × Record) → Result Record × LiveRuns
  unfolding start_rows
  start_with extensions committed live (err e) = (err e, live)
  start_with extensions committed live (ok (w, entry)) =
      if committed
      then (ok entry, remember w (record live { db = start_rows w entry extensions live.db }))
      else (err (live_run "commit"), live)

  -- `LiveRuns.start`; the new id is among the fields.
  unfoldable pub start_run :
      String → Option (Dict String) → Fields → Bool → LiveRuns → Result Record × LiveRuns
  unfolding start_with
  start_run run_id parent fields committed live =
      start_with fields.extensions committed live
        (new_writer live.agent live.delegation run_id >>= λ w. start lib w parent fields)

unfoldable pub head_with :
    String → Result Writer × LiveRuns → Result (ℕ × String × String) × LiveRuns
head_with run_id (err e, live) = (err e, live)
head_with run_id (ok w, live) = (
  do
    end ← or_raise (last_row run_id live.db.records) (key_error "last")
    raise_if (not (end.hash == w.head)) (live_run "run head does not match the stored records")
    ok (end.seq, end.hash, end.kind),
  live,
)

-- `LiveRuns.head`
unfoldable pub head : String → LiveRuns → Result (ℕ × String × String) × LiveRuns
unfolding head_with
head run_id live = head_with run_id (writer_of run_id live)

-- `LiveRuns.open_runs`
unfoldable pub open_runs : List RunRow → List String
open_runs [] = []
open_runs (run ∷ runs) =
    let rest = open_runs runs in
    if run.source == "live" && not run.complete then run.run_id ∷ rest else rest
