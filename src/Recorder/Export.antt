-- ===== src/Recorder/Export.antt =====
-- services/recorder/src/sealedrun_recorder/export.py: a live run of the tables as a bundle. What
-- `build_bundle` gives `write_bundle` is `contents_of`; the spooled file is left out.
pub mod Complete
use sealedrun.Prelude.{
  ℕ, ◌+◌, String, ◌==◌, Bool, true, false, ◌||◌, not, Option, none, some, List, [], ◌∷◌, ◌++◌, elem,
  filter, find, is_some, or_else, map, if◌then◌else◌, leb, Dict, lookup, insert, dict_values,
}
use sealedrun.Result.{Exc, key_error, export_error, Result, ok, err, or_raise, ◌>>=◌}
use sealedrun.Model.{Bytes, Record, PayloadRef, Delegation, Manifest, WitnessReceipt, extensions_of}
use sealedrun.Library.{Library}
use sealedrun.Keys.{Signers}
use sealedrun.Bundle.Write.{Printer, Contents, Stamp, write_bundle}
use sealedrun.Recorder.Store.{RunRow, RecordRow, PayloadRow, Db, get_run}

-- `ExportError` with its status, another exception, or an answer.
pub data Exported {ℓ} (A : Type ℓ) : Type ℓ where
  refused : ℕ → String → Exported A
  raised : Exc → Exported A
  exported : A → Exported A

abbrev pub or_refused {ℓ κ} :
    {A : Type ℓ} {B : Type κ} → Option A → ℕ → String → (A → Exported B) → Exported B
or_refused none status message next = refused status message
or_refused (some a) status message next = next a

-- An `ExportError` is the refusal itself, raised from whatever code.
abbrev pub failed_by {ℓ} : {A : Type ℓ} → Exc → Exported A
failed_by (export_error status message) = refused status message
failed_by e = raised e

abbrev pub or_raised {ℓ κ} : {A : Type ℓ} {B : Type κ} → Result A → (A → Exported B) → Exported B
or_raised (err e) next = failed_by e
or_raised (ok a) next = next a

-- `order_by(RecordRow.seq)`
insert_by_seq : RecordRow → List RecordRow → List RecordRow
insert_by_seq row [] = row ∷ []
insert_by_seq row (r ∷ rows) =
    let rest = insert_by_seq row rows in if leb row.seq r.seq then row ∷ r ∷ rows else r ∷ rest

by_seq : List RecordRow → List RecordRow
unfolding insert_by_seq
by_seq [] = []
by_seq (row ∷ rows) = insert_by_seq row (by_seq rows)

unfoldable pub documents : String → List RecordRow → List Record
unfolding by_seq
documents run_id rows =
    map (λ row. row.document) (by_seq (filter (λ row. row.run_id == run_id) rows))

-- The digests that a record's reference names.
abbrev pub hashes : PayloadRef → List (Option String)
hashes ref = if ref.storage == "bundle" then ref.request_hash ∷ ref.response_hash ∷ [] else []

abbrev pub wanted : Bool → Record → List (Option String)
wanted true entry = []
wanted false entry = elim entry.protected.payload [ none ↦ [] | some ref ↦ hashes ref ]

abbrev pub all_wanted : Bool → List Record → List (Option String)
all_wanted omitted [] = []
all_wanted omitted (r ∷ rs) = wanted omitted r ++ all_wanted omitted rs

abbrev pub stored : String → List PayloadRow → Option PayloadRow
stored digest rows = find (λ row. row.digest == digest) rows

-- The loop over the sides of the records; `none` is a body that is not stored.
unfoldable pub gather : List PayloadRow → List (Option String) → List String → Option (List String)
gather rows [] digests = some digests
gather rows (none ∷ wants) digests = gather rows wants digests
gather rows (some digest ∷ wants) digests =
    let again = gather rows wants digests in
    let behind = gather rows wants (digests ++ digest ∷ []) in
    if elem digest digests then again else if is_some (stored digest rows) then behind else none

-- `_delegation_of`
unfoldable pub delegation_of : Dict Delegation → Record → Option Delegation
delegation_of delegations first =
    lookup
      (elim (extensions_of first.protected).delegation [
        | none ↦ ""
        | some binding ↦ binding.delegation_id
      ])
      delegations

-- The receipts of the anchor records by record id.
unfoldable pub receipts : List Record → Result (Dict WitnessReceipt)
receipts [] = ok []
receipts (r ∷ rs) =
    let rest = receipts rs in
    if r.protected.kind == "anchor"
    then (do
      anchor ← or_raise (extensions_of r.protected).anchor (key_error "sealedrun.anchor")
      others ← rest
      ok (insert r.protected.record_id anchor.receipt others))
    else rest

-- `_StoredPayloads.__getitem__`
unfoldable pub body_from : List PayloadRow → String → Result Bytes
body_from rows digest = do
  row ← or_raise (stored digest rows) (export_error 500 "payload body missing from the database")
  ok row.body

-- `build_bundle` on the records of a run, up to `write_bundle`
unfoldable pub contents_of_run : Bool → Db → List Record → Exported Contents
unfolding receipts
contents_of_run omitted db [] = raised (key_error "0")
contents_of_run omitted db (first ∷ more) =
    or_refused (delegation_of db.delegations first) 500 "the run's delegation is not stored"
      (λ delegation.
        or_refused (gather db.payloads (all_wanted omitted (first ∷ more)) []) 500
          "payload body missing from the database"
          (λ digests. or_raised (receipts (first ∷ more)) (λ anchors. exported (record {
            delegations = delegation ∷ [];
            runs = (first ∷ more) ∷ [];
            payloads = digests;
            fetch = body_from db.payloads;
            anchors = anchors;
            payloads_omitted = omitted;
          }))))

-- The run's row beside what is written of it.
unfoldable pub with_run : RunRow → Exported Contents → Exported (RunRow × Contents)
with_run run (refused status message) = refused status message
with_run run (raised e) = raised e
with_run run (exported contents) = exported (run, contents)

unfoldable pub contents_of : String → Bool → Db → Exported (RunRow × Contents)
unfolding contents_of_run with_run
contents_of run_id omitted db = or_refused (get_run run_id db.runs) 404 "run not found" (λ run.
    if not (run.source == "live")
    then refused 409 "imported run: download its original bundle instead"
    else with_run run (contents_of_run omitted db (documents run_id db.records)))

-- `build_bundle`, the archive as the manifest and the written files
unfoldable pub build_bundle :
    Library
    → Printer
    → Signers
    → Signers
    → Stamp
    → String
    → Bool
    → Db
    → Exported (Manifest × List (String × Bytes))
unfolding contents_of
build_bundle lib printer agent principal stamp run_id omitted db =
    elim (contents_of run_id omitted db) [
      | refused status message ↦ refused status message
      | raised e ↦ raised e
      | exported (run, contents) ↦
          or_raised (write_bundle lib printer agent (some principal) run.hash_alg stamp contents)
            (λ written. exported written)
    ]

-- The sizes that `payload_bytes` adds up, by digest.
add_size : Option String → Option ℕ → Dict ℕ → Dict ℕ
add_size none size seen = seen
add_size (some digest) size seen = insert digest (or_else size 0) seen

sizes : List Record → Dict ℕ → Dict ℕ
unfolding add_size
sizes [] seen = seen
sizes (r ∷ rs) seen = elim r.protected.payload [
  | none ↦ sizes rs seen
  | some ref ↦
      if ref.storage == "bundle"
      then sizes rs (
          add_size ref.response_hash ref.response_size
            (add_size ref.request_hash ref.request_size seen))
      else sizes rs seen
]

abbrev total : List ℕ → ℕ
total [] = 0
total (n ∷ ns) = n + total ns

-- `payload_bytes`
unfoldable pub payload_bytes : String → List RecordRow → ℕ
unfolding sizes
payload_bytes run_id rows =
    total (
      dict_values
        (sizes (map (λ row. row.document) (filter (λ row. row.run_id == run_id) rows)) []))
