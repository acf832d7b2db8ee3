-- ===== src/Recorder/Import.antt =====
-- services/recorder/src/sealedrun_recorder/importer.py: an archive read, verified and written to the
-- tables. `committed` is the database's answer to the commit; the tables behind a call that raises
-- are the tables before it, as the caller's session is closed without a commit.
pub mod Same
pub mod Kept
pub mod Digested
pub mod Again
use sealedrun.Prelude.{
  ℕ, String, ◌==◌, Bool, true, false, ◌&&◌, not, Option, none, some, List, [], ◌∷◌, ◌++◌, find,
  length, last, map, is_some, if◌then◌else◌, nat_eq, opt_eq, or_else, Dict, lookup, insert,
  dict_values,
}
use sealedrun.Result.{
  verification, key_error, live_run, Result, ok, err, raise_if, or_raise, ◌>>=◌, ◌>>◌,
}
use sealedrun.Model.{Bytes, Record, Delegation, extensions_of}
use sealedrun.Library.{Library}
use sealedrun.Hashing.{payload_digest}
use sealedrun.Run.{RunReport, Options, count_labels}
use sealedrun.Bundle.{Bundle, BundleReport, verify_bundle}
use sealedrun.Bundle.Archive.{Codec, read_bundle, max_entry_bytes}
use sealedrun.Recorder.Store.{RunRow, RecordRow, PayloadRow, BundleRow, Db, get_run, record_row}
use sealedrun.Recorder.Import.Same.{same_delegation}

-- `session.get` of a bundle and of a payload
abbrev pub get_bundle : String → List BundleRow → Option BundleRow
get_bundle bundle_id rows = find (λ row. row.bundle_id == bundle_id) rows

abbrev pub get_payload : String → List PayloadRow → Option PayloadRow
get_payload digest rows = find (λ row. row.digest == digest) rows

-- `_self_reported_labels`, the counts so far
self_reported_labels : List Record → Dict ℕ → Dict ℕ
self_reported_labels [] counts = counts
self_reported_labels (r ∷ rs) counts = self_reported_labels rs (
    if opt_eq r.protected.target.location (some "cloud") && is_some (extensions_of r.protected).step
    then count_labels r.protected.data_labels counts
    else counts)

-- `_bundle_row`
unfoldable pub bundle_row : Bundle → BundleReport → Bytes → String → BundleRow
bundle_row bundle report archive imported_at =
    let manifest = bundle.manifest.protected in
    record {
      bundle_id = manifest.bundle_id;
      principal_id = manifest.principal_id;
      exporter_agent_id = manifest.exporter_agent_id;
      created_at = manifest.created_at;
      imported_at = imported_at;
      size_bytes = length archive;
      manifest = bundle.manifest;
      report = record {
        bundle_id = report.bundle_id;
        principal_id = report.principal_id;
        exporter_agent_id = report.exporter_agent_id;
        principal_trusted = report.principal_trusted;
        runs = report.runs;
      };
      archive = archive;
    }

-- The loop over the delegations left.
unfoldable pub import_delegations : List Delegation → Dict Delegation → Result (Dict Delegation)
import_delegations [] stored = ok stored
import_delegations (d ∷ ds) stored = elim (lookup d.protected.delegation_id stored) [
  | some known ↦ do
    raise_if (not (same_delegation known d)) (
        verification "delegation" "delegation is already stored with a different document" none
          none)
    import_delegations ds stored
  | none ↦ import_delegations ds (insert d.protected.delegation_id d stored)
]

-- The row of a run that starts with `first`.
unfoldable pub imported_run : String → RunReport → Record → List Record → RunRow
unfolding self_reported_labels
imported_run bundle_id report first more = record {
  run_id = report.run_id;
  bundle_id = some bundle_id;
  source = "imported";
  agent_id = first.protected.agent_id;
  principal_id = first.protected.principal_id;
  hash_alg = first.protected.hash_alg;
  started_at = first.protected.occurred_at;
  ended_at = (if report.complete then some (last first more).protected.occurred_at else none);
  record_count = report.record_count;
  first_seq = report.first_seq;
  last_hash = report.last_hash;
  complete = report.complete;
  anchors = report.anchors;
  labels_sent_to_cloud = report.labels_sent_to_cloud;
  labels_self_reported = self_reported_labels (first ∷ more) [];
  run_label = none;
  last_anchor_at = none;
}

-- `_record_row`; the run of the row is the one it is a record of.
abbrev pub imported_record : String → Record → RecordRow
imported_record run_id entry = record (record_row entry) { run_id = run_id }

-- The rows of a run that is not stored yet.
unfoldable pub fresh_run : String → RunReport → List Record → Db → Result Db
fresh_run bundle_id report [] db = err (key_error "0")
fresh_run bundle_id report (first ∷ more) db = ok (record db {
  runs = db.runs ++ imported_run bundle_id report first more ∷ [];
  records = db.records ++ map (imported_record report.run_id) (first ∷ more);
})

-- One turn of the loop over the reports.
unfoldable pub import_run : Bundle → String → RunReport → Db → Result Db
unfolding fresh_run
import_run bundle bundle_id report db = do
  records ← or_raise (lookup report.run_id bundle.runs) (key_error report.run_id)
  (if is_some (get_run report.run_id db.runs) then ok db else fresh_run bundle_id report records db)

unfoldable pub import_runs : Bundle → String → List RunReport → Db → Result Db
import_runs bundle bundle_id [] db = ok db
import_runs bundle bundle_id (report ∷ reports) db = do
  next ← import_run bundle bundle_id report db
  import_runs bundle bundle_id reports next

abbrev same_bytes : Bytes → Bytes → Bool
same_bytes [] [] = true
same_bytes (b ∷ bs) (c ∷ cs) = nat_eq b c && same_bytes bs cs
same_bytes _ _ = false

-- A body whose digest is checked, against the row that is stored under the digest.
unfoldable pub put_payload :
    Option PayloadRow → String → String → Bytes → List PayloadRow → Result (List PayloadRow)
put_payload none hash_alg digest body rows = ok (
    rows
    ++ (record { digest = digest; hash_alg = hash_alg; size_bytes = length body; body = body })
      ∷ [])
put_payload (some stored) hash_alg digest body rows = do
  raise_if (not (same_bytes stored.body body))
      (verification "bundle" "payload digest collides with a different body" none none)
  ok rows

module _ (lib : Library) where
  -- One turn of the loop over the payload bodies.
  unfoldable pub import_payload :
      String → String → Bytes → List PayloadRow → Result (List PayloadRow)
  unfolding put_payload
  import_payload hash_alg digest body rows = do
    expected ← payload_digest lib hash_alg body
    raise_if (not (digest == expected))
        (verification "bundle" "payload body does not match its digest" none none)
    put_payload (get_payload digest rows) hash_alg digest body rows

  unfoldable pub import_payloads : String → Dict Bytes → List PayloadRow → Result (List PayloadRow)
  import_payloads hash_alg [] rows = ok rows
  import_payloads hash_alg ((digest, body) ∷ payloads) rows = do
    next ← import_payload hash_alg digest body rows
    import_payloads hash_alg payloads next

  -- The rows of a verified bundle that is not stored.
  unfoldable pub store_bundle : Bundle → BundleReport → BundleRow → Db → Result Db
  store_bundle bundle report row db = do
    delegations ← import_delegations (dict_values bundle.delegations) db.delegations
    filled ←
        import_runs bundle row.bundle_id report.runs
          (record db { delegations = delegations; bundles = db.bundles ++ row ∷ [] })
    payloads ← import_payloads bundle.manifest.protected.hash_alg bundle.payloads db.payloads
    ok (record filled { payloads = payloads })

  -- `verify_bundle` with its defaults: the shipped trust list, and no strict check.
  abbrev pub default_options : Options
  default_options = record {
    payloads = none;
    witnesses = lib.trust_list;
    strict_witness = false;
    strict_scope = false;
    strict_approval = false;
  }

  -- What follows the look for a bundle of the id: its row, or new rows.
  unfoldable pub place_bundle :
      Option BundleRow
      → Bundle
      → BundleReport
      → Bytes
      → String
      → Db
      → Result (BundleRow × Option Db)
  place_bundle (some existing) bundle report archive imported_at db = ok (existing, none)
  place_bundle none bundle report archive imported_at db = do
    filled ← store_bundle bundle report (bundle_row bundle report archive imported_at) db
    ok (bundle_row bundle report archive imported_at, some filled)

  module _ (codec : Codec) where
    -- `import_bundle` up to the commit: the row, and the tables where they change.
    unfoldable pub prepare :
        Bytes → Option (List String) → ℕ → String → Db → Result (BundleRow × Option Db)
    unfolding place_bundle
    prepare archive trusted_principals max_total_bytes imported_at db = do
      bundle ← read_bundle lib codec archive max_entry_bytes max_total_bytes
      report ← verify_bundle lib bundle trusted_principals default_options
      place_bundle (get_bundle bundle.manifest.protected.bundle_id db.bundles) bundle report archive
          imported_at db

    -- The commit.
    unfoldable pub commit : Result (BundleRow × Option Db) → Bool → Db → Result BundleRow × Db
    commit (err e) committed db = (err e, db)
    commit (ok (row, none)) committed db = (ok row, db)
    commit (ok (row, some filled)) true db = (ok row, filled)
    commit (ok (row, some filled)) false db = (err (live_run "commit"), db)

    -- `import_bundle`
    unfoldable pub import_bundle :
        Bytes → Option (List String) → ℕ → String → Bool → Db → Result BundleRow × Db
    unfolding prepare commit
    import_bundle archive trusted_principals max_total_bytes imported_at committed db =
        commit (prepare archive trusted_principals max_total_bytes imported_at db) committed db
