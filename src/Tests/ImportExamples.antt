-- ===== src/Tests/ImportExamples.antt =====
-- An archive of the run of two records is read and imported.
use sealedrun.Prelude.{◌==◌, ◌≡◌, refl, none, some, true, false, [], ◌∷◌, sorted_set, if◌then◌else◌}
use sealedrun.Result.{Result, ok}
use sealedrun.Model.{Manifest}
use sealedrun.Keys.{keyset_from_json, keyset_verify, verify_one, verify_each, kid, profile}
use sealedrun.Keys.Encoding.{to_big}
use sealedrun.Hashing.{digest, digest_size, object_hash, payload_digest, zero_hash, zeros}
use sealedrun.Signing.{signing_input, check_hash, check_field, check_signatures}
use sealedrun.Delegation.{verify_delegation, covers}
use sealedrun.Scope
use sealedrun.Approval
use sealedrun.Run.{
  verify_run, verify_loop, admit, observe, first_prev_hash, delegation_for_run, collect,
  count_labels,
}
use sealedrun.Run.Checks.{
  check_schema, check_place, check_authority, check_bodies, check_context, check_receipt,
  check_payload,
}
use sealedrun.Run.Parent.{check_parent_links, check_links, check_run_link, parent_of}
use sealedrun.Bundle.{
  Bundle, verify_bundle, check_manifest, check_lists, verify_entries, verify_entry,
  check_record_ids, check_anchor_files, find_delegation,
}
use sealedrun.Prelude.Texts.{removeprefix, removesuffix, split_on}
use sealedrun.Bundle.Archive.{
  Archive, Codec, check_claims, check_listing, read_entry, key_of_parts, payload_key, read_run,
  place_file, read_files, read_archive, read_bundle, max_entry_bytes, max_total_bytes,
}
use sealedrun.Bundle.Archive.Intact.{IsIntact, read_bundle-IsIntact}
use sealedrun.Recorder.Store.{Db, BundleRow}
use sealedrun.Recorder.Live
use sealedrun.Recorder.Live.{LiveRuns}
use sealedrun.Recorder.Import.{
  bundle_row, import_delegations, fresh_run, import_run, import_runs, put_payload, import_payload,
  import_payloads, store_bundle, place_bundle, prepare, commit, import_bundle,
}
use sealedrun.Recorder.Import.Kept.{IsKept, import_bundle-IsKept}
use sealedrun.Recorder.Import.Again.{import_bundle_again}
use sealedrun.Recorder.Service.{Call, Calls, IsSound, Calls-IsSound}
use sealedrun.Tests.Toy.{toy, toy_delegation, toy_first, toy_second, toy_live, toy_step}
use sealedrun.Tests.BundleExamples.{toy_bundle, toy_bundle_report}

abbrev toy_manifest : Manifest
toy_manifest = record toy_bundle.manifest {
  protected = record toy_bundle.manifest.protected {
    files = ("delegations/d.json", "k") ∷ ("runs/r.jsonl", "k") ∷ ("payloads/sha-256/k", "k") ∷ [];
  };
}

abbrev toy_archive : Archive
toy_archive = record {
  infolist =
      (record { filename = "delegations/d.json"; is_dir = false; compress_size = 1; file_size = 2 })
      ∷ (record { filename = "runs/r.jsonl"; is_dir = false; compress_size = 1; file_size = 2 })
      ∷ (record { filename = "payloads/"; is_dir = true; compress_size = 0; file_size = 0 })
      ∷ (record {
        filename = "payloads/sha-256/k";
        is_dir = false;
        compress_size = 1;
        file_size = 2;
      })
      ∷ (record { filename = "manifest.json"; is_dir = false; compress_size = 1; file_size = 2 })
      ∷ [];
  size = 4;
  read = λ name n. ok (1 ∷ 2 ∷ []);
}

abbrev toy_codec : Codec
toy_codec = record {
  is_zipfile = λ source. true;
  open_zip = λ source. some toy_archive;
  json_manifest = λ content. some toy_manifest;
  json_delegation = λ content. some toy_delegation;
  json_record = λ line. if line == "1" then some toy_first else some toy_second;
  json_receipt = λ content. none;
  decode_lines = λ content. some ("1" ∷ "2" ∷ "" ∷ []);
  manifest_errors = λ manifest. [];
  delegation_errors = λ d. [];
}

abbrev toy_read : Bundle
toy_read = record toy_bundle { manifest = toy_manifest; payloads = ("k", 1 ∷ 2 ∷ []) ∷ [] }

toy_archive_read : read_bundle toy toy_codec (1 ∷ []) max_entry_bytes max_total_bytes ≡ ok toy_read
unfolding read_bundle read_archive check_claims check_listing read_entry payload_digest digest
    read_files place_file payload_key key_of_parts split_on read_run removeprefix removesuffix
toy_archive_read = refl

read_bundle-IsIntact_example :
    (archive : Archive) × ((toy_codec.open_zip (1 ∷ []) ≡ some archive)
      × IsIntact toy toy_codec archive max_entry_bytes max_total_bytes toy_read.manifest
          toy_read.payloads)
read_bundle-IsIntact_example =
    read_bundle-IsIntact toy toy_codec (1 ∷ []) max_entry_bytes max_total_bytes toy_read
      toy_archive_read

-- Tables without a run.
abbrev toy_empty : Db
toy_empty = record { runs = []; records = []; payloads = []; delegations = []; bundles = [] }

abbrev toy_answer : Result BundleRow × Db
toy_answer =
    import_bundle toy toy_codec (1 ∷ []) (some ("k" ∷ [])) max_total_bytes "2026" true toy_empty

abbrev toy_bundle_row : BundleRow
toy_bundle_row = bundle_row toy_read toy_bundle_report (1 ∷ []) "2026"

toy_imported : toy_answer ≡ (ok toy_bundle_row, toy_answer.1)
unfolding import_bundle prepare commit place_bundle store_bundle import_delegations import_runs
    import_run fresh_run import_payloads import_payload put_payload bundle_row read_bundle
    read_archive check_claims check_listing read_entry payload_digest digest read_files place_file
    payload_key key_of_parts split_on read_run removeprefix removesuffix verify_bundle
    check_manifest check_lists verify_entries verify_entry check_record_ids check_anchor_files
    find_delegation check_parent_links check_links check_run_link parent_of verify_run verify_loop
    admit observe first_prev_hash zero_hash digest_size delegation_for_run verify_delegation
    keyset_from_json profile kid check_hash object_hash check_signatures signing_input keyset_verify
    verify_one to_big Scope.parse Approval.findings covers zeros verify_each sorted_set
    check_authority check_bodies check_context check_place check_receipt check_schema check_payload
    collect count_labels Scope.findings check_field
toy_imported = refl

import_bundle_again_example :
    import_bundle toy toy_codec
      (1 ∷ [])
      (some ("k" ∷ []))
      max_total_bytes
      "2027"
      true
      (toy_answer.1)
    ≡ (ok toy_bundle_row, toy_answer.1)
import_bundle_again_example =
    import_bundle_again toy toy_codec (1 ∷ []) (some ("k" ∷ [])) max_total_bytes "2026" "2027" true
      true toy_empty (toy_answer.1) toy_bundle_row toy_imported

import_bundle-IsKept_example : IsKept toy toy_empty (toy_answer.1)
import_bundle-IsKept_example =
    import_bundle-IsKept toy toy_codec (1 ∷ []) (some ("k" ∷ [])) max_total_bytes "2026" true
      toy_empty (toy_answer.1) (ok toy_bundle_row) toy_imported

-- A step, and behind it the import.
abbrev toy_appended : LiveRuns
toy_appended = (Live.append toy "r" toy_step true toy_live).1

abbrev toy_both : LiveRuns
toy_both = record toy_appended {
  db =
      (import_bundle toy toy_codec (1 ∷ []) (some ("k" ∷ [])) max_total_bytes "2026" true
        toy_appended.db).1;
}

Calls-IsSound_example : IsSound toy toy_both
Calls-IsSound_example =
    Calls-IsSound toy toy_codec toy_live toy_both
      (Calls.next (Calls.next Calls.stay (Call.appended "r" toy_step true))
        (Call.imported (1 ∷ []) (some ("k" ∷ [])) max_total_bytes "2026" true))
      tt
