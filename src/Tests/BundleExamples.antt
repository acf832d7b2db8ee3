-- ===== src/Tests/BundleExamples.antt =====
-- A bundle of the run of two records is accepted.
use sealedrun.Prelude.{
  String, List, ◌≡◌, ◌↔◌, refl, none, some, true, false, [], ◌∷◌, sorted_set, is_some, map,
}
use sealedrun.Result.{Result, ok, err}
use sealedrun.Model.{Bytes, Manifest, RunEntry}
use sealedrun.Bundle.Write.{Printer, Contents, Stamp, entry_of, write_bundle}
use sealedrun.Bundle.Write.Entry.{entry_of-verify_entry}
use sealedrun.Tests.Verified.{toy_accepted}
use sealedrun.Keys.{
  public, sign, keyset_from_json, keyset_verify, verify_one, verify_each, kid, profile,
}
use sealedrun.Keys.Encoding.{to_big}
use sealedrun.Hashing.{payload_digest, digest, digest_size, object_hash, zero_hash, zeros}
use sealedrun.Signing.{seal, signing_input, check_hash, check_field, check_signatures}
use sealedrun.Delegation.{verify_delegation, covers}
use sealedrun.Scope
use sealedrun.Approval
use sealedrun.Run.{
  verify_run, verify_loop, admit, observe, first_prev_hash, delegation_for_run, collect,
  count_labels,
}
use sealedrun.Run.Checks.{
  check_schema, check_place, check_authority, check_bodies, check_context, check_receipt,
  check_payload,
}
use sealedrun.Run.Parent.{check_parent_links, check_links, check_run_link, parent_of}
use sealedrun.Run.Accept.{Fresh}
use sealedrun.Bundle.{
  Bundle, BundleReport, verify_bundle, check_manifest, check_lists, verify_entries, verify_entry,
  check_record_ids, check_anchor_files, find_delegation, run_options,
}
use sealedrun.Bundle.Verdict.{
  AllVerified, IsGenuine, verify_bundle-AllVerified, verify_bundle-IsGenuine,
}
use sealedrun.Bundle.Distinct.{all_records, verify_bundle-Fresh}
use sealedrun.Tests.Toy.{
  toy, toy_delegation, toy_first, toy_second, toy_options, toy_report, toy_signers,
}

abbrev pub toy_bundle : Bundle
toy_bundle = record {
  manifest = record {
    protected = record {
      spec_version = "0.1";
      bundle_id = "b";
      created_at = "2025";
      exporter_agent_id = "k";
      software = "s";
      principal_id = "k";
      delegations = "d" ∷ [];
      runs =
          (record {
            run_id = "r";
            hash_alg = "sha-256";
            record_count = 2;
            first_seq = 0;
            first_hash = "0000000000000000000000000000000000000000000000000000000000000000";
            last_hash = "h";
            complete = true;
          })
          ∷ [];
      files = [];
      hash_alg = "sha-256";
      payloads = none;
    };
    hash = "h";
    signatures = ("ml-dsa-65", "k") ∷ ("es256", "k") ∷ [];
    principal_signatures = none;
  };
  delegations = ("d", toy_delegation) ∷ [];
  runs = ("r", toy_first ∷ toy_second ∷ []) ∷ [];
  payloads = [];
  anchors = [];
}

abbrev pub toy_bundle_report : BundleReport
toy_bundle_report = record {
  bundle_id = "b";
  runs = toy_report ∷ [];
  principal_id = "k";
  exporter_agent_id = "k";
  principal_trusted = true;
  payloads_omitted = false;
  parents_unresolved = [];
}

bundle_accepted : verify_bundle toy toy_bundle (some ("k" ∷ [])) toy_options ≡ ok toy_bundle_report
unfolding verify_bundle check_manifest check_lists verify_entries verify_entry check_record_ids
    check_anchor_files find_delegation check_parent_links check_links check_run_link parent_of
    verify_run verify_loop admit observe first_prev_hash zero_hash digest_size delegation_for_run
    verify_delegation keyset_from_json profile kid digest check_hash object_hash check_signatures
    signing_input keyset_verify verify_one to_big Scope.parse Approval.findings covers zeros
    verify_each sorted_set check_authority check_bodies check_context check_place check_receipt
    check_schema check_payload collect count_labels Scope.findings check_field
bundle_accepted = refl

verify_bundle-AllVerified_example :
    AllVerified toy toy_bundle
      (run_options toy toy_bundle toy_options)
      toy_bundle.manifest.protected.runs
      (toy_report ∷ [])
verify_bundle-AllVerified_example =
    verify_bundle-AllVerified toy toy_bundle (some ("k" ∷ [])) toy_options toy_bundle_report
      bundle_accepted

verify_bundle-IsGenuine_example :
    IsGenuine toy toy_bundle (some ("k" ∷ []))
    × (toy_bundle_report.principal_id ≡ toy_bundle.manifest.protected.principal_id)
    × (toy_bundle_report.principal_trusted ≡ is_some {A = List String} (some ("k" ∷ [])))
verify_bundle-IsGenuine_example =
    verify_bundle-IsGenuine toy toy_bundle (some ("k" ∷ [])) toy_options toy_bundle_report
      bundle_accepted

verify_bundle-Fresh_example :
    Fresh [] (all_records toy_bundle.runs toy_bundle.manifest.protected.runs)
verify_bundle-Fresh_example =
    verify_bundle-Fresh toy toy_bundle (some ("k" ∷ [])) toy_options toy_bundle_report
      bundle_accepted

-- The entry of the run of two records, and the bundle that has it.
abbrev toy_entry : RunEntry
toy_entry = record {
  run_id = "r";
  hash_alg = "sha-256";
  record_count = 2;
  first_seq = 0;
  first_hash = "0000000000000000000000000000000000000000000000000000000000000000";
  last_hash = "h";
  complete = true;
}

toy_written : entry_of toy_first (toy_second ∷ []) ≡ ok toy_entry
unfolding entry_of zero_hash digest_size zeros
toy_written = refl

entry_of-verify_entry_example :
    (verify_entry toy toy_bundle toy_options toy_entry ≡ ok toy_report)
    ↔ (toy_bundle.manifest.protected.hash_alg ≡ toy_first.protected.hash_alg)
entry_of-verify_entry_example =
    entry_of-verify_entry toy toy_bundle toy_options toy_first (toy_second ∷ []) toy_entry
      toy_report toy_written refl toy_accepted

abbrev toy_printer : Printer
toy_printer = record {
  delegation = λ d. 1 ∷ [];
  record_line = λ entry. 2 ∷ [];
  receipt = λ receipt. 3 ∷ [];
  manifest = λ manifest. 4 ∷ [];
}

abbrev toy_stamp : Stamp
toy_stamp = record { bundle_id = "b"; created_at = "2025"; software = "s" }

abbrev toy_contents : Contents
toy_contents = record {
  delegations = toy_delegation ∷ [];
  runs = (toy_first ∷ toy_second ∷ []) ∷ [];
  payloads = "k" ∷ [];
  fetch = λ body_hash. ok (5 ∷ []);
  anchors = [];
  payloads_omitted = false;
}

abbrev or_nothing : Result (Manifest × List (String × Bytes)) → List (String × Bytes)
or_nothing (ok (manifest, files)) = files
or_nothing (err e) = []

-- The archive that is written of the run, with one body.
toy_archived :
    map
      (λ (path, body). path)
      (or_nothing (write_bundle toy toy_printer toy_signers none "sha-256" toy_stamp toy_contents))
    ≡ "delegations/d.json" ∷ "runs/r.jsonl" ∷ "payloads/sha-256/k" ∷ "manifest.json" ∷ []
unfolding write_bundle entry_of zero_hash digest_size zeros digest object_hash payload_digest kid
    seal signing_input sign public sorted_set
toy_archived = refl
