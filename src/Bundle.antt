-- ===== src/Bundle.antt =====
-- packages/sealedrun-py/src/sealedrun/bundle.py: the verification of a bundle that has been read,
-- its manifest and its files.
pub mod Archive
pub mod Write
pub mod Verdict
pub mod Distinct
use sealedrun.Prelude.{
  String, ◌==◌, Bool, true, false, ◌&&◌, ◌||◌, not, Option, none, some, List, [], ◌∷◌, ◌++◌, elem,
  find, is_nil, is_some, or_else, if◌then◌else◌, nat_eq, ltb, opt_eq, Dict, lookup, dict_keys,
  dict_values, map,
}
use sealedrun.Result.{verification, key_error, Result, ok, err, raise_if, or_raise, ◌>>=◌, ◌>>◌}
use sealedrun.Model.{Bytes, Record, Delegation, RunEntry, Manifest, WitnessReceipt, extensions_of}
use sealedrun.Library.{Library}
use sealedrun.Keys.{keyset_from_json, same_members}
use sealedrun.Signing.{domain_manifest, check_hash, check_signatures, check_field}
use sealedrun.Delegation.{verify_delegation}
use sealedrun.Run.{RunReport, Options, verify_run}
use sealedrun.Run.Parent.{check_parent_links}

-- `Bundle`
pub record Bundle : Type 0 where
  pub manifest : Manifest
  pub delegations : Dict Delegation
  pub runs : Dict (List Record)
  pub payloads : Dict Bytes
  pub anchors : Dict WitnessReceipt

-- `BundleReport`
pub record BundleReport : Type 0 where
  pub bundle_id : String
  pub runs : List RunReport
  pub principal_id : String
  pub exporter_agent_id : String
  pub principal_trusted : Bool
  pub payloads_omitted : Bool
  pub parents_unresolved : List String

abbrev pub refuse_if : Bool → String → String → Result (Unit {0})
refuse_if b check message = raise_if b (verification check message none none)

-- The records of one run, for `_check_record_ids`: the ids seen before, and behind them.
record_ids : String → List Record → List String → Result (List String)
record_ids run_id [] seen = ok seen
record_ids run_id (r ∷ rs) seen = do
  raise_if (elem r.protected.record_id seen) (
      verification "record_id" "record_id repeats across the runs of the bundle" (some run_id)
        (some r.protected.seq))
  record_ids run_id rs (r.protected.record_id ∷ seen)

-- `_check_record_ids` over the manifest's entries left.
unfoldable pub check_record_ids :
    Dict (List Record) → List RunEntry → List String → Result (List String)
unfolding record_ids
check_record_ids runs [] seen = ok seen
check_record_ids runs (entry ∷ entries) seen = do
  records ← or_raise (lookup entry.run_id runs) (key_error entry.run_id)
  seen' ← record_ids entry.run_id records seen
  check_record_ids runs entries seen'

-- The receipts of the anchor records of a run, by record id.
receipts_of : List Record → Dict (Option WitnessReceipt)
receipts_of [] = []
receipts_of (r ∷ rs) =
    let rest = receipts_of rs in
    if r.protected.kind == "anchor"
    then (
      r.protected.record_id,
      elim (extensions_of r.protected).anchor [ none ↦ none | some a ↦ some a.receipt ],
    )
      ∷ rest
    else rest

all_receipts : Dict (List Record) → Dict (Option WitnessReceipt)
unfolding receipts_of
all_receipts [] = []
all_receipts ((run_id, records) ∷ runs) = receipts_of records ++ all_receipts runs

same_receipt : WitnessReceipt → Option WitnessReceipt → Bool
same_receipt receipt none = false
same_receipt receipt (some other) = receipt.digest == other.digest && receipt.body == other.body

-- The loop of `_check_anchor_files`.
anchor_files : Dict WitnessReceipt → Dict (Option WitnessReceipt) → Result (Unit {0})
unfolding same_receipt
anchor_files [] receipts = ok tt
anchor_files ((record_id, receipt) ∷ files) receipts = do
  known ←
      or_raise (lookup record_id receipts)
        (verification "anchor" "receipt file for unknown anchor record" none none)
  refuse_if (not (same_receipt receipt known)) "anchor" "receipt file differs from anchor record"
  anchor_files files receipts

-- `_check_anchor_files`; a record id that repeats is refused before.
unfoldable pub check_anchor_files : Bundle → Result (Unit {0})
unfolding anchor_files all_receipts
check_anchor_files bundle = anchor_files bundle.anchors (all_receipts bundle.runs)

-- `_find_delegation`
unfoldable pub find_delegation : Bundle → String → Option Delegation
find_delegation bundle agent_id =
    find (λ d. d.protected.agent_id == agent_id) (dict_values bundle.delegations)

module _ (lib : Library) where
  -- The loop of lines 329 to 334 over the delegations left.
  check_delegations : List Delegation → String → Result (Unit {0})
  check_delegations [] principal_id = ok tt
  check_delegations (d ∷ ds) principal_id = do
    problem ← verify_delegation lib d
    refuse_if (is_some problem) "delegation" (or_else problem "")
    refuse_if (not (d.protected.principal_id == principal_id)) "manifest"
        "delegation principal differs from manifest"
    check_delegations ds principal_id

  -- Lines 342 to 345.
  check_countersignature : Manifest → Delegation → Option (Dict String) → Result (Unit {0})
  check_countersignature manifest exporter none = ok tt
  check_countersignature manifest exporter (some signatures) = do
    principal_keys ← keyset_from_json exporter.protected.principal_keys
    refuse_if (not (check_field lib manifest domain_manifest principal_keys signatures)) "manifest"
        "principal signature invalid"

  -- Lines 327 to 345: the manifest's hash, the delegations, the trust and the signatures.
  unfoldable pub check_manifest : Bundle → Option (List String) → Result (Unit {0})
  unfolding check_delegations check_countersignature
  check_manifest bundle trusted_principals = do
    refuse_if (not (check_hash lib lib.canonical_manifest (λ m. m.hash_alg) bundle.manifest))
        "manifest" "manifest hash mismatch"
    check_delegations (dict_values bundle.delegations) bundle.manifest.protected.principal_id
    refuse_if
        (is_some trusted_principals
          && not (elem bundle.manifest.protected.principal_id (or_else trusted_principals [])))
        "trust" "principal is not in the trusted set"
    exporter ←
        or_raise (find_delegation bundle bundle.manifest.protected.exporter_agent_id)
          (verification "manifest" "exporter has no delegation in bundle" none none)
    agent_keys ← keyset_from_json exporter.protected.agent_keys
    refuse_if (not (check_signatures lib bundle.manifest domain_manifest agent_keys)) "manifest"
        "exporter signature invalid"
    check_countersignature bundle.manifest exporter bundle.manifest.principal_signatures

  -- Lines 346 to 354: the lists of the manifest against the files.
  unfoldable pub check_lists : Bundle → Result (Unit {0})
  check_lists bundle = do
    refuse_if
        (not (same_members bundle.manifest.protected.delegations (dict_keys bundle.delegations)))
        "manifest" "delegation list does not match files"
    refuse_if
        (not (
          same_members (map (λ e. e.run_id) bundle.manifest.protected.runs)
            (dict_keys bundle.runs)))
        "manifest" "run list does not match files"
    refuse_if
        (opt_eq bundle.manifest.protected.payloads (some "omitted") && not (is_nil bundle.payloads))
        "bundle" "payload bodies present although the manifest says omitted"

  abbrev bool_eq : Bool → Bool → Bool
  bool_eq true b = b
  bool_eq false b = not b

  -- Lines 370 to 379: the entry of the manifest against the run's report.
  check_entry : RunEntry → RunReport → String → String → Result (Unit {0})
  check_entry entry report run_alg manifest_alg = do
    raise_if
        (not (nat_eq report.record_count entry.record_count)
          || not (report.last_hash == entry.last_hash))
        (verification "manifest" "run entry does not match records" (some entry.run_id) none)
    raise_if
        (not (bool_eq report.complete entry.complete)
          || not (nat_eq report.first_seq entry.first_seq))
        (verification "manifest" "run entry flags do not match records" (some entry.run_id) none)
    raise_if (not (run_alg == manifest_alg)) (
        verification "hash_alg" "run hash algorithm differs from the manifest" (some entry.run_id)
          none)

  abbrev pub first_alg : List Record → Result String
  first_alg [] = err (key_error "0")
  first_alg (r ∷ rs) = ok r.protected.hash_alg

  -- One turn of the loop over the manifest's runs.
  unfoldable pub verify_entry : Bundle → Options → RunEntry → Result RunReport
  unfolding check_entry
  verify_entry bundle options entry = do
    records ← or_raise (lookup entry.run_id bundle.runs) (key_error entry.run_id)
    report ←
        verify_run lib options records bundle.delegations
          (if ltb 0 entry.first_seq then some entry.first_hash else none)
    run_alg ← first_alg records
    check_entry entry report run_alg bundle.manifest.protected.hash_alg
    ok report

  unfoldable pub verify_entries : Bundle → Options → List RunEntry → Result (List RunReport)
  verify_entries bundle options [] = ok []
  verify_entries bundle options (entry ∷ entries) = do
    report ← verify_entry bundle options entry
    reports ← verify_entries bundle options entries
    ok (report ∷ reports)

  -- The options of `verify_run`: the bodies unless they were left out.
  abbrev pub run_options : Bundle → Options → Options
  run_options bundle options = record options {
    payloads =
        (if opt_eq bundle.manifest.protected.payloads (some "omitted")
          then none
          else some bundle.payloads);
  }

  -- `verify_bundle`
  unfoldable pub verify_bundle : Bundle → Option (List String) → Options → Result BundleReport
  verify_bundle bundle trusted_principals options = do
    check_manifest bundle trusted_principals
    check_lists bundle
    reports ← verify_entries bundle (run_options bundle options) bundle.manifest.protected.runs
    seen ← check_record_ids bundle.runs bundle.manifest.protected.runs []
    check_anchor_files bundle
    unresolved ← check_parent_links lib bundle.runs bundle.delegations
    ok (record {
      bundle_id = bundle.manifest.protected.bundle_id;
      runs = reports;
      principal_id = bundle.manifest.protected.principal_id;
      exporter_agent_id = bundle.manifest.protected.exporter_agent_id;
      principal_trusted = is_some trusted_principals;
      payloads_omitted = opt_eq bundle.manifest.protected.payloads (some "omitted");
      parents_unresolved = unresolved;
    })
