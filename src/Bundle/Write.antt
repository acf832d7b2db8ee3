-- ===== src/Bundle/Write.antt =====
-- packages/sealedrun-py/src/sealedrun/bundle.py: `write_bundle`. What it answers is the sealed manifest and
-- the files in the order in which they are written. The JSON texts are a library's.
pub mod Entry
use Prim.Native.String
use sealedrun.Prelude.{
  ℕ, String, ◌==◌, Bool, true, false, ◌&&◌, not, Option, none, some, List, [], ◌∷◌, ◌++◌, is_nil,
  is_some, last, length, map, sorted_set, if◌then◌else◌, ltb, Dict, lookup, insert, dict_keys,
}
use sealedrun.Result.{value_error, key_error, Result, ok, err, raise_if, or_raise, ◌>>=◌, ◌>>◌}
use sealedrun.Model.{Bytes, Record, Delegation, RunEntry, Manifest, ManifestDoc, WitnessReceipt}
use sealedrun.Library.{Library}
use sealedrun.Hashing.{payload_digest, zero_hash}
use sealedrun.Keys.{Signers, kid, public}
use sealedrun.Signing.{domain_manifest, seal, countersign}
use sealedrun.Bundle.Archive.{manifest_name}

-- `json.dumps(…).encode()` of each kind of document
pub record Printer : Type 0 where
  pub delegation : Delegation → Bytes
  pub record_line : Record → Bytes
  pub receipt : WitnessReceipt → Bytes
  pub manifest : Manifest → Bytes

-- The keyword arguments; `fetch` is a subscript of the payloads, whose keys are `payloads`.
pub record Contents : Type 0 where
  pub delegations : List Delegation
  pub runs : List (List Record)
  pub payloads : List String
  pub fetch : String → Result Bytes
  pub anchors : Dict WitnessReceipt
  pub payloads_omitted : Bool

-- `bundle_id` and `created_at`, given or generated
pub record Stamp : Type 0 where
  pub bundle_id : String
  pub created_at : String
  pub software : String

-- The entry of a run that starts with `first`.
unfoldable pub entry_of : Record → List Record → Result RunEntry
entry_of first more = do
  zero ← zero_hash first.protected.hash_alg
  ok (record {
    run_id = first.protected.run_id;
    hash_alg = first.protected.hash_alg;
    record_count = length (first ∷ more);
    first_seq = first.protected.seq;
    first_hash = (if ltb 0 first.protected.seq then first.protected.prev_hash else zero);
    last_hash = (last first more).hash;
    complete = (last first more).protected.kind == "run_end";
  })

-- The entries of the runs.
run_entries : List (List Record) → Result (List RunEntry)
unfolding entry_of
run_entries [] = ok []
run_entries ([] ∷ runs) = err (key_error "0")
run_entries ((first ∷ more) ∷ runs) = do
  entry ← entry_of first more
  entries ← run_entries runs
  ok (entry ∷ entries)

abbrev joined : List String → String
joined [] = ""
joined (s ∷ rest) = String.◌++◌ s (joined rest)

-- The principal of the delegations, if they have one and the same.
one_principal : List Delegation → Option String
one_principal [] = none
one_principal (d ∷ []) = some d.protected.principal_id
one_principal (d ∷ e ∷ ds) = elim (one_principal (e ∷ ds)) [
  | none ↦ none
  | some principal ↦ if d.protected.principal_id == principal then some principal else none
]

module _ (lib : Library) (printer : Printer) where
  -- `_jsonl`
  jsonl : List Record → Bytes
  jsonl [] = []
  jsonl (r ∷ rs) = printer.record_line r ++ 10 ∷ jsonl rs

  delegation_files : List Delegation → Dict Bytes → Dict Bytes
  delegation_files [] files = files
  delegation_files (d ∷ ds) files = delegation_files ds (
      insert (joined ("delegations/" ∷ d.protected.delegation_id ∷ ".json" ∷ []))
        (printer.delegation d) files)

  run_files : List (List Record) → Dict Bytes → Dict Bytes
  unfolding jsonl
  run_files [] files = files
  run_files ([] ∷ runs) files = run_files runs files
  run_files ((first ∷ more) ∷ runs) files = run_files runs (
      insert (joined ("runs/" ∷ first.protected.run_id ∷ ".jsonl" ∷ [])) (jsonl (first ∷ more))
        files)

  anchor_files_of : Dict WitnessReceipt → Dict Bytes → Dict Bytes
  anchor_files_of [] files = files
  anchor_files_of ((record_id, receipt) ∷ anchors) files =
      anchor_files_of anchors
        (insert (joined ("anchors/" ∷ record_id ∷ ".json" ∷ [])) (printer.receipt receipt) files)

  -- `files` at line 131
  all_files : Contents → Dict Bytes
  unfolding delegation_files run_files anchor_files_of
  all_files contents =
      anchor_files_of contents.anchors
        (run_files contents.runs (delegation_files contents.delegations []))

  digests_of : String → Dict Bytes → Result (Dict String)
  digests_of hash_alg [] = ok []
  digests_of hash_alg ((path, body) ∷ files) = do
    digest ← payload_digest lib hash_alg body
    digests ← digests_of hash_alg files
    ok ((path, digest) ∷ digests)

  -- The files by their sorted paths.
  in_order : List String → Dict Bytes → List (String × Bytes)
  in_order [] files = []
  in_order (path ∷ paths) files = elim (lookup path files) [
    | none ↦ in_order paths files
    | some body ↦ (path, body) ∷ in_order paths files
  ]

  -- The loop over the sorted payload digests: the written bodies and the digests behind them.
  write_payloads :
      String
      → (String → Result Bytes)
      → List String
      → Dict String
      → Result (List (String × Bytes) × Dict String)
  write_payloads hash_alg fetch [] digests = ok ([], digests)
  write_payloads hash_alg fetch (body_hash ∷ rest) digests = do
    body ← fetch body_hash
    digest ← payload_digest lib hash_alg body
    raise_if (not (body_hash == digest)) (value_error "payload key is not the digest of its body")
    let path = joined ("payloads/" ∷ hash_alg ∷ "/" ∷ body_hash ∷ [])
    (written, all) ← write_payloads hash_alg fetch rest (insert path body_hash digests)
    ok ((path, body) ∷ written, all)

  sign_manifest : ManifestDoc → Signers → Option Signers → Result Manifest
  sign_manifest doc exporter principal = do
    manifest ← seal lib lib.canonical_manifest (λ m. m.hash_alg) doc domain_manifest exporter
    elim principal [
      | none ↦ ok manifest
      | some keys ↦ countersign lib manifest domain_manifest keys
    ]

  -- `write_bundle`
  unfoldable pub write_bundle :
      Signers
      → Option Signers
      → String
      → Stamp
      → Contents
      → Result (Manifest × List (String × Bytes))
  unfolding run_entries one_principal all_files digests_of in_order write_payloads sign_manifest
  write_bundle exporter principal hash_alg stamp contents = do
    raise_if (contents.payloads_omitted && not (is_nil contents.payloads))
        (value_error "payloads_omitted excludes payload bodies")
    entries ← run_entries contents.runs
    principal_id ←
        or_raise (one_principal contents.delegations)
          (value_error "delegations of exactly one principal")
    let files = all_files contents
    digests ← digests_of hash_alg files
    (bodies, listed) ← write_payloads hash_alg contents.fetch (sorted_set contents.payloads) digests
    agent_id ← kid lib (public lib exporter)
    let doc : ManifestDoc = record {
      spec_version = "0.1";
      bundle_id = stamp.bundle_id;
      created_at = stamp.created_at;
      exporter_agent_id = agent_id;
      software = stamp.software;
      principal_id = principal_id;
      delegations = map (λ d. d.protected.delegation_id) contents.delegations;
      runs = entries;
      files = listed;
      hash_alg = hash_alg;
      payloads = (if contents.payloads_omitted then some "omitted" else none);
    }
    manifest ← sign_manifest doc exporter principal
    ok (
      manifest,
      in_order (sorted_set (dict_keys files)) files
          ++ bodies
          ++ (manifest_name, printer.manifest manifest) ∷ [],
    )
