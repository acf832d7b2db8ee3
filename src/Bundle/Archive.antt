-- ===== src/Bundle/Archive.antt =====
-- packages/sealedrun-py/src/sealedrun/bundle.py: `read_bundle`. The zip format, JSON and the schemas
-- are of libraries: `Codec` is what the code calls of them. A JSON document of another shape than
-- the typed one is `none`. Messages are shortened.
pub mod Kept
pub mod Intact
use text.Mathlib.Text.{starts_with}
use sealedrun.Prelude.{
  ℕ, ◌+◌, ◌*◌, String, ◌==◌, Bool, true, false, ◌&&◌, ◌||◌, not, Option, none, some, List, [], ◌∷◌,
  any, elem, filter, length, last, map, is_nil, is_some, if◌then◌else◌, ltb, leb, Dict, insert,
  dict_keys,
}
use sealedrun.Result.{
  Exc, verification, value_error, key_error, live_run, invalid_record, body_too_large, type_error,
  runtime_error, export_error, Result, ok, err, raise_if, or_raise, ◌>>=◌, ◌>>◌,
}
use sealedrun.Model.{Bytes, Record, Delegation, Manifest, WitnessReceipt}
use sealedrun.Library.{Library}
use sealedrun.Hashing.{payload_digest}
use sealedrun.Bundle.{Bundle, refuse_if}
use sealedrun.Prelude.Texts.{removeprefix, removesuffix, split_on}

abbrev pub manifest_name : String
manifest_name = "manifest.json"

abbrev pub max_entries : ℕ
max_entries = 10000

abbrev pub max_entry_bytes : ℕ
max_entry_bytes = 64 * 1024 * 1024

abbrev pub max_manifest_bytes : ℕ
max_manifest_bytes = 4 * 1024 * 1024

abbrev pub max_total_bytes : ℕ
max_total_bytes = 4 * 1024 * 1024 * 1024

-- `zipfile.ZipInfo`
pub record ZipInfo : Type 0 where
  pub filename : String
  pub is_dir : Bool
  pub compress_size : ℕ
  pub file_size : ℕ

-- `zipfile.ZipFile`: `read name n` is `open(name).read(n)`, at most `n` bytes, or its exception:
-- `BadZipFile` is a `value_error`, `KeyError` a `key_error`, and `RuntimeError`, `zlib.error` and the
-- others that `read_bundle` does not catch are a `runtime_error`.
pub record Archive : Type 0 where
  pub infolist : List ZipInfo
  pub size : ℕ
  pub read : String → ℕ → Result Bytes

pub record Codec : Type 0 where
  pub is_zipfile : Bytes → Bool
  -- `none` is `BadZipFile`
  pub open_zip : Bytes → Option Archive
  pub json_manifest : Bytes → Option Manifest
  pub json_delegation : Bytes → Option Delegation
  pub json_record : String → Option Record
  pub json_receipt : Bytes → Option WitnessReceipt
  -- `content.decode().splitlines()`
  pub decode_lines : Bytes → Option (List String)
  -- `validate` against bundle.json and delegation.json
  pub manifest_errors : Manifest → List String
  pub delegation_errors : Delegation → List String

-- `except (BadZipFile, ValueError, KeyError, …)` of `read_bundle`; the other exceptions are passed on:
-- `runtime_error` stands for those of the libraries that it does not name.
abbrev pub as_malformed {ℓ} : {A : Type ℓ} → Result A → Result A
as_malformed (ok a) = ok a
as_malformed (err (verification c m r s)) = err (verification c m r s)
as_malformed (err (value_error message)) = err (verification "bundle" "malformed archive" none none)
as_malformed (err (key_error k)) = err (verification "bundle" "malformed archive" none none)
as_malformed (err (live_run m)) = err (live_run m)
as_malformed (err (invalid_record m)) = err (invalid_record m)
as_malformed (err (body_too_large m)) = err (body_too_large m)
as_malformed (err (type_error m)) = err (verification "bundle" "malformed archive" none none)
as_malformed (err (runtime_error m)) = err (runtime_error m)
as_malformed (err (export_error n m)) = err (export_error n m)

abbrev pub max_of : ℕ → ℕ → ℕ
max_of a b = if leb a b then b else a

abbrev pub min_of : ℕ → ℕ → ℕ
min_of a b = if leb a b then a else b

abbrev pub claimed : ZipInfo → ℕ
claimed i = max_of i.file_size i.compress_size

abbrev pub sum_of : List ℕ → ℕ
sum_of [] = 0
sum_of (n ∷ ns) = n + sum_of ns

abbrev pub distinct_names : List String → Bool
distinct_names [] = true
distinct_names (x ∷ xs) = not (elem x xs) && distinct_names xs

-- The entries that are not directories.
abbrev pub files_of : Archive → List ZipInfo
files_of archive = filter (λ i. not i.is_dir) archive.infolist

abbrev pub names_of : Archive → List String
names_of archive = map (λ i. i.filename) (files_of archive)

-- The limits of `_read_archive` on what the archive claims.
unfoldable pub check_claims : Archive → ℕ → ℕ → Result (Unit {0})
check_claims archive entry_limit total_limit = do
  refuse_if (ltb max_entries (length (files_of archive))) "bundle" "too many entries"
  refuse_if (not (distinct_names (names_of archive))) "bundle" "duplicate entry names"
  refuse_if (ltb archive.size (sum_of (map (λ i. i.compress_size) (files_of archive)))) "bundle"
      "entries overlap or exceed the archive"
  refuse_if (any (λ i. ltb entry_limit (claimed i)) (files_of archive)) "bundle"
      "entry exceeds size limit"
  refuse_if (ltb total_limit (sum_of (map claimed (files_of archive)))) "bundle"
      "archive exceeds uncompressed size limit"
  refuse_if (not (elem manifest_name (names_of archive))) "bundle" "manifest.json missing"

-- The file set against the manifest's listing.
unfoldable pub check_listing : List String → List String → Result (Unit {0})
check_listing names listed = do
  refuse_if (not (is_nil (filter (λ n. not (elem n listed || n == manifest_name)) names))) "bundle"
      "files not in manifest"
  refuse_if (not (is_nil (filter (λ p. not (elem p names)) listed))) "bundle" "files missing"

-- `_read_entry`
unfoldable pub read_entry : Archive → String → ℕ → Result Bytes
read_entry archive name limit = do
  content ← archive.read name (limit + 1)
  refuse_if (ltb limit (length content)) "bundle" "entry exceeds size limit"
  ok content

module _ (lib : Library) where
  -- `_payload_key` on the parts of the path
  unfoldable pub key_of_parts : List String → Bytes → String → Result String
  key_of_parts (folder ∷ alg ∷ name ∷ []) content hash_alg = do
    refuse_if (not (alg == hash_alg)) "bundle" "malformed payload path"
    digest ← payload_digest lib hash_alg content
    refuse_if (not (name == digest)) "bundle" "payload name is not the digest of its content"
    ok name
  key_of_parts _ content hash_alg = err (verification "bundle" "malformed payload path" none none)

  unfoldable pub payload_key : String → Bytes → String → Result String
  unfolding key_of_parts
  payload_key path content hash_alg = key_of_parts (split_on b'/' path) content hash_alg

  -- `_must_match` of a document that parsed.
  abbrev pub must_match : List String → Result (Unit {0})
  must_match errors = refuse_if (not (is_nil errors)) "schema" "document does not match its schema"

  edges : List Record → List Record
  edges [] = []
  edges (r ∷ rs) = r ∷ last r rs ∷ []

  check_edges : String → List Record → Result (Unit {0})
  check_edges run_id [] = ok tt
  check_edges run_id (r ∷ rs) = do
    must_match (lib.schema_errors r)
    raise_if (not (r.protected.run_id == run_id))
        (verification "run" "file holds records of another run" (some run_id) none)
    check_edges run_id rs

  module _ (codec : Codec) where
    -- `[_json(line) for line in lines if line]`
    parse_lines : List String → Result (List Record)
    parse_lines [] = ok []
    parse_lines (line ∷ lines) =
        let rest = parse_lines lines in
        if line == "" then rest else do
          entry ← or_raise (codec.json_record line) (value_error "json")
          records ← rest
          ok (entry ∷ records)

    unfoldable pub read_run : String → Bytes → Result (List Record)
    unfolding parse_lines edges check_edges
    read_run run_id content = do
      lines ← or_raise (codec.decode_lines content) (value_error "decode")
      records ← parse_lines lines
      check_edges run_id (edges records)
      ok records

    -- The branches of the loop of `_read_archive`, by the file's folder.
    unfoldable pub place_file : String → String → Bytes → Bundle → Result Bundle
    unfolding read_run
    place_file hash_alg path content bundle =
        if starts_with path "delegations/"
        then (do
          doc ← or_raise (codec.json_delegation content) (value_error "json")
          must_match (codec.delegation_errors doc)
          ok (record bundle {
            delegations = insert doc.protected.delegation_id doc bundle.delegations;
          }))
        else if starts_with path "runs/"
        then (do
          let run_id = removesuffix ".jsonl" (removeprefix "runs/" path)
          records ← read_run run_id content
          ok (record bundle { runs = insert run_id records bundle.runs }))
        else if starts_with path "payloads/"
        then (do
          key ← payload_key path content hash_alg
          ok (record bundle { payloads = insert key content bundle.payloads }))
        else if starts_with path "anchors/"
        then (do
          receipt ← or_raise (codec.json_receipt content) (value_error "json")
          ok (record bundle {
            anchors =
                insert (removesuffix ".json" (removeprefix "anchors/" path)) receipt bundle.anchors;
          }))
        else ok bundle

    -- The loop of `_read_archive` over the manifest's files left.
    unfoldable pub read_files : Archive → ℕ → String → Dict String → Bundle → Result Bundle
    read_files archive limit hash_alg [] bundle = ok bundle
    read_files archive limit hash_alg ((path, expected) ∷ files) bundle = do
      content ← read_entry archive path limit
      digest ← payload_digest lib hash_alg content
      refuse_if (not (digest == expected)) "bundle" "digest mismatch"
      placed ← place_file hash_alg path content bundle
      read_files archive limit hash_alg files placed

    -- `_read_archive`
    unfoldable pub read_archive : Archive → ℕ → ℕ → Result Bundle
    read_archive archive entry_limit total_limit = do
      check_claims archive entry_limit total_limit
      head ← read_entry archive manifest_name (min_of entry_limit max_manifest_bytes)
      manifest ← or_raise (codec.json_manifest head) (value_error "json")
      refuse_if (not (is_nil (codec.manifest_errors manifest))) "schema"
          "manifest does not match its schema"
      check_listing (names_of archive) (dict_keys manifest.protected.files)
      read_files archive entry_limit manifest.protected.hash_alg manifest.protected.files
          (record { manifest = manifest; delegations = []; runs = []; payloads = []; anchors = [] })

    -- `read_bundle`
    unfoldable pub read_bundle : Bytes → ℕ → ℕ → Result Bundle
    read_bundle source entry_limit total_limit = do
      refuse_if (not (codec.is_zipfile source)) "bundle" "not a zip archive"
      as_malformed (do
        archive ← or_raise (codec.open_zip source) (value_error "BadZipFile")
        read_archive archive entry_limit total_limit)
