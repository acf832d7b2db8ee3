-- ===== src/Recorder/Store.antt =====
-- The tables of services/recorder/src/sealedrun_recorder/db.py that live runs use, and the rows that
-- live.py writes. A session's changes reach the tables at its commit, all or none.
use sealedrun.Prelude.{
  ℕ, String, ◌==◌, Bool, not, Option, none, some, List, [], ◌∷◌, ◌++◌, find, length, is_some,
  if◌then◌else◌, leb, opt_eq, Dict,
}
use sealedrun.Model.{Bytes, Record, Delegation, Manifest, Extensions, extensions_of}
use sealedrun.Run.{RunReport, count_labels}

pub record RunRow : Type 0 where
  pub run_id : String
  pub bundle_id : Option String
  pub source : String
  pub agent_id : String
  pub principal_id : String
  pub hash_alg : String
  pub started_at : String
  pub ended_at : Option String
  pub record_count : ℕ
  pub first_seq : ℕ
  pub last_hash : String
  pub complete : Bool
  pub anchors : ℕ
  pub labels_sent_to_cloud : Dict ℕ
  pub labels_self_reported : Dict ℕ
  pub run_label : Option String
  pub last_anchor_at : Option String

pub record RecordRow : Type 0 where
  pub record_id : String
  pub run_id : String
  pub seq : ℕ
  pub kind : String
  pub occurred_at : String
  pub target_type : String
  pub target_name : String
  pub target_location : Option String
  pub outcome : String
  pub decision : Option String
  pub hash : String
  pub document : Record

pub record PayloadRow : Type 0 where
  pub digest : String
  pub hash_alg : String
  pub size_bytes : ℕ
  pub body : Bytes

-- The report of a bundle as `BundleRow` keeps it.
pub record StoredReport : Type 0 where
  pub bundle_id : String
  pub principal_id : String
  pub exporter_agent_id : String
  pub principal_trusted : Bool
  pub runs : List RunReport

pub record BundleRow : Type 0 where
  pub bundle_id : String
  pub principal_id : String
  pub exporter_agent_id : String
  pub created_at : String
  pub imported_at : String
  pub size_bytes : ℕ
  pub manifest : Manifest
  pub report : StoredReport
  pub archive : Bytes

pub record Db : Type 0 where
  pub runs : List RunRow
  pub records : List RecordRow
  pub payloads : List PayloadRow
  pub delegations : Dict Delegation
  pub bundles : List BundleRow

-- `session.get(RunRow, run_id)`
abbrev pub get_run : String → List RunRow → Option RunRow
get_run run_id rows = find (λ row. row.run_id == run_id) rows

-- The row of a run replaced.
abbrev pub put_run : RunRow → List RunRow → List RunRow
put_run row [] = []
put_run row (r ∷ rows) = if r.run_id == row.run_id then row ∷ rows else r ∷ put_run row rows

-- The later of two rows by seq; of equals, the one at hand.
abbrev later : RecordRow → Option RecordRow → RecordRow
later row none = row
later row (some other) = if leb row.seq other.seq then other else row

-- The stored record of a run with the largest seq.
unfoldable pub last_row : String → List RecordRow → Option RecordRow
last_row run_id [] = none
last_row run_id (row ∷ rows) =
    let rest = last_row run_id rows in if row.run_id == run_id then some (later row rest) else rest

-- `_record_row`
unfoldable pub record_row : Record → RecordRow
record_row entry = record {
  record_id = entry.protected.record_id;
  run_id = entry.protected.run_id;
  seq = entry.protected.seq;
  kind = entry.protected.kind;
  occurred_at = entry.protected.occurred_at;
  target_type = entry.protected.target.type;
  target_name = entry.protected.target.name;
  target_location = entry.protected.target.location;
  outcome = entry.protected.outcome;
  decision = elim entry.protected.policy [ none ↦ none | some policy ↦ some policy.decision ];
  hash = entry.hash;
  document = entry;
}

-- `_store_payload`, the digest computed
unfoldable pub store_payload : String → String → Bytes → List PayloadRow → List PayloadRow
store_payload digest hash_alg body rows =
    if is_some (find (λ row. row.digest == digest) rows)
    then rows
    else rows
      ++ (record { digest = digest; hash_alg = hash_alg; size_bytes = length body; body = body })
        ∷ []

-- `_count_cloud_labels`
unfoldable pub count_cloud_labels : RunRow → Record → RunRow
count_cloud_labels run entry =
    if not (opt_eq entry.protected.target.location (some "cloud"))
    then run
    else if is_some (extensions_of entry.protected).step
    then record run {
      labels_self_reported = count_labels entry.protected.data_labels run.labels_self_reported;
    }
    else if entry.protected.outcome == "blocked"
    then run
    else record run {
      labels_sent_to_cloud = count_labels entry.protected.data_labels run.labels_sent_to_cloud;
    }

-- `_run_label`
unfoldable pub run_label : Option Extensions → Option String
run_label none = none
run_label (some e) = elim e.proxy [
  | none ↦ none
  | some label ↦ elim label [ none ↦ none | some text ↦ if text == "" then none else some text ]
]
