-- ===== src/Tests/ExportExamples.antt =====
-- A live run of the tables, with one body, is exported.
use sealedrun.Prelude.{◌≡◌, refl, none, some, false, [], ◌∷◌}
use sealedrun.Model.{Record}
use sealedrun.Bundle.Write.{Contents}
use sealedrun.Recorder.Store.{Db, record_row}
use sealedrun.Recorder.Export.{
  Exported, contents_of, contents_of_run, with_run, documents, delegation_of, gather, receipts,
  body_from, payload_bytes,
}
use sealedrun.Recorder.Export.Complete.{IsComplete, contents_of-IsComplete}
use sealedrun.Tests.Toy.{toy_delegation, toy_doc, toy_seal, toy_first, toy_row}

-- A record with a request.
abbrev toy_asked : Record
toy_asked = toy_seal (record (toy_doc 1 "b" "tool_call" "h") {
  payload = some (record {
    storage = "bundle";
    request_hash = some "k";
    request_size = some 2;
    request_media_type = none;
    response_hash = none;
    response_size = none;
    response_media_type = none;
  });
})

-- The rows stand out of order.
abbrev toy_tables : Db
toy_tables = record {
  runs = toy_row ∷ [];
  records = record_row toy_asked ∷ record_row toy_first ∷ [];
  payloads =
      (record { digest = "k"; hash_alg = "sha-256"; size_bytes = 2; body = 1 ∷ 2 ∷ [] }) ∷ [];
  delegations = ("d", toy_delegation) ∷ [];
  bundles = [];
}

abbrev toy_taken : Contents
toy_taken = record {
  delegations = toy_delegation ∷ [];
  runs = (toy_first ∷ toy_asked ∷ []) ∷ [];
  payloads = "k" ∷ [];
  fetch = body_from toy_tables.payloads;
  anchors = [];
  payloads_omitted = false;
}

toy_exported : contents_of "r" false toy_tables ≡ Exported.exported (toy_row, toy_taken)
unfolding contents_of with_run contents_of_run documents record_row delegation_of gather receipts
toy_exported = refl

toy_size : payload_bytes "r" toy_tables.records ≡ 2
unfolding payload_bytes record_row
toy_size = refl

contents_of-IsComplete_example :
    (toy_row.source ≡ "live") × IsComplete false (documents "r" toy_tables.records) toy_taken
contents_of-IsComplete_example =
    contents_of-IsComplete "r" false toy_tables toy_row toy_taken toy_exported
