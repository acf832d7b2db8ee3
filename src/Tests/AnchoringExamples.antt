-- ===== src/Tests/AnchoringExamples.antt =====
-- A cycle of two witnesses over a run of one record.
use sealedrun.Prelude.{
  ℕ, String, List, ◌≡◌, ◌⊎◌, refl, none, some, true, false, [], ◌∷◌, sorted_set, nat_eq,
  if◌then◌else◌,
}
use sealedrun.Result.{Result, ok}
use sealedrun.Model.{Record, no_extensions, WitnessReceipt}
use sealedrun.Keys.{sign}
use sealedrun.Hashing.{digest, object_hash}
use sealedrun.Signing.{seal, signing_input}
use sealedrun.Writer.{preview, kept_extensions, seal_doc}
use sealedrun.Recorder.Store.{record_row, last_row, count_cloud_labels}
use sealedrun.Recorder.Live
use sealedrun.Recorder.Live.{
  LiveRuns, writer_of, head, head_with, append_with, seal_step, step_payload, with_prompt,
  with_receipt, check_target, settle, store_step, store_body, advance_run,
}
use sealedrun.Recorder.Anchoring.{
  AnchorStatus, Anchoring, Witnesses, Turn, State, anchor_step, as_written, write, stamp_with,
  publish_with, log_part, behind, both_parts, anchor_head, anchor_run, enabled, timestamp,
  timestamp_any, publish, succeeded, failed,
}
use sealedrun.Recorder.Anchoring.Written.{IsIdle, IsCycle, anchor_run-IsCycle}
use sealedrun.Tests.Toy.{toy, toy_doc, toy_seal, toy_first, toy_live}

abbrev toy_receipt : WitnessReceipt
toy_receipt = record { digest = "h"; body = "r" }

-- The first try of the authority fails.
abbrev toy_witnesses : Witnesses
toy_witnesses = record {
  tsa_reply = λ url attempt. if nat_eq attempt 1 then none else some (200, []);
  tsa_chain = λ url. [];
  tsa_receipt = λ anchored content chain. some toy_receipt;
  log_reply = some (201, []);
  log_receipt = λ anchored content. some toy_receipt;
  hostname = λ url. some "w";
}

abbrev toy_config : Anchoring
toy_config = record { urls = "https://w" ∷ []; rekor = "https://l" }

abbrev toy_turn : String → Turn
toy_turn new_id = record {
  before = λ live. live;
  now = 5;
  new_id = new_id;
  at = "2025";
  committed = true;
}

abbrev toy_stored : LiveRuns
toy_stored = record toy_live { db = record toy_live.db { records = record_row toy_first ∷ [] } }

abbrev toy_status : AnchorStatus
toy_status = record { last_ok = []; last_error = [] }

abbrev toy_anchor : ℕ → String → String → String → Record
toy_anchor seq record_id type url = toy_seal (record (toy_doc seq record_id "anchor" "h") {
  target = record {
    type = "witness";
    name = "w";
    location = none;
    provider = none;
    endpoint = some url;
  };
  outcome = "success";
  extensions = some (record no_extensions {
    anchor = some (record {
      type = type;
      anchored_hash = "h";
      anchored_seq = 0;
      receipt = toy_receipt;
      witness = url;
    });
  });
})

abbrev toy_cycle : Result (List Record) × State
toy_cycle =
    anchor_run toy toy_witnesses toy_config "r" (toy_turn "b") (toy_turn "c")
      (toy_stored, toy_status)

abbrev toy_records : List Record
toy_records = toy_anchor 1 "b" "rfc3161" "https://w" ∷ toy_anchor 2 "c" "rekor" "https://l" ∷ []

toy_anchored : toy_cycle ≡ (ok toy_records, toy_cycle.1)
unfolding anchor_run enabled head head_with writer_of last_row record_row anchor_head both_parts
    behind log_part publish_with stamp_with timestamp_any timestamp publish write as_written
    anchor_step Live.append append_with seal_step step_payload with_prompt with_receipt check_target
    preview kept_extensions seal_doc seal object_hash digest signing_input sorted_set settle
    store_step store_body advance_run count_cloud_labels succeeded failed sign
toy_anchored = refl

anchor_run-IsCycle_example :
    ((enabled toy_config ≡ false)
      × IsIdle toy toy_witnesses (toy_stored, toy_status) (toy_cycle.1) toy_records)
    ⊎ (((head "r" toy_stored).1.db ≡ toy_stored.db)
        × IsCycle toy toy_witnesses toy_config
            (toy_turn "b")
            (toy_turn "c")
            (head "r" toy_stored).0
            ((head "r" toy_stored).1, toy_status)
            (toy_cycle.1)
            toy_records)
anchor_run-IsCycle_example =
    anchor_run-IsCycle toy toy_witnesses toy_config "r" (toy_turn "b") (toy_turn "c") toy_stored
      toy_status (toy_cycle.1) toy_records toy_anchored
