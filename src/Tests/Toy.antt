-- ===== src/Tests/Toy.antt =====
-- A library whose functions are constants, a delegation under it and a run of two records.
use sealedrun.Prelude.{ℕ, String, ◌==◌, true, false, Option, none, some, [], ◌∷◌, if◌then◌else◌}
use sealedrun.Model.{Doc, Record, Delegation, Extensions, no_extensions}
use sealedrun.Library.{Library}
use sealedrun.Keys.{Signers}
use sealedrun.Writer.{Writer, Fields}
use sealedrun.Recorder.Store.{RunRow}
use sealedrun.Recorder.Live.{LiveRuns, Step}
use sealedrun.Keys.Encoding.{to_big}
use sealedrun.Run.{Options, RunReport}

abbrev pub toy : Library
toy = record {
  hash_bytes = λ name body. body;
  canonical_record = λ doc. some [];
  canonical_delegation = λ doc. some [];
  canonical_manifest = λ doc. some [];
  canonical_keys = λ keys. [];
  canonical_rule = λ labels. [];
  hex = λ body. "h";
  from_hex = λ text. some [];
  b64url_encode = λ body. "k";
  b64url_decode = λ text. some (to_big 64 1);
  text_length = λ text. if text == "h" then 64 else 4;
  utf8 = λ text. [];
  sign_raw = λ alg key message. [];
  public_raw = λ alg key. [];
  ecdsa_raw = λ key message. (1, 2);
  ed25519_verify = λ key message signature. true;
  ecdsa_verify = λ key message signature. true;
  mldsa_verify = λ alg key message signature. true;
  inverse_mod = λ n p. none;
  parse_timestamp =
      λ text. if text == "2020" then some 1 else if text == "2030" then some 9 else some 5;
  format_timestamp = λ n. "2025";
  schema_errors = λ entry. [];
  extension_errors = λ e. [];
  rfc3161_verify = λ anchor witnesses. true;
  rekor_verify = λ anchor witnesses. true;
  trust_list = record { name = "w"; keys = [] } ∷ [];
}

abbrev pub toy_delegation : Delegation
toy_delegation = record {
  protected = record {
    spec_version = "0.1";
    delegation_id = "d";
    principal_id = "k";
    principal_keys = ("ml-dsa-65", "k") ∷ ("es256", "k") ∷ [];
    agent_id = "k";
    agent_keys = ("ml-dsa-65", "k") ∷ ("es256", "k") ∷ [];
    not_before = "2020";
    not_after = "2030";
    hash_alg = "sha-256";
    agent_name = none;
    scope = none;
  };
  hash = "h";
  signatures = ("ml-dsa-65", "k") ∷ ("es256", "k") ∷ [];
  principal_signatures = none;
}

abbrev pub toy_doc : ℕ → String → String → String → Doc
toy_doc seq record_id kind prev_hash = record {
  spec_version = "0.1";
  record_id = record_id;
  run_id = "r";
  seq = seq;
  occurred_at = "2025";
  principal_id = "k";
  agent_id = "k";
  kind = kind;
  actor = record { type = "agent"; id = "k" };
  target = record {
    type = "none";
    name = "run";
    location = none;
    provider = none;
    endpoint = none;
  };
  data_labels = [];
  outcome = "ok";
  hash_alg = "sha-256";
  prev_hash = prev_hash;
  payload = none;
  policy = none;
  parent_record_id = none;
  extensions = some (record no_extensions {
    delegation = some (record {
      delegation_id = "d";
      hash = "h";
      parent_run_id = none;
      parent_record_id = none;
      parent_delegation_hash = none;
    });
  });
}

abbrev pub toy_seal : Doc → Record
toy_seal doc = record {
  protected = doc;
  hash = "h";
  signatures = ("ml-dsa-65", "k") ∷ ("es256", "k") ∷ [];
  principal_signatures = none;
}

abbrev pub toy_first : Record
toy_first =
    toy_seal
      (toy_doc 0 "a" "run_start" "0000000000000000000000000000000000000000000000000000000000000000")

abbrev pub toy_second : Record
toy_second = toy_seal (toy_doc 1 "b" "run_end" "h")

abbrev pub toy_options : Options
toy_options = record {
  payloads = none;
  witnesses = [];
  strict_witness = true;
  strict_scope = true;
  strict_approval = true;
}

abbrev pub toy_report : RunReport
toy_report = record {
  run_id = "r";
  record_count = 2;
  first_seq = 0;
  last_hash = "h";
  complete = true;
  anchors = 0;
  anchors_witness_verified = 0;
  labels_sent_to_cloud = [];
  findings = [];
  receipts_proxy = 0;
  receipts_self_reported = 0;
  system_prompt_changes = [];
}

abbrev pub toy_signers : Signers
toy_signers = ("ml-dsa-65", []) ∷ ("es256", []) ∷ []

-- A new writer, and the writer behind the first record.
abbrev pub toy_new : Writer
toy_new = record {
  agent = toy_signers;
  delegation = toy_delegation;
  run_id = "r";
  hash_alg = "sha-256";
  principal_id = "k";
  agent_id = "k";
  closed = false;
  records = [];
  seq = 0;
  head = "0000000000000000000000000000000000000000000000000000000000000000";
}

abbrev pub toy_started : Writer
toy_started = record toy_new { records = toy_first ∷ []; seq = 1; head = "h" }

abbrev pub toy_fields : String → Option Extensions → Fields
toy_fields record_id extensions = record {
  target = record {
    type = "none";
    name = "run";
    location = none;
    provider = none;
    endpoint = none;
  };
  actor = none;
  payload = none;
  data_labels = [];
  policy = none;
  outcome = "ok";
  parent_record_id = none;
  extensions = extensions;
  occurred_at = none;
  record_id = none;
  now = 5;
  new_id = record_id;
}

-- A tool call behind the first record.
abbrev pub toy_call : Record
toy_call = toy_seal (toy_doc 1 "b" "tool_call" "h")

abbrev pub toy_called : Writer
toy_called = record toy_new { records = toy_first ∷ toy_call ∷ []; seq = 2; head = "h" }

abbrev pub toy_step : Step
toy_step = record {
  kind = "tool_call";
  fields = toy_fields "b" toy_call.protected.extensions;
  request = none;
  response = none;
  request_media_type = none;
  response_media_type = none;
  check = true;
  receipt = none;
  system_prompt = none;
}

abbrev pub toy_row : RunRow
toy_row = record {
  run_id = "r";
  bundle_id = none;
  source = "live";
  agent_id = "k";
  principal_id = "k";
  hash_alg = "sha-256";
  started_at = "2025";
  ended_at = none;
  record_count = 1;
  first_seq = 0;
  last_hash = "h";
  complete = false;
  anchors = 0;
  labels_sent_to_cloud = [];
  labels_self_reported = [];
  run_label = none;
  last_anchor_at = none;
}

abbrev pub toy_live : LiveRuns
toy_live = record {
  agent = toy_signers;
  delegation = toy_delegation;
  writers = ("r", toy_started) ∷ [];
  db = record { runs = toy_row ∷ []; records = []; payloads = []; delegations = []; bundles = [] };
}
