-- ===== src/Recorder/Anchoring.antt =====
-- services/recorder/src/sealedrun_recorder/anchoring.py: a cycle for one run. The replies of the witnesses
-- are inputs. The chain that an authority publishes, the receipts (ASN.1) and the host of a URL are
-- other modules' and libraries'; messages are shortened. The lock of a run keeps other cycles out and
-- no other task: what these do between the head and a record of the cycle is `Turn.before`.
pub mod Written
use sealedrun.Prelude.{
  ℕ, String, ◌==◌, Bool, true, false, ◌&&◌, ◌||◌, not, Option, none, some, List, [], ◌∷◌, ◌++◌,
  elem, is_nil, or_else, if◌then◌else◌, nat_eq, Dict, insert, erase, filter,
}
use sealedrun.Prelude.Texts.{rstrip_slash}
use sealedrun.Result.{
  Exc, value_error, key_error, live_run, invalid_record, verification, body_too_large, type_error,
  runtime_error, export_error, Result, ok, err, ◌>>=◌,
}
use sealedrun.Model.{Bytes, Record, Extensions, no_extensions, Anchor, WitnessReceipt}
use sealedrun.Library.{Library}
use sealedrun.Recorder.Live.{LiveRuns, Step, append, head}

-- `AnchorStatus`; a time and a URL, or a time and a message.
pub record AnchorStatus : Type 0 where
  pub last_ok : Dict (String × String)
  pub last_error : Dict (String × String)

-- `AnchorStatus.ok` and `AnchorStatus.failed`
unfoldable pub succeeded : String → String → String → AnchorStatus → AnchorStatus
succeeded name at url status = record {
  last_ok = insert name (at, url) status.last_ok;
  last_error = erase name status.last_error;
}

unfoldable pub failed : String → String → String → AnchorStatus → AnchorStatus
failed name at message status = record status {
  last_error = insert name (at, message) status.last_error;
}

-- `Anchoring.__init__`: the authorities, and the log, which is an empty text where it is off.
pub record Anchoring : Type 0 where
  pub urls : List String
  pub rekor : String

unfoldable pub configure : List String → String → String → String → Anchoring
configure anchors tsa_url tsa_fallback_url rekor_url = record {
  urls =
      (if elem "tsa" anchors
        then filter (λ u. not (u == "")) (tsa_url ∷ tsa_fallback_url ∷ [])
        else []);
  rekor = (if elem "rekor" anchors then rstrip_slash rekor_url else "");
}

-- `enabled`
unfoldable pub enabled : Anchoring → Bool
enabled config = not (is_nil config.urls) || not (config.rekor == "")

-- What the witnesses and their modules answer: a status and a body, or `none` for an exception of
-- the request or a reply that is too large.
pub record Witnesses : Type 0 where
  -- the reply of an authority to a head, by the try
  pub tsa_reply : String → ℕ → Option (ℕ × Bytes)
  pub tsa_chain : String → List String
  -- `rfc3161.receipt_from`; `none` is an AnchorError
  pub tsa_receipt : String → Bytes → List String → Option WitnessReceipt
  pub log_reply : Option (ℕ × Bytes)
  -- `rekor.receipt_from` of the parsed entry; `none` is a RekorError or a ValueError
  pub log_receipt : String → Bytes → Option WitnessReceipt
  -- `urlsplit(url).hostname`
  pub hostname : String → Option String

-- What is outside of one record: the other tasks while the witness is asked, the clock, the id
-- factory and the commit.
pub record Turn : Type 0 where
  pub before : LiveRuns → LiveRuns
  pub now : ℕ
  pub new_id : String
  pub at : String
  pub committed : Bool

-- `_timestamp`
unfoldable pub timestamp : Witnesses → String → ℕ → String → Option WitnessReceipt
timestamp witnesses url attempt anchored = elim (witnesses.tsa_reply url attempt) [
  | none ↦ none
  | some (status, content) ↦
      if nat_eq status 200
      then witnesses.tsa_receipt anchored content (witnesses.tsa_chain url)
      else none
]

-- The two tries of one authority in `_timestamp_any`.
either_try : Option WitnessReceipt → Option WitnessReceipt → Option WitnessReceipt
either_try none second = second
either_try (some receipt) second = some receipt

-- What the first authority that answers gave, or the others.
first_answer :
    Option WitnessReceipt
    → String
    → Option (WitnessReceipt × String)
    → Option (WitnessReceipt × String)
first_answer (some receipt) url others = some (receipt, url)
first_answer none url others = others

-- `_timestamp_any`
unfoldable pub timestamp_any : Witnesses → List String → String → Option (WitnessReceipt × String)
unfolding either_try first_answer
timestamp_any witnesses [] anchored = none
timestamp_any witnesses (url ∷ urls) anchored =
    first_answer
      (either_try (timestamp witnesses url 1 anchored) (timestamp witnesses url 2 anchored)) url
      (timestamp_any witnesses urls anchored)

-- `_publish`
unfoldable pub publish : Witnesses → String → Option WitnessReceipt
publish witnesses anchored = elim witnesses.log_reply [
  | none ↦ none
  | some (status, content) ↦
      if nat_eq status 200 || nat_eq status 201
      then witnesses.log_receipt anchored content
      else none
]

-- The `append` of `_write`.
unfoldable pub anchor_step : Anchor → String → String → Turn → Step
anchor_step anchor name url turn = record {
  kind = "anchor";
  fields = record {
    target = record {
      type = "witness";
      name = name;
      location = none;
      provider = none;
      endpoint = some url;
    };
    actor = none;
    payload = none;
    data_labels = [];
    policy = none;
    outcome = "success";
    parent_record_id = none;
    extensions = some (record no_extensions { anchor = some anchor });
    occurred_at = none;
    record_id = none;
    now = turn.now;
    new_id = turn.new_id;
  };
  request = none;
  response = none;
  request_media_type = none;
  response_media_type = none;
  check = false;
  receipt = none;
  system_prompt = none;
}

-- `except LiveRunError` of `_write` and of `_anchor_locked`: no record; the others are passed on.
unfoldable pub no_records : Exc → Result (List Record)
no_records (live_run m) = ok []
no_records e = err e

unfoldable pub as_written : Result Record × LiveRuns → Result (List Record) × LiveRuns
as_written (ok entry, live) = (ok (entry ∷ []), live)
as_written (err e, live) = (no_records e, live)

-- An anchored head, with its seq.
abbrev pub Head : Type 0
Head = ℕ × String

abbrev pub State : Type 0
State = LiveRuns × AnchorStatus

abbrev pub or_host : Option String → String → String
or_host none url = url
or_host (some host) url = if host == "" then url else host

module _ (lib : Library) (witnesses : Witnesses) where
  -- `_write`; no record is `None`.
  unfoldable pub write :
      String
      → String
      → String
      → Head
      → WitnessReceipt
      → Turn
      → LiveRuns
      → Result (List Record) × LiveRuns
  unfolding anchor_step as_written
  write run_id type url (seq, anchored) receipt turn live = as_written (
      append lib run_id
        (anchor_step
          (record {
            type = type;
            anchored_hash = anchored;
            anchored_seq = seq;
            receipt = receipt;
            witness = url;
          })
          (or_host (witnesses.hostname url) url) url turn)
        turn.committed live)

  -- The authorities' part of `_anchor_locked`.
  unfoldable pub stamp_with :
      String → Head → Turn → Option (WitnessReceipt × String) → State → Result (List Record) × State
  stamp_with run_id at turn none (live, status) =
      (ok [], (turn.before live, failed "tsa" turn.at "every authority failed" status))
  stamp_with run_id at turn (some (receipt, url)) (live, status) =
      let (answer, live') = write run_id "rfc3161" url at receipt turn (turn.before live) in
      (answer, (live', succeeded "tsa" turn.at url status))

  -- The log's part.
  unfoldable pub publish_with :
      String → String → Head → Turn → Option WitnessReceipt → State → Result (List Record) × State
  publish_with run_id rekor at turn none (live, status) =
      (ok [], (turn.before live, failed "rekor" turn.at "log" status))
  publish_with run_id rekor at turn (some receipt) (live, status) =
      let (answer, live') = write run_id "rekor" rekor at receipt turn (turn.before live) in
      (answer, (live', succeeded "rekor" turn.at rekor status))

  unfoldable pub log_part : Anchoring → String → Head → Turn → State → Result (List Record) × State
  unfolding publish_with
  log_part config run_id at turn state =
      if config.rekor == ""
      then (ok [], state)
      else publish_with run_id config.rekor at turn (publish witnesses at.1) state

  unfoldable pub behind : List Record → Result (List Record) × State → Result (List Record) × State
  behind stamped (ok logged, after) = (ok (stamped ++ logged), after)
  behind stamped (err e, after) = (err e, after)

  -- The records of the authorities, and those of the log behind them.
  unfoldable pub both_parts :
      Anchoring → String → Head → Turn → Result (List Record) × State → Result (List Record) × State
  unfolding log_part behind
  both_parts config run_id at turn (err e, state) = (err e, state)
  both_parts config run_id at turn (ok stamped, state) =
      behind stamped (log_part config run_id at turn state)

  -- `_anchor_locked` behind the head.
  unfoldable pub anchor_head :
      Anchoring
      → String
      → Turn
      → Turn
      → Result (ℕ × String × String) × LiveRuns
      → AnchorStatus
      → Result (List Record) × State
  unfolding stamp_with both_parts
  anchor_head config run_id first second (err e, live) status = (no_records e, (live, status))
  anchor_head config run_id first second (ok (seq, anchored, kind), live) status =
      if kind == "anchor"
      then (ok [], (live, status))
      else both_parts config run_id (seq, anchored) second
          (if is_nil config.urls
            then (ok [], (live, status))
            else stamp_with run_id (seq, anchored) first
                (timestamp_any witnesses config.urls anchored) (live, status))

  -- `anchor_run`
  unfoldable pub anchor_run :
      Anchoring → String → Turn → Turn → State → Result (List Record) × State
  unfolding anchor_head
  anchor_run config run_id first second (live, status) =
      if enabled config
      then anchor_head config run_id first second (head run_id live) status
      else (ok [], (live, status))
