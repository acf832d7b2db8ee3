-- ===== src/Recorder/Steps.antt =====
-- services/recorder/src/sealedrun_recorder/steps.py: self-reported steps, checked before anything is
-- sealed. Messages are shortened.
pub mod Marked
use sealedrun.Prelude.{
  ℕ, String, ◌==◌, Bool, true, false, ◌&&◌, not, Option, none, some, List, [], ◌∷◌, all, any, elem,
  is_nil, is_some, or_else, if◌then◌else◌, ltb, opt_eq, Dict, lookup, insert, dict_keys,
}
use sealedrun.Result.{value_error, Result, ok, err, raise_if, or_raise, ◌>>=◌, ◌>>◌}
use sealedrun.Model.{Bytes}
use sealedrun.Json
use sealedrun.Json.{Json, Fields}

abbrev pub self_reported_kinds : List String
self_reported_kinds =
    "llm_call" ∷ "tool_call" ∷ "memory_read" ∷ "memory_write" ∷ "policy_decision" ∷ "human_approval"
    ∷ "note" ∷ []

abbrev pub outcomes : List String
outcomes = "success" ∷ "error" ∷ "blocked" ∷ "pending" ∷ "timeout" ∷ []

abbrev pub reserved_extensions : List String
reserved_extensions =
    "sealedrun.proxy" ∷ "sealedrun.otel" ∷ "sealedrun.anchor" ∷ "sealedrun.delegation"
    ∷ "sealedrun.imported" ∷ "sealedrun.tombstone" ∷ []

abbrev pub step_label_sources : List String
step_label_sources = "manual" ∷ "header" ∷ []

-- `TARGET_LIMITS` of live.py
abbrev pub target_limits : Dict ℕ
target_limits =
    ("type", 16) ∷ ("name", 256) ∷ ("location", 16) ∷ ("endpoint", 2048) ∷ ("provider", 256) ∷ []

-- `Step`
pub record Posted : Type 0 where
  pub kind : String
  pub target : Fields
  pub actor : Option (Dict String)
  pub outcome : String
  pub data_labels : List String
  pub policy : Option Fields
  pub parent_record_id : Option String
  pub extensions : Dict Json
  pub request : Option String
  pub response : Option String
  pub request_base64 : Option String
  pub response_base64 : Option String
  pub request_media_type : Option String
  pub response_media_type : Option String
  pub system_prompt : Option String

-- The calls of json, pydantic, jsonschema and base64; `none` is a ValueError of theirs.
pub record Checker : Type 0 where
  pub loads : Bytes → Option Json
  pub model_validate : Fields → Option Posted
  -- the violations of `#/$defs/<name>` of record.json, and those of the extensions
  pub def_errors : String → Fields → List String
  pub extension_errors : Dict Json → List String
  pub b64decode : String → Option Bytes
  pub encode : String → Bytes
  -- `len` of a text
  pub text_length : String → ℕ
  -- `str` of a value that may be `None`
  pub str : Option Json → String

-- The source of a label's provenance.
abbrev pub source_of : Json → Option String
source_of provenance = Json.text_at "source" provenance

abbrev pub is_among : List String → Option String → Bool
is_among allowed none = false
is_among allowed (some s) = elem s allowed

abbrev pub labels_sourced : Fields → Bool
labels_sourced Json.no_fields = true
labels_sourced (Json.field label provenance rest) =
    is_among step_label_sources (source_of provenance) && labels_sourced rest

-- `_mark_self_reported` on what the extensions hold under the three names it looks at.
abbrev pub check_labels : Option Json → Result (Unit {0})
check_labels (some (Json.object labels)) =
    raise_if (not (labels_sourced labels)) (value_error "source must be manual or header")
check_labels _ = ok tt

abbrev pub check_receipt_source : Option Json → Result (Unit {0})
check_receipt_source (some (Json.object receipt)) =
    raise_if
      (not (opt_eq (Json.given_text (Json.field_of "observed_by" receipt)) (some "self_reported")))
      (value_error "a step's receipt is self_reported")
check_receipt_source _ = ok tt

abbrev pub own_marker : Option Json → Fields
own_marker (some (Json.object own)) = own
own_marker _ = Json.no_fields

-- `_mark_self_reported`
unfoldable pub mark_self_reported : Dict Json → Result (Dict Json)
mark_self_reported extensions = do
  raise_if (any (λ k. elem k reserved_extensions) (dict_keys extensions))
      (value_error "written by the recorder, not by a step")
  check_labels (lookup "sealedrun.labels" extensions)
  check_receipt_source (lookup "sealedrun.receipt" extensions)
  ok (
      insert "sealedrun.step"
        (Json.object (
          Json.set_field "source" (Json.text "self_reported")
            (own_marker (lookup "sealedrun.step" extensions))))
        extensions)

module _ (checker : Checker) where
  -- A text of the target that is longer than its limit.
  unfoldable pub too_long : Fields → Dict ℕ → Bool
  too_long target [] = false
  too_long target ((key, limit) ∷ limits) =
      let rest = too_long target limits in
      elim (Json.given_text (Json.field_of key target)) [
        | none ↦ rest
        | some text ↦ if ltb limit (checker.text_length text) then true else rest
      ]

  unfoldable pub check_def : String → Option Fields → Result (Unit {0})
  check_def name none = ok tt
  check_def name (some value) =
      raise_if (not (is_nil (checker.def_errors name value))) (value_error name)

  unfoldable pub check_base64 : Option String → Result (Unit {0})
  check_base64 none = ok tt
  check_base64 (some encoded) =
      raise_if (not (is_some (checker.b64decode encoded))) (value_error "not valid base64")

  -- `parse_step` behind the parsing
  unfoldable pub check_step : Posted → Result Posted
  unfolding too_long check_def check_base64
  check_step step = do
    raise_if (not (elem step.kind self_reported_kinds)) (value_error "kind")
    raise_if (not (elem step.outcome outcomes)) (value_error "outcome")
    raise_if (too_long step.target target_limits) (value_error "target: longer than its limit")
    check_def "target" (some step.target)
    check_def "policy" step.policy
    raise_if (not (all (λ label. not (label == "")) step.data_labels))
        (value_error "data_labels must be non-empty strings")
    extensions ← mark_self_reported step.extensions
    raise_if (not (is_nil (checker.extension_errors extensions))) (value_error "extensions")
    raise_if (is_some step.request && is_some step.request_base64)
        (value_error "request and request_base64 are exclusive")
    raise_if (is_some step.response && is_some step.response_base64)
        (value_error "response and response_base64 are exclusive")
    check_base64 step.request_base64
    check_base64 step.response_base64
    ok (record step { extensions = extensions })

  -- `parse_step`
  unfoldable pub parse_step : Bytes → Result Posted
  parse_step body = do
    value ← or_raise (checker.loads body) (value_error "body must be JSON")
    fields ← or_raise (Json.as_object value) (value_error "body must be a JSON object")
    step ← or_raise (checker.model_validate fields) (value_error "step")
    check_step step

  -- `_body`
  unfoldable pub body_of : Option String → Option String → Result (Option Bytes)
  body_of (some text) encoded = ok (some (checker.encode text))
  body_of none (some encoded) = do
    body ← or_raise (checker.b64decode encoded) (value_error "not valid base64")
    ok (some body)
  body_of none none = ok none

  -- The bodies among the arguments of `fields`.
  unfoldable pub bodies_of : Posted → Result (Option Bytes × Option Bytes)
  bodies_of step = do
    request ← body_of step.request step.request_base64
    response ← body_of step.response step.response_base64
    ok (request, response)
