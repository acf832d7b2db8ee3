-- ===== src/Tests/StepExamples.antt =====
-- A posted step is accepted.
use sealedrun.Prelude.{Option, ◌≡◌, refl, none, some, [], ◌∷◌}
use sealedrun.Result.{ok}
use sealedrun.Model.{Bytes}
use sealedrun.Json
use sealedrun.Json.{Json}
use sealedrun.Recorder.Steps.{
  Posted, Checker, mark_self_reported, too_long, check_def, check_base64, check_step, parse_step,
  bodies_of,
}
use sealedrun.Recorder.Steps.Marked.{IsMarked, parse_step-IsMarked, parse_step-bodies_of}

abbrev toy_posted : Posted
toy_posted = record {
  kind = "tool_call";
  target = Json.field "name" (Json.text "search") Json.no_fields;
  actor = none;
  outcome = "success";
  data_labels = "nda" ∷ [];
  policy = none;
  parent_record_id = none;
  extensions =
      (
        "sealedrun.labels",
        Json.object (
            Json.field "nda" (Json.object (Json.field "source" (Json.text "manual") Json.no_fields))
              Json.no_fields),
      )
      ∷ ("sealedrun.step", Json.object (Json.field "source" (Json.text "proxy") Json.no_fields))
      ∷ [];
  request = some "q";
  response = none;
  request_base64 = none;
  response_base64 = some "cg";
  request_media_type = none;
  response_media_type = none;
  system_prompt = none;
}

abbrev toy_accepted_step : Posted
toy_accepted_step = record toy_posted {
  extensions =
      (
        "sealedrun.labels",
        Json.object (
            Json.field "nda" (Json.object (Json.field "source" (Json.text "manual") Json.no_fields))
              Json.no_fields),
      )
      ∷ (
        "sealedrun.step",
        Json.object (Json.field "source" (Json.text "self_reported") Json.no_fields),
      )
      ∷ [];
}

abbrev toy_checker : Checker
toy_checker = record {
  loads = λ body. some (Json.object Json.no_fields);
  model_validate = λ fields. some toy_posted;
  def_errors = λ name value. [];
  extension_errors = λ extensions. [];
  b64decode = λ text. some (114 ∷ []);
  encode = λ text. 113 ∷ [];
  text_length = λ text. 6;
  str = λ value. "None";
}

toy_parsed : parse_step toy_checker [] ≡ ok toy_accepted_step
unfolding parse_step check_step too_long check_def check_base64 mark_self_reported
toy_parsed = refl

parse_step-IsMarked_example : IsMarked toy_accepted_step.extensions
parse_step-IsMarked_example = parse_step-IsMarked toy_checker [] toy_accepted_step toy_parsed

parse_step-bodies_of_example :
    (bodies : Option Bytes × Option Bytes) × (bodies_of toy_checker toy_accepted_step ≡ ok bodies)
parse_step-bodies_of_example = parse_step-bodies_of toy_checker [] toy_accepted_step toy_parsed
