-- ===== src/Tests/ApprovalExamples.antt =====
-- A step that a human approved, and a second step for the same request.
use sealedrun.Prelude.{◌≤◌, ◌≡◌, refl, List, none, some, [], ◌∷◌}
use sealedrun.Model.{Doc, no_extensions}
use sealedrun.Approval.{findings}
use sealedrun.Approval.Budget.{about, is_cleared, approved, cleared, cleared-approved}
use sealedrun.Tests.Toy.{toy_doc}

abbrev asks : Doc → Doc
asks doc = record doc {
  payload = some (record {
    storage = "omitted";
    request_hash = some "q";
    request_size = some 1;
    request_media_type = none;
    response_hash = none;
    response_size = none;
    response_media_type = none;
  });
}

abbrev approval : Doc
approval = record (asks (toy_doc 1 "b" "human_approval" "h")) {
  extensions = some (record no_extensions { approval = some "approved" });
}

abbrev gated : Doc
gated = record (asks (toy_doc 2 "c" "tool_call" "h")) {
  policy = some (record {
    rule_id = "p";
    decision = "require_approval";
    reason = "r";
    policy_set_hash = none;
  });
}

abbrev approved_once : List Doc
approved_once = approval ∷ gated ∷ gated ∷ []

cleared_once : cleared "q" approved_once [] ≡ 1
unfolding is_cleared about findings
cleared_once = refl

cleared-approved_example : cleared "q" approved_once [] ≤ approved "q" approved_once
cleared-approved_example = cleared-approved "q" approved_once
