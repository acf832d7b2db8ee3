-- ===== src/Recorder/Policy.antt =====
-- services/recorder/src/sealedrun_recorder/policy.py: labelled data must not reach a cloud target.
pub mod Block
use Prim.Native.String.{◌++◌}
use sealedrun.Prelude.{
  ℕ, String, ◌==◌, Bool, true, false, ◌&&◌, ◌||◌, not, Option, none, some, List, [], ◌∷◌, all, elem,
  is_nil, sorted_set, if◌then◌else◌, nat_eq, leb,
}
use sealedrun.Result.{value_error, Result, ok, raise_if, ◌>>=◌, ◌>>◌}
use sealedrun.Model.{Policy}
use sealedrun.Library.{Library}
use sealedrun.Scope.Glob.{codes}

-- `Decision`, which is the `policy` object that `document` writes.
abbrev pub Decision : Type 0
Decision = Policy

abbrev pub blocked : Decision → Bool
blocked d = d.decision == "block"

-- `[a-z0-9_-]`
label_char : ℕ → Bool
label_char c =
    leb b'a' c && leb c b'z' || leb b'0' c && leb c b'9' || nat_eq c b'_' || nat_eq c b'-'

-- `LABEL.match` on the code points left: whether a colon was read, and whether the part is not
-- empty. `$` also matches before a last line feed.
label_rest : Bool → Bool → List ℕ → Bool
label_rest colon nonempty [] = nonempty
label_rest colon nonempty (c ∷ cs) =
    let word = label_rest colon true cs in
    let part = label_rest true false cs in
    if label_char c
    then word
    else if nat_eq c b':' && nonempty && not colon
    then part
    else nat_eq c 10 && nonempty && is_nil cs

unfoldable pub label_matches : String → Bool
unfolding label_rest label_char
label_matches label = label_rest false false (codes label)

pub record Rule : Type 0 where
  pub block_to_cloud : List String

-- `Rule.__post_init__`
unfoldable pub make_rule : List String → Result Rule
make_rule labels = do
  raise_if (not (all label_matches labels))
      (value_error "SEALEDRUN_POLICY_BLOCK_TO_CLOUD: bad label")
  ok (record { block_to_cloud = labels })

abbrev pub active : Rule → Bool
active rule = not (is_nil rule.block_to_cloud)

module _ (lib : Library) where
  -- `Rule.set_hash`
  unfoldable pub set_hash : Rule → Option String
  set_hash rule =
      if not (active rule)
      then none
      else some
          (lib.hex (lib.hash_bytes "sha256" (lib.canonical_rule (sorted_set rule.block_to_cloud))))

  -- The loop of `evaluate`, and its last return.
  decide_labels : Rule → List String → List String → Decision
  decide_labels rule [] labels = record {
    rule_id = "default/allow";
    decision = "allow";
    reason = "target.location=cloud and no configured label is present";
    policy_set_hash = set_hash rule;
  }
  decide_labels rule (label ∷ more) labels =
      let rest = decide_labels rule more labels in
      if elem label labels
      then record {
        rule_id = "recorder/no-" ++ (label ++ "-to-cloud");
        decision = "block";
        reason = "target.location=cloud and labels contain " ++ label;
        policy_set_hash = set_hash rule;
      }
      else rest

  -- `Rule.evaluate`
  unfoldable pub evaluate : Rule → String → List String → Option Decision
  unfolding decide_labels
  evaluate rule target_location labels =
      if not (active rule) || not (target_location == "cloud")
      then none
      else some (decide_labels rule rule.block_to_cloud labels)
