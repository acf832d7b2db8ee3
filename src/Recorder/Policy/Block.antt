-- ===== src/Recorder/Policy/Block.antt =====
-- policy.py: when a call is blocked.
use sealedrun.Prelude.{
  String, ◌≡◌, ◌==◌, refl, Bool, false, ◌&&◌, Option, none, some, List, [], ◌∷◌, any, elem,
  Bool-cases, inl, inr,
}
use sealedrun.Library.{Library}
use sealedrun.Recorder.Policy.{Rule, Decision, blocked, decide_labels, evaluate}

-- Whether a configured label is among those of the call.
abbrev pub labelled : Rule → List String → Bool
labelled rule labels = any (λ label. elem label labels) rule.block_to_cloud

-- Whether a decision stops the call; no decision does not.
abbrev pub stops : Option Decision → Bool
stops none = false
stops (some d) = blocked d

module _ (lib : Library) where
  decide_labels-blocked :
      (rule : Rule) (more labels : List String)
      → blocked (decide_labels lib rule more labels) ≡ any (λ label. elem label labels) more
  unfolding decide_labels
  decide_labels-blocked rule [] labels = refl
  decide_labels-blocked rule (label ∷ more) labels = elim (Bool-cases (elem label labels)) [
    | inl found ↦ rw found
    | inr absent ↦ rw absent (decide_labels-blocked rule more labels)
  ]

  evaluate_labels :
      (configured : List String) (location : String) (labels : List String)
      → stops (evaluate lib (record { block_to_cloud = configured }) location labels)
        ≡ (location == "cloud" && any (λ label. elem label labels) configured)
  unfolding evaluate
  evaluate_labels [] location labels = elim (Bool-cases (location == "cloud")) [
    | inl e ↦ rw e
    | inr e ↦ rw e
  ]
  evaluate_labels (label ∷ more) location labels = elim (Bool-cases (location == "cloud")) [
    | inl cloud ↦
        rw cloud
          (decide_labels-blocked (record { block_to_cloud = label ∷ more }) (label ∷ more) labels)
    | inr other ↦ rw other
  ]

  -- A call is stopped exactly when its target is in the cloud and one of its labels is configured.
  pub evaluate_blocks :
      (rule : Rule) (location : String) (labels : List String)
      → stops (evaluate lib rule location labels) ≡ (location == "cloud" && labelled rule labels)
  evaluate_blocks rule location labels = evaluate_labels rule.block_to_cloud location labels
