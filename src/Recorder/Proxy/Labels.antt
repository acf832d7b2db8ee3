-- ===== src/Recorder/Proxy/Labels.antt =====
-- services/recorder/src/sealedrun_recorder/proxy/labels.py: the labels header of a request. `str.strip`
-- goes by Unicode's spaces and is taken as given.
use sealedrun.Prelude.{
  ℕ, ◌≤◌, String, ◌≡◌, refl, subst, all-sorted_set, true, not, Option, none, some, List, [], ◌∷◌,
  all, length, sorted_set, ltb, arith, Dict, insert,
}
use sealedrun.Prelude.Texts.{split_on}
use sealedrun.Result.{
  value_error, Result, ok, raise_if, ◌>>=◌, ◌>>◌, >>=-eq-ok, >>-eq-ok, raise_if-eq-ok, ok-injective,
}
use sealedrun.Json
use sealedrun.Json.{Json}
use sealedrun.Recorder.Policy.{label_matches, make_rule}

abbrev pub max_labels : ℕ
max_labels = 64

module _ (strip : String → String) where
  -- The loop over the items.
  unfoldable pub read_items : List String → Result (List String)
  read_items [] = ok []
  read_items (item ∷ items) = do
    raise_if (not (label_matches (strip item))) (value_error "label must match")
    labels ← read_items items
    ok (strip item ∷ labels)

  -- `header_labels`
  unfoldable pub header_labels : Option String → Result (List String)
  unfolding read_items
  header_labels none = ok []
  header_labels (some raw) = do
    labels ← read_items (split_on b',' raw)
    raise_if (ltb max_labels (length (sorted_set labels))) (value_error "at most 64 labels")
    ok (sorted_set labels)

-- The provenance of each label.
provenance : List String → Json.Fields
provenance [] = Json.no_fields
provenance (label ∷ labels) =
    Json.field label (Json.object (Json.field "source" (Json.text "header") Json.no_fields))
      (provenance labels)

-- `label_fields`: the labels, where there are any, and the extensions.
unfoldable pub label_fields : List String → Dict Json → Option (List String) × Dict Json
unfolding provenance
label_fields [] extensions = (none, extensions)
label_fields (label ∷ labels) extensions = (
  some (label ∷ labels),
  insert "sealedrun.labels" (Json.object (provenance (label ∷ labels))) extensions,
)

module _ (strip : String → String) where
  read_items-all :
      (items labels : List String)
      → read_items strip items ≡ ok labels
      → all label_matches labels ≡ true
  unfolding read_items
  read_items-all [] labels h =
      subst (λ (x : List String). all label_matches x ≡ true) (ok-injective h) refl
  read_items-all (item ∷ items) labels h =
      let (h1, a) = >>-eq-ok (raise_if (not (label_matches (strip item))) _) _ h in
      let (more, b, h2) = >>=-eq-ok (read_items strip items) _ h1 in
      let r = raise_if-eq-ok (not (label_matches (strip item))) _ a in
      let rest = read_items-all items more b in
      subst (λ (x : List String). all label_matches x ≡ true) (ok-injective h2)
        (ground (arith, r, rest))

  -- The labels that a request's header gives match the pattern of a label, so that a rule may name
  -- each of them, and are at most 64.
  pub header_labels-all :
      (header : Option String) (labels : List String)
      → header_labels strip header ≡ ok labels
      → (make_rule labels ≡ ok (record { block_to_cloud = labels })) × (length labels ≤ max_labels)
  unfolding header_labels make_rule
  header_labels-all none labels h =
      subst
        (λ (x : List String).
          (make_rule x ≡ ok (record { block_to_cloud = x })) × (length x ≤ max_labels))
        (ok-injective h) (refl, omega arith)
  header_labels-all (some raw) labels h =
      let (items, a, h1) = >>=-eq-ok (read_items strip (split_on b',' raw)) _ h in
      let (h2, b) = >>-eq-ok (raise_if (ltb max_labels (length (sorted_set items))) _) _ h1 in
      let r = raise_if-eq-ok (ltb max_labels (length (sorted_set items))) _ b in
      let each = all-sorted_set label_matches items (read_items-all (split_on b',' raw) items a) in
      subst
        (λ (x : List String).
          (make_rule x ≡ ok (record { block_to_cloud = x })) × (length x ≤ max_labels))
        (ok-injective h2) (ground (arith, each), ground (arith, r))
