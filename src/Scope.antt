-- ===== src/Scope.antt =====
-- packages/sealedrun-py/src/sealedrun/scope.py: the limits that records are checked against.
pub mod Glob
pub mod Within
use sealedrun.Prelude.{
  ℕ, zero, suc, ◌+◌, String, ◌==◌, Bool, true, false, ◌&&◌, ◌||◌, not, Option, none, some, List, [],
  ◌∷◌, ◌++◌, any, all, elem, length, is_nil, or_else, filter, sorted_set, sorted_minus, Dict,
  lookup, if◌then◌else◌, nat_eq, leb, ltb,
}
use sealedrun.Result.{value_error, Result, ok, err, raise_if, ◌>>=◌, ◌>>◌}
use sealedrun.Model.{Target, Doc, ScopeDoc}
use Glob.{glob_match}

abbrev pub structural_kinds : List String
structural_kinds = "run_start" ∷ "run_end" ∷ "anchor" ∷ "tombstone" ∷ []

unfoldable pub target_fields : List String
target_fields = "type" ∷ "name" ∷ "provider" ∷ "location" ∷ []

abbrev pub data_target_types : List String
data_target_types = "model" ∷ "tool" ∷ "memory" ∷ []

-- A finding; `detail` lists the texts that its reason prints.
pub record Finding : Type 0 where
  pub check : String
  pub seq : ℕ
  pub record_id : String
  pub detail : List String

pub record Scope : Type 0 where
  pub allowed_targets : Option (List (Dict String))
  pub allowed_locations : Option (List String)
  pub denied_labels : List String
  pub max_records : Option ℕ

abbrev pub no_scope : Scope
no_scope = record {
  allowed_targets = none;
  allowed_locations = none;
  denied_labels = [];
  max_records = none;
}

-- The test of `Scope.parse` on one item of `allowed_targets`.
good_pattern : Dict String → Bool
good_pattern [] = false
good_pattern item = all (λ kv. elem kv.0 target_fields) item

good_targets : Option (List (Dict String)) → Bool
unfolding good_pattern
good_targets none = true
good_targets (some items) = all good_pattern items

good_max : Option ℕ → Bool
good_max none = true
good_max (some n) = leb 1 n

-- `Scope.parse`; the shapes that a `ScopeDoc` has by its type need no test.
unfoldable pub parse : Option ScopeDoc → Result Scope
unfolding good_targets good_max
parse none = ok no_scope
parse (some scope) = do
  raise_if (not (good_targets scope.allowed_targets))
      (value_error "scope.allowed_targets item is not well formed")
  raise_if (not (good_max scope.max_records))
      (value_error "scope.max_records is not a positive integer")
  ok (record {
    allowed_targets = scope.allowed_targets;
    allowed_locations = scope.allowed_locations;
    denied_labels = or_else scope.denied_labels [];
    max_records = scope.max_records;
  })

-- `target.get(field)`
unfoldable pub target_field : Target → String → Option String
target_field target field =
    if field == "type"
    then some target.type
    else if field == "name"
    then some target.name
    else if field == "location"
    then target.location
    else if field == "provider"
    then target.provider
    else if field == "endpoint"
    then target.endpoint
    else none

-- One turn of the loop of `_target_matches`.
field_matches : String → String → Option String → Bool
field_matches field expected none = false
field_matches field expected (some actual) =
    if field == "name" then glob_match expected actual else actual == expected

-- `_target_matches`
unfoldable pub target_matches : Dict String → Target → Bool
unfolding field_matches target_field
target_matches [] target = true
target_matches ((field, expected) ∷ pattern) target =
    field_matches field expected (target_field target field) && target_matches pattern target

-- One turn of the loop of `_covers`.
field_covers : String → String → Option String → Bool
field_covers field expected none = false
field_covers field expected (some actual) =
    if field == "name" then actual == expected || glob_match expected actual else actual == expected

-- `_covers`
unfoldable pub covers : Dict String → Dict String → Bool
unfolding field_covers
covers [] narrow = true
covers ((field, expected) ∷ wide) narrow =
    field_covers field expected (lookup field narrow) && covers wide narrow

-- `max_records` is exceeded by this very record.
over_count : Option ℕ → ℕ → Bool
over_count none count = false
over_count (some limit) count = nat_eq count (limit + 1)

target_allowed : Option (List (Dict String)) → Target → Bool
target_allowed none target = true
target_allowed (some patterns) target = any (λ pattern. target_matches pattern target) patterns

location_allowed : Option (List String) → Target → Bool
location_allowed none target = true
location_allowed (some locations) target =
    not (elem target.type data_target_types) || elem (or_else target.location "unknown") locations

denied : List String → List String → List String
denied labels carried = sorted_set (filter (λ label. elem label carried) labels)

abbrev pub note_if : Bool → Finding → List Finding
note_if true f = f ∷ []
note_if false f = []

-- `Scope.findings`
unfoldable pub findings : Scope → Doc → ℕ → List Finding
unfolding over_count target_allowed location_allowed denied
findings scope doc record_count =
    let finding : String → List String → Finding = λ check detail. record {
      check = check;
      seq = doc.seq;
      record_id = doc.record_id;
      detail = detail;
    } in
    let labels = denied scope.denied_labels doc.data_labels in
    note_if (over_count scope.max_records record_count) (finding "scope.max_records" [])
    ++ (if elem doc.kind structural_kinds
        then []
        else note_if (not (target_allowed scope.allowed_targets doc.target))
            (finding "scope.target" (doc.target.name ∷ []))
          ++ (note_if (not (location_allowed scope.allowed_locations doc.target))
                (finding "scope.location" (or_else doc.target.location "unknown" ∷ []))
              ++ note_if (not (is_nil labels)) (finding "scope.label" labels)))

-- The first pattern that no wide pattern covers, as the loop of `scope_within` finds it.
all_covered : List (Dict String) → List (Dict String) → Bool
all_covered wides narrows = all (λ narrow. any (λ wide. covers wide narrow) wides) narrows

targets_problem : Option (List (Dict String)) → Option (List (Dict String)) → Option String
unfolding all_covered
targets_problem none child = none
targets_problem (some wides) none = some "child scope lacks allowed_targets"
targets_problem (some wides) (some narrows) =
    if all_covered wides narrows then none else some "child allows target outside the parent's"

locations_problem : Option (List String) → Option (List String) → Option String
locations_problem none child = none
locations_problem (some parent) none = some "child scope lacks allowed_locations"
locations_problem (some parent) (some child) =
    if is_nil (sorted_minus child parent)
    then none
    else some "child allows locations outside the parent's"

labels_problem : List String → List String → Option String
labels_problem parent child =
    if is_nil (sorted_minus parent child) then none else some "child does not deny labels"

max_problem : Option ℕ → Option ℕ → Option String
max_problem none child = none
max_problem (some parent) none = some "child max_records exceeds the parent's"
max_problem (some parent) (some child) =
    if ltb parent child then some "child max_records exceeds the parent's" else none

-- The first of several reasons; `None` when there is none.
abbrev pub first_of_two : Option String → Option String → Option String
first_of_two none b = b
first_of_two (some a) b = some a

-- `scope_within`
unfoldable pub scope_within : Scope → Scope → Option String
unfolding targets_problem locations_problem labels_problem max_problem
scope_within child parent =
    first_of_two (targets_problem parent.allowed_targets child.allowed_targets) (
      first_of_two (locations_problem parent.allowed_locations child.allowed_locations) (
        first_of_two (labels_problem parent.denied_labels child.denied_labels)
          (max_problem parent.max_records child.max_records)))
