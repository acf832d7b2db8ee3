-- ===== src/Scope/Within.antt =====
-- scope.py: `scope_within` against the findings of a run.
use sealedrun.Prelude.{
  ℕ, ◌+◌, String, ◌==◌, ◌≡◌, refl, Bool, true, false, ◌&&◌, ◌||◌, not, Option, none, some, List, [],
  ◌∷◌, arith, eq_iff, eq_refl, all, any, elem, is_nil, filter, lookup, Dict, inl, inr, Bool-cases,
  Option-cases, subst, sym, ◌∙◌, sorted_minus, is_nil-sorted_set, leb, or_else,
}
use sealedrun.Model.{Target, Doc}
use sealedrun.Scope.Glob.Trans.{glob_match_trans}
use sealedrun.Scope.{
  Scope, findings, scope_within, structural_kinds, target_field, field_matches, target_matches,
  field_covers, covers, over_count, target_allowed, location_allowed, denied, targets_problem,
  locations_problem, labels_problem, max_problem, all_covered, first_of_two,
}

or_right : (a : Bool) {b : Bool} → b ≡ true → (a || b) ≡ true
or_right true h = refl
or_right false h = h

and_left : (a b : Bool) → (a && b) ≡ true → a ≡ true
and_left a b h = ground arith

and_right : (a b : Bool) → (a && b) ≡ true → b ≡ true
and_right a b h = ground arith

not-true : (a : Bool) → not a ≡ true → a ≡ false
not-true a h = ground arith

or_mono : (a : Bool) {b c : Bool} → (a || b) ≡ true → (b ≡ true → c ≡ true) → (a || c) ≡ true
or_mono true h f = refl
or_mono false h f = f h

some_eq : {a b : String} → some a ≡ some b → a ≡ b
some_eq h = cc

-- A field that the narrow pattern names is matched by its target.
lookup-target_matches :
    (field actual : String) (narrow : Dict String) (target : Target)
    → lookup field narrow ≡ some actual
    → target_matches narrow target ≡ true
    → field_matches field actual (target_field target field) ≡ true
unfolding target_matches
lookup-target_matches field actual [] target e h = cc
lookup-target_matches field actual ((f, v) ∷ narrow) target e h = elim (Bool-cases (f == field)) [
  | inl same ↦ cc (
    (eq_iff f field).0 same,
    some_eq (rw same at e),
    and_left (field_matches f v (target_field target f)) (target_matches narrow target) h,
  )
  | inr other ↦
      lookup-target_matches field actual narrow target (rw other at e)
        (and_right (field_matches f v (target_field target f)) (target_matches narrow target) h)
]

field_covers_sound :
    (field expected actual : String) (o : Option String)
    → field_covers field expected (some actual) ≡ true
    → field_matches field actual o ≡ true
    → field_matches field expected o ≡ true
unfolding field_covers field_matches
field_covers_sound field expected actual none h k = k
field_covers_sound field expected actual (some value) h k = ground (
  arith,
  eq_iff actual expected,
  eq_iff value actual,
  eq_iff value expected,
  glob_match_trans expected actual value,
)

covers_sound :
    (wide narrow : Dict String) (target : Target)
    → covers wide narrow ≡ true
    → target_matches narrow target ≡ true
    → target_matches wide target ≡ true
unfolding covers target_matches
covers_sound [] narrow target h k = refl
covers_sound ((field, expected) ∷ wide) narrow target h k =
    elim (Option-cases (lookup field narrow)) [
      | inl absent ↦ absurd (unfold field_covers in ground (arith, absent))
      | inr (actual, found) ↦ ground (
        arith,
        found,
        covers_sound wide narrow target,
        field_covers_sound field expected actual (target_field target field),
        lookup-target_matches field actual narrow target found,
      )
    ]

-- A target that some narrow pattern matches is matched by some wide pattern that covers it.
any_covered :
    (wides : List (Dict String)) (narrow : Dict String) (target : Target)
    → any (λ wide. covers wide narrow) wides ≡ true
    → target_matches narrow target ≡ true
    → any (λ wide. target_matches wide target) wides ≡ true
any_covered [] narrow target h k = h
any_covered (wide ∷ wides) narrow target h k = elim (Bool-cases (covers wide narrow)) [
  | inl c ↦ rw (covers_sound wide narrow target c k)
  | inr c ↦ or_right (target_matches wide target) (any_covered wides narrow target (rw c at h) k)
]

all_covered_sound :
    (wides narrows : List (Dict String)) (target : Target)
    → all_covered wides narrows ≡ true
    → any (λ narrow. target_matches narrow target) narrows ≡ true
    → any (λ wide. target_matches wide target) wides ≡ true
unfolding all_covered
all_covered_sound wides [] target h k = absurd (cc k)
all_covered_sound wides (narrow ∷ narrows) target h k =
    elim (Bool-cases (target_matches narrow target)) [
      | inl m ↦ any_covered wides narrow target (and_left _ _ h) m
      | inr m ↦ all_covered_sound wides narrows target (and_right _ _ h) (rw m at k)
    ]

-- Membership, as a test of every member.
all-elem :
    (p : String → Bool) (xs : List String) (a : String)
    → all p xs ≡ true
    → elem a xs ≡ true
    → p a ≡ true
all-elem p [] a h k = absurd (cc k)
all-elem p (x ∷ xs) a h k = elim (Bool-cases (x == a)) [
  | inl e ↦ subst (λ (y : String). p y ≡ true) ((eq_iff x a).0 e) (and_left _ _ h)
  | inr e ↦ all-elem p xs a (and_right _ _ h) (rw e at k)
]

-- A filter leaves nothing where every element fails its test.
is_nil-filter :
    (p : String → Bool) (xs : List String) → is_nil (filter p xs) ≡ all (λ x. not (p x)) xs
is_nil-filter p [] = refl
is_nil-filter p (x ∷ xs) = elim (Bool-cases (p x)) [
  | inl y ↦ rw y
  | inr n ↦ rw (n, is_nil-filter p xs)
]

sorted_minus-elem :
    (a b : List String) (x : String)
    → is_nil (sorted_minus a b) ≡ true
    → elem x a ≡ true
    → elem x b ≡ true
unfolding sorted_minus
sorted_minus-elem a b x h k =
    let left = is_nil-sorted_set (filter (λ y. not (elem y b)) a) in
    let each = is_nil-filter (λ y. not (elem y b)) a in
    let kept = all-elem (λ y. not (not (elem y b))) a x (cc (h, left, each)) k in
    ground (arith, kept)

all-intro :
    (p : String → Bool) (xs : List String)
    → ((x : String) → elem x xs ≡ true → p x ≡ true)
    → all p xs ≡ true
all-intro p [] each = refl
all-intro p (x ∷ xs) each =
    rw (each x (rw (eq_refl x)), all-intro p xs (λ y k. each y (or_right (x == y) k)))

-- No label of `parent` is carried where no label of `child` is and `child` has all of them.
denied_sound :
    (parent child carried : List String)
    → is_nil (sorted_minus parent child) ≡ true
    → is_nil (denied child carried) ≡ true
    → is_nil (denied parent carried) ≡ true
unfolding denied
denied_sound parent child carried h k =
    let in_carried : String → Bool = λ x. elem x carried in
    let none_carried : all (λ x. not (in_carried x)) child ≡ true =
      sym (is_nil-filter in_carried child)
      ∙ (sym (is_nil-sorted_set (filter in_carried child)) ∙ k) in
    let each =
      all-intro (λ x. not (in_carried x)) parent
        (λ x e.
          all-elem (λ y. not (in_carried y)) child x none_carried
            (sorted_minus-elem parent child x h e)) in
    is_nil-sorted_set (filter in_carried parent) ∙ (is_nil-filter in_carried parent ∙ each)

target_sound :
    (parent child : Option (List (Dict String))) (target : Target)
    → targets_problem parent child ≡ none
    → target_allowed child target ≡ true
    → target_allowed parent target ≡ true
unfolding targets_problem target_allowed
target_sound none child target h k = refl
target_sound (some wides) none target h k = absurd (cc h)
target_sound (some wides) (some narrows) target h k =
    elim (Bool-cases (all_covered wides narrows)) [
      | inl y ↦ all_covered_sound wides narrows target y k
      | inr n ↦ absurd (cc (h, n))
    ]

location_sound :
    (parent child : Option (List String)) (target : Target)
    → locations_problem parent child ≡ none
    → location_allowed child target ≡ true
    → location_allowed parent target ≡ true
unfolding locations_problem location_allowed
location_sound none child target h k = refl
location_sound (some wide) none target h k = absurd (cc h)
location_sound (some wide) (some narrow) target h k =
    ground (arith, sorted_minus-elem narrow wide (or_else target.location "unknown"))

-- No more records than the limit, when there is one.
within_limit : Option ℕ → ℕ → Bool
within_limit none n = true
within_limit (some limit) n = leb n limit

count_sound :
    (parent child : Option ℕ) (n : ℕ)
    → max_problem parent child ≡ none
    → within_limit child n ≡ true
    → over_count child (n + 1) ≡ false
    → (within_limit child (n + 1) ≡ true) × (over_count parent (n + 1) ≡ false)
unfolding max_problem within_limit over_count
count_sound none none n h k o = (refl, refl)
count_sound none (some c) n h k o = ground arith
count_sound (some p) none n h k o = absurd (cc h)
count_sound (some p) (some c) n h k o = ground arith

-- What a record that is not structural is checked for.
content_ok : Scope → Doc → Bool
content_ok scope doc =
    target_allowed scope.allowed_targets doc.target
    && (location_allowed scope.allowed_locations doc.target
        && is_nil (denied scope.denied_labels doc.data_labels))

is_nil-findings :
    (scope : Scope) (doc : Doc) (n : ℕ)
    → is_nil (findings scope doc n) ≡ (
        not (over_count scope.max_records n)
        && (elem doc.kind structural_kinds || content_ok scope doc))
unfolding findings content_ok
is_nil-findings scope doc n = ground arith

first_of_two-none : {a b : Option String} → first_of_two a b ≡ none → (a ≡ none) × (b ≡ none)
first_of_two-none {a} {b} h = ground arith

scope_within-none :
    (child parent : Scope)
    → scope_within child parent ≡ none
    → (targets_problem parent.allowed_targets child.allowed_targets ≡ none)
      × ((locations_problem parent.allowed_locations child.allowed_locations ≡ none)
          × ((labels_problem parent.denied_labels child.denied_labels ≡ none)
              × (max_problem parent.max_records child.max_records ≡ none)))
unfolding scope_within
scope_within-none child parent h =
    let (t, h1) = first_of_two-none h in
    let (l, h2) = first_of_two-none h1 in let (d, m) = first_of_two-none h2 in (t, (l, (d, m)))

content_sound :
    (child parent : Scope) (doc : Doc)
    → scope_within child parent ≡ none
    → content_ok child doc ≡ true
    → content_ok parent doc ≡ true
unfolding content_ok labels_problem
content_sound child parent doc h k =
    let (t, (l, (d, m))) = scope_within-none child parent h in
    ground (
      arith,
      target_sound parent.allowed_targets child.allowed_targets doc.target t,
      location_sound parent.allowed_locations child.allowed_locations doc.target l,
      denied_sound parent.denied_labels child.denied_labels doc.data_labels,
    )

-- The records of a run after the first `count`, none of which is found outside `scope`.
abbrev pub keeps_to : Scope → ℕ → List Doc → Bool
keeps_to scope count [] = true
keeps_to scope count (doc ∷ docs) =
    is_nil (findings scope doc (count + 1)) && keeps_to scope (count + 1) docs

keeps_to_from :
    (child parent : Scope) (count : ℕ) (docs : List Doc)
    → scope_within child parent ≡ none
    → within_limit child.max_records count ≡ true
    → keeps_to child count docs ≡ true
    → keeps_to parent count docs ≡ true
keeps_to_from child parent count [] h c k = refl
keeps_to_from child parent count (doc ∷ docs) h c k =
    let here = and_left _ _ k in
    let after = and_right _ _ k in
    let (t, (l, (d, m))) = scope_within-none child parent h in
    let child_ok = sym (is_nil-findings child doc (count + 1)) ∙ here in
    let (c1, over) =
      count_sound parent.max_records child.max_records count m c
        (not-true _ (and_left _ _ child_ok)) in
    let content =
      or_mono (elem doc.kind structural_kinds) (and_right _ _ child_ok)
        (content_sound child parent doc h) in
    rw (
      is_nil-findings parent doc (count + 1),
      over,
      content,
      keeps_to_from child parent (count + 1) docs h c1 after,
    )

within_limit-zero : (limit : Option ℕ) → within_limit limit 0 ≡ true
unfolding within_limit
within_limit-zero none = refl
within_limit-zero (some n) = ground arith

-- When scope_within finds nothing against a child scope, a run with no finding against the child
-- scope has none against the parent scope: no record over the count, no target or location that
-- is not allowed and no label that is denied.
pub scope_within_sound :
    (child parent : Scope) (docs : List Doc)
    → scope_within child parent ≡ none
    → keeps_to child 0 docs ≡ true
    → keeps_to parent 0 docs ≡ true
scope_within_sound child parent docs h k =
    keeps_to_from child parent 0 docs h (within_limit-zero child.max_records) k
