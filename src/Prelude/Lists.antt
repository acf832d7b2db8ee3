-- ===== src/Prelude/Lists.antt =====
-- Lists measured by native numbers, and lists of texts used as sets.
use Prim.Native.Nat.{ℕ, zero, suc, ◌+◌, Ordering}
use Prim.Native.String
use Prim.Native.String.{String}
use mathlib.Core.Path.{◌≡◌, refl, subst}
use mathlib.Core.Logic.{inl, inr}
use text.Mathlib.TextEquality.{eq_iff}
use mathlib.Core.Bool.{Bool, true, false, ◌&&◌, ◌||◌, not}
use mathlib.Core.Option.{Option, none, some}
use mathlib.Core.List.{List, [], ◌∷◌, ◌++◌}
use native.Mathlib.Omega.{arith}
use text.Mathlib.Text.{◌==◌}
use sealedrun.Prelude.Tests.{if◌then◌else◌, Bool-cases}

module _ {ℓ} {A : Type ℓ} where
  abbrev pub length : List A → ℕ
  length [] = 0
  length (x ∷ xs) = suc (length xs)

  abbrev pub get_elem? : List A → ℕ → Option A
  get_elem? [] i = none
  get_elem? (x ∷ xs) zero = some x
  get_elem? (x ∷ xs) (suc i) = get_elem? xs i

  -- The last element of `x ∷ xs`.
  abbrev pub last : A → List A → A
  last x [] = x
  last x (y ∷ ys) = last y ys

  abbrev pub any : (A → Bool) → List A → Bool
  any p [] = false
  any p (x ∷ xs) = p x || any p xs

  abbrev pub all : (A → Bool) → List A → Bool
  all p [] = true
  all p (x ∷ xs) = p x && all p xs

  abbrev pub filter : (A → Bool) → List A → List A
  filter p [] = []
  filter p (x ∷ xs) = let rest = filter p xs in if p x then x ∷ rest else rest

  -- `next((x for x in xs if p(x)), None)`
  abbrev pub find : (A → Bool) → List A → Option A
  find p [] = none
  find p (x ∷ xs) = let rest = find p xs in if p x then some x else rest

  abbrev pub is_nil : List A → Bool
  is_nil [] = true
  is_nil (x ∷ xs) = false

  pub length-append : (xs ys : List A) → length (xs ++ ys) ≡ length xs + length ys
  length-append [] ys = omega arith
  length-append (x ∷ xs) ys = omega (arith, length-append xs ys)

  pub last-append : (x y : A) (xs : List A) → last x (xs ++ y ∷ []) ≡ y
  last-append x y [] = refl
  last-append x y (z ∷ zs) = last-append z y zs

  pub all-elim :
      (p : A → Bool) (x : A) (xs : List A)
      → all p (x ∷ xs) ≡ true
      → (p x ≡ true) × (all p xs ≡ true)
  all-elim p x xs h = ground arith

  pub find-append :
      (p : A → Bool) (xs ys : List A) (x : A) → find p xs ≡ some x → find p (xs ++ ys) ≡ some x
  find-append p [] ys x h = absurd (cc h)
  find-append p (y ∷ xs) ys x h = ground (arith, h, find-append p xs ys x)

  pub find-append_none :
      (p : A → Bool) (xs ys : List A) → find p xs ≡ none → find p (xs ++ ys) ≡ find p ys
  find-append_none p [] ys h = refl
  find-append_none p (y ∷ xs) ys h = ground (arith, h, find-append_none p xs ys)

  pub filter-append :
      (p : A → Bool) (xs ys : List A) → filter p (xs ++ ys) ≡ filter p xs ++ filter p ys
  filter-append p [] ys = refl
  filter-append p (x ∷ xs) ys = ground (arith, filter-append p xs ys)

  pub append_nil : (xs : List A) → xs ++ [] ≡ xs
  append_nil [] = refl
  append_nil (x ∷ xs) = cc (append_nil xs)

abbrev pub elem : String → List String → Bool
elem a [] = false
elem a (x ∷ xs) = x == a || elem a xs

-- A text of a list and a text that is not.
pub elem-apart :
    (a b : String) (xs : List String) → elem a xs ≡ true → elem b xs ≡ false → (b == a) ≡ false
elem-apart a b xs h k = elim (Bool-cases (b == a)) [
  | inr e ↦ e
  | inl e ↦ absurd (
      let p = (eq_iff b a).0 e in
      let q = subst (λ (x : String). elem x xs ≡ false) p k in cc (h, q))
]

-- A sorted list without repetitions, with one more text.
insert_sorted_at : Ordering → String → String → List String → List String → List String
insert_sorted_at Ordering.lt a x xs rest = a ∷ x ∷ xs
insert_sorted_at Ordering.eq a x xs rest = x ∷ xs
insert_sorted_at Ordering.gt a x xs rest = x ∷ rest

insert_sorted : String → List String → List String
unfolding insert_sorted_at
insert_sorted a [] = a ∷ []
insert_sorted a (x ∷ xs) = insert_sorted_at (String.compare a x) a x xs (insert_sorted a xs)

-- `sorted(set(xs))`
unfoldable pub sorted_set : List String → List String
unfolding insert_sorted
sorted_set [] = []
sorted_set (x ∷ xs) = insert_sorted x (sorted_set xs)

-- The members of `a` that are not in `b`, as `sorted(a - b)`.
unfoldable pub sorted_minus : List String → List String → List String
unfolding sorted_set
sorted_minus a b = sorted_set (filter (λ x. not (elem x b)) a)

is_nil-insert_sorted_at :
    (o : Ordering) (a x : String) (xs rest : List String)
    → is_nil (insert_sorted_at o a x xs rest) ≡ false
unfolding insert_sorted_at
is_nil-insert_sorted_at Ordering.lt a x xs rest = refl
is_nil-insert_sorted_at Ordering.eq a x xs rest = refl
is_nil-insert_sorted_at Ordering.gt a x xs rest = refl

is_nil-insert_sorted : (a : String) (xs : List String) → is_nil (insert_sorted a xs) ≡ false
unfolding insert_sorted
is_nil-insert_sorted a [] = refl
is_nil-insert_sorted a (x ∷ xs) =
    is_nil-insert_sorted_at (String.compare a x) a x xs (insert_sorted a xs)

-- Only the empty list has an empty sorted set.
pub is_nil-sorted_set : (xs : List String) → is_nil (sorted_set xs) ≡ is_nil xs
unfolding sorted_set
is_nil-sorted_set [] = refl
is_nil-sorted_set (x ∷ xs) = is_nil-insert_sorted x (sorted_set xs)

module _ (p : String → Bool) where
  all-insert_sorted_at :
      (o : Ordering) (a x : String) (xs rest : List String)
      → p a ≡ true
      → all p (x ∷ xs) ≡ true
      → all p rest ≡ true
      → all p (insert_sorted_at o a x xs rest) ≡ true
  unfolding insert_sorted_at
  all-insert_sorted_at Ordering.lt a x xs rest h k l = ground (arith, h, k)
  all-insert_sorted_at Ordering.eq a x xs rest h k l = k
  all-insert_sorted_at Ordering.gt a x xs rest h k l = ground (arith, k, l)

  all-insert_sorted :
      (a : String) (xs : List String)
      → p a ≡ true
      → all p xs ≡ true
      → all p (insert_sorted a xs) ≡ true
  unfolding insert_sorted
  all-insert_sorted a [] h k = ground (arith, h)
  all-insert_sorted a (x ∷ xs) h k =
      all-insert_sorted_at (String.compare a x) a x xs (insert_sorted a xs) h k
        (all-insert_sorted a xs h (ground (arith, k)))

  -- What holds of each text holds of each member of the sorted set.
  pub all-sorted_set : (xs : List String) → all p xs ≡ true → all p (sorted_set xs) ≡ true
  unfolding sorted_set
  all-sorted_set [] h = refl
  all-sorted_set (x ∷ xs) h =
      all-insert_sorted x (sorted_set xs) (ground (arith, h))
        (all-sorted_set xs (ground (arith, h)))
