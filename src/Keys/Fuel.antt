-- ===== src/Keys/Fuel.antt =====
-- The loop of `_ed_mul` (packages/sealedrun-py/src/sealedrun/keys.py): its fuel lasts.
use sealedrun.Prelude.{
  ℕ, zero, suc, ◌/◌, ◌%◌, ◌≤◌, ◌≡◌, refl, inl, inr, if◌then◌else◌, nat_eq, Bool-cases, arith,
}
use sealedrun.Result.{Result, ok, err, ◌>>=◌}
use sealedrun.Library.{Library}
use sealedrun.Keys.Curve.{Point, ed_add, ed_mul_loop}

-- Calls whose continuations agree.
>>=-cong :
    {A B : Type 0} (r : Result A) (f g : A → Result B)
    → ((a : A) → f a ≡ g a)
    → (r >>= f) ≡ (r >>= g)
>>=-cong (err e) f g h = refl
>>=-cong (ok a) f g h = h a

module _ (lib : Library) where
  -- One turn of the loop of `_ed_mul`, with the loop behind it.
  abbrev pub turn : ℕ → Point → Point → (Point → Point → Result Point) → Result Point
  turn scalar point result next = do
    sum ← (if nat_eq (scalar % 2) 1 then ed_add lib result point else ok result)
    double ← ed_add lib point point
    next double sum

  turn-cong :
      (scalar : ℕ) (point result : Point) (f g : Point → Point → Result Point)
      → ((p r : Point) → f p r ≡ g p r)
      → turn scalar point result f ≡ turn scalar point result g
  turn-cong scalar point result f g h =
      >>=-cong (if nat_eq (scalar % 2) 1 then ed_add lib result point else ok result) _ _
        (λ sum. >>=-cong (ed_add lib point point) _ _ (λ double. h double sum))

  fuel_enough :
      (fuel more scalar : ℕ) (point result : Point)
      → scalar ≤ fuel
      → scalar ≤ more
      → ed_mul_loop lib fuel scalar point result ≡ ed_mul_loop lib more scalar point result
  unfolding ed_mul_loop
  fuel_enough zero zero scalar point result a b = refl
  fuel_enough zero (suc more) scalar point result a b = ground (arith, a)
  fuel_enough (suc fuel) zero scalar point result a b = ground (arith, b)
  fuel_enough (suc fuel) (suc more) scalar point result a b = elim (Bool-cases (nat_eq scalar 0)) [
    | inl e ↦ ground (arith, e)
    | inr e ↦
        let same =
          turn-cong scalar point result (ed_mul_loop lib fuel (scalar / 2))
            (ed_mul_loop lib more (scalar / 2))
            (λ p r.
              fuel_enough fuel more (scalar / 2) p r (ground (arith, a, e))
                (ground (arith, b, e))) in
        ground (arith, e, same)
  ]

  half : (n scalar : ℕ) → scalar ≡ suc n → scalar / 2 ≤ n
  half n scalar e = ground (arith, e)

  while_turn :
      (n scalar : ℕ) (point result : Point)
      → scalar ≡ n
      → ed_mul_loop lib n scalar point result ≡ (
          if nat_eq scalar 0
          then ok result
          else turn scalar point result (ed_mul_loop lib (scalar / 2) (scalar / 2)))
  unfolding ed_mul_loop
  while_turn zero scalar point result e = ground (arith, e)
  while_turn (suc n) scalar point result e =
      let same =
        turn-cong scalar point result (ed_mul_loop lib n (scalar / 2))
          (ed_mul_loop lib (scalar / 2) (scalar / 2))
          (λ p r. fuel_enough n (scalar / 2) (scalar / 2) p r (half n scalar e) (ground arith)) in
      ground (arith, e, same)

  -- With the scalar as its fuel, the loop does what the `while` loop of the code does: at a scalar
  -- of 0 it answers the result, and otherwise it makes one turn and goes on, with the halved scalar
  -- as its fuel. The fuel never runs out.
  pub ed_mul_loop-turn :
      (scalar : ℕ) (point result : Point)
      → ed_mul_loop lib scalar scalar point result ≡ (
          if nat_eq scalar 0
          then ok result
          else turn scalar point result (ed_mul_loop lib (scalar / 2) (scalar / 2)))
  ed_mul_loop-turn scalar point result = while_turn scalar scalar point result refl
