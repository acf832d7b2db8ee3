-- ===== src/Keys/Curve.antt =====
-- The Ed25519 key and `R` checks of keys.py: Edwards curve arithmetic on integers below `ed_p`.
-- `pow(x, -1, p)` is the library's; a missing inverse is its ValueError.
use sealedrun.Prelude.{
  ℕ, zero, suc, ◌+◌, ◌-◌, ◌*◌, ◌/◌, ◌%◌, ◌^◌, Bool, false, ◌&&◌, ◌||◌, not, Option, none, some,
  length, get_elem?, or_else, if◌then◌else◌, nat_eq, ltb, leb,
}
use sealedrun.Result.{value_error, Result, ok, err, or_raise, ◌>>=◌}
use sealedrun.Model.{Bytes}
use sealedrun.Library.{Library}
use sealedrun.Keys.Encoding.{from_little, take_bytes}

abbrev pub ed_p : ℕ
ed_p = 2 ^ 255 - 19

abbrev pub ed_l : ℕ
ed_l = 2 ^ 252 + 27742317777372353535851937790883648493

abbrev pub Point : Type 0
Point = ℕ × ℕ

-- `pow(base, exponent, p)` by squaring; the exponent is fuel enough.
pow_loop : ℕ → ℕ → ℕ → ℕ → ℕ → ℕ
pow_loop zero base exponent p acc = acc
pow_loop (suc fuel) base exponent p acc =
    let rest =
      pow_loop fuel (base * base % p) (exponent / 2) p
        (if nat_eq (exponent % 2) 1 then acc * base % p else acc) in
    if nat_eq exponent 0 then acc else rest

unfoldable pub pow_mod : ℕ → ℕ → ℕ → ℕ
unfolding pow_loop
pow_mod base exponent p = pow_loop (suc exponent) (base % p) exponent p (1 % p)

-- The root of `x2` that `root` stands for: itself, or multiplied by a root of -1.
root_of : ℕ → ℕ → ℕ
root_of x2 root =
    if nat_eq ((root * root + ed_p - x2) % ed_p) 0
    then root
    else root * pow_mod 2 ((ed_p - 1) / 4) ed_p % ed_p

module _ (lib : Library) where
  inverse : ℕ → Result ℕ
  inverse x = or_raise (lib.inverse_mod (x % ed_p) ed_p) (value_error "base is not invertible")

  -- `_ED_D`, which is -121665 / 121666
  pub ed_d : Result ℕ
  unfolding inverse
  ed_d = do i ← inverse 121666; ok ((ed_p - 121665) * i % ed_p)

  -- `_ed_add`; `1 - k` is taken modulo `ed_p`
  unfoldable pub ed_add : Point → Point → Result Point
  unfolding inverse ed_d
  ed_add (x1, y1) (x2, y2) = do
    d ← ed_d
    let k = d * x1 * x2 * y1 * y2 % ed_p
    i ← inverse (1 + k)
    j ← inverse (ed_p + 1 - k)
    ok ((x1 * y2 + x2 * y1) * i % ed_p, (y1 * y2 + x1 * x2) * j % ed_p)

  -- The loop of `_ed_mul`; the scalar is fuel enough, since it is halved in each round.
  unfoldable pub ed_mul_loop : ℕ → ℕ → Point → Point → Result Point
  ed_mul_loop zero scalar point result = ok result
  ed_mul_loop (suc fuel) scalar point result =
      let round = (do
        sum ← (if nat_eq (scalar % 2) 1 then ed_add result point else ok result)
        double ← ed_add point point
        ed_mul_loop fuel (scalar / 2) double sum) in
      if nat_eq scalar 0 then ok result else round

  unfoldable pub ed_mul : ℕ → Point → Result Point
  unfolding ed_mul_loop
  ed_mul scalar point = ed_mul_loop scalar scalar point (0, 1)

  -- `_ed_decode`; differences are taken modulo `ed_p`
  ed_decode : Bytes → Result (Option Point)
  unfolding inverse root_of
  ed_decode encoded =
      if not (nat_eq (length encoded) 32)
      then ok none
      else let sign = or_else (get_elem? encoded 31) 0 / 128 in
        let y = from_little encoded % 2 ^ 255 in
        if leb ed_p y then ok none else do
          d ← ed_d
          i ← inverse (d * y * y + 1)
          let x2 = (y * y + ed_p - 1) * i % ed_p
          let root = pow_mod x2 ((ed_p + 3) / 8) ed_p
          let x = root_of x2 root
          ok (
              if not (nat_eq ((x * x + ed_p - x2) % ed_p) 0) || (nat_eq x 0 && not (nat_eq sign 0))
              then none
              else some ((if nat_eq (x % 2) sign then x else ed_p - x), y))

  check_order : Option Point → Result Bool
  check_order none = ok false
  check_order (some (x, y)) =
      if nat_eq x 0 && nat_eq y 1
      then ok false
      else do q ← ed_mul ed_l (x, y); ok (nat_eq q.0 0 && nat_eq q.1 1)

  -- A ValueError in the check is caught in `verify_one`, which returns False.
  unfoldable pub ed25519_key_is_valid : Bytes → Bool
  unfolding ed_decode check_order
  ed25519_key_is_valid public_key = elim (ed_decode public_key >>= check_order) [
    | ok b ↦ b
    | err e ↦ false
  ]

-- `_ed25519_r_is_acceptable`
unfoldable pub ed25519_r_is_acceptable : Bytes → Bool
ed25519_r_is_acceptable signature =
    if not (nat_eq (length signature) 64)
    then false
    else let y = from_little (take_bytes 32 signature) % 2 ^ 255 in ltb y ed_p && not (nat_eq y 1)
