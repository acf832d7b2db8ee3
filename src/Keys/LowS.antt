-- ===== src/Keys/LowS.antt =====
-- keys.py: `Es256Signer.sign` against the low-S rule of `verify_one`.
use Prim.Native.Nat.{min}
use sealedrun.Prelude.{ℕ, ◌-◌, ◌/◌, ◌^◌, ◌≤◌, ◌<◌, ◌≡◌, ◌++◌, arith, length, length-append}
use sealedrun.Model.{Bytes}
use sealedrun.Library.{Library}
use sealedrun.Keys.Encoding.{
  to_big, length-to_big, from_big-to_big, take_bytes-append, drop_bytes-append,
}
use sealedrun.Keys.{p256_order, verify_es256, verify_one, es256_sign}

low_s : (s : ℕ) → s < p256_order → min s (p256_order - s) ≤ p256_order / 2
low_s s h = omega arith

module _ (lib : Library) (key public_key message : Bytes) where
  verify_es256-pair :
      (r s : ℕ)
      → r < 256 ^ 32
      → s < 256 ^ 32
      → s ≤ p256_order / 2
      → verify_es256 lib public_key message (to_big 32 r ++ to_big 32 s)
        ≡ lib.ecdsa_verify public_key message (r, s)
  unfolding verify_es256
  verify_es256-pair r s hr hs low =
      let n : length (to_big 32 r ++ to_big 32 s) ≡ 64 = omega (
        arith,
        length-append (to_big 32 r) (to_big 32 s),
        length-to_big 32 r,
        length-to_big 32 s,
      ) in
      let t = take_bytes-append (to_big 32 r) (to_big 32 s) 32 (length-to_big 32 r) in
      let d = drop_bytes-append (to_big 32 r) (to_big 32 s) 32 (length-to_big 32 r) in
      ground (arith, n, t, d, from_big-to_big 32 r hr, from_big-to_big 32 s hs)

  -- Whatever `s` the library's ECDSA draws below the order of the curve, the signature that
  -- `Es256Signer.sign` writes is 64 bytes long and reaches the library's verification with the same
  -- `r` and the lower of `s` and its negative: neither the length nor the low-S rule rejects it.
  pub verify_one-es256_sign :
      (lib.ecdsa_raw key message).0 < p256_order
      → (lib.ecdsa_raw key message).1 < p256_order
      → verify_one lib "es256" public_key message (es256_sign lib key message)
        ≡ lib.ecdsa_verify public_key message (
          (lib.ecdsa_raw key message).0,
          min (lib.ecdsa_raw key message).1 (p256_order - (lib.ecdsa_raw key message).1),
        )
  unfolding verify_one es256_sign
  verify_one-es256_sign hr hs =
      verify_es256-pair (lib.ecdsa_raw key message).0
        (min (lib.ecdsa_raw key message).1 (p256_order - (lib.ecdsa_raw key message).1))
        (omega arith) (omega arith) (low_s (lib.ecdsa_raw key message).1 hs)
