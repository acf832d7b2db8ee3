-- ===== src/Keys/Encoding.antt =====
-- Integers as byte strings: `int.to_bytes`, `int.from_bytes` and slices (keys.py).
use sealedrun.Prelude.{
  ℕ, zero, suc, ◌+◌, ◌*◌, ◌/◌, ◌%◌, ◌^◌, ◌<◌, ◌≡◌, refl, [], ◌∷◌, ◌++◌, arith, length,
  length-append,
}
use sealedrun.Model.{Bytes}
use native.Mathlib.Nat.{pow-suc}

-- `n.to_bytes(width, "big")`, for an `n` that fits.
unfoldable pub to_big : ℕ → ℕ → Bytes
to_big zero n = []
to_big (suc w) n = to_big w (n / 256) ++ (n % 256) ∷ []

-- `int.from_bytes(body, "big")` behind the value of the bytes read.
abbrev pub from_big_acc : ℕ → Bytes → ℕ
from_big_acc acc [] = acc
from_big_acc acc (b ∷ bs) = from_big_acc (acc * 256 + b) bs

abbrev pub from_big : Bytes → ℕ
from_big body = from_big_acc 0 body

-- `int.from_bytes(body, "little")`
abbrev pub from_little : Bytes → ℕ
from_little [] = 0
from_little (b ∷ bs) = b + 256 * from_little bs

-- `body[:k]` and `body[k:]`
abbrev pub take_bytes : ℕ → Bytes → Bytes
take_bytes zero body = []
take_bytes (suc k) [] = []
take_bytes (suc k) (b ∷ bs) = b ∷ take_bytes k bs

abbrev pub drop_bytes : ℕ → Bytes → Bytes
drop_bytes zero body = body
drop_bytes (suc k) [] = []
drop_bytes (suc k) (b ∷ bs) = drop_bytes k bs

from_big_acc-append :
    (acc b : ℕ) (bs : Bytes) → from_big_acc acc (bs ++ b ∷ []) ≡ from_big_acc acc bs * 256 + b
from_big_acc-append acc b [] = refl
from_big_acc-append acc b (c ∷ bs) = from_big_acc-append (acc * 256 + c) b bs

pub length-to_big : (w n : ℕ) → length (to_big w n) ≡ w
unfolding to_big
length-to_big zero n = refl
length-to_big (suc w) n =
    omega (arith, length-append (to_big w (n / 256)) (n % 256 ∷ []), length-to_big w (n / 256))

pub from_big-to_big : (w n : ℕ) → n < 256 ^ w → from_big (to_big w n) ≡ n
unfolding to_big
from_big-to_big zero n h = omega arith
from_big-to_big (suc w) n h =
    rw (from_big_acc-append 0 (n % 256) (to_big w (n / 256)))
      (rw (from_big-to_big w (n / 256) (omega (arith, pow-suc 256 w))) (omega arith))

pub take_bytes-append : (a b : Bytes) (k : ℕ) → length a ≡ k → take_bytes k (a ++ b) ≡ a
take_bytes-append [] b zero h = refl
take_bytes-append [] b (suc k) h = absurd (omega arith)
take_bytes-append (x ∷ a) b zero h = absurd (omega arith)
take_bytes-append (x ∷ a) b (suc k) h = rw (take_bytes-append a b k (omega arith))

pub drop_bytes-append : (a b : Bytes) (k : ℕ) → length a ≡ k → drop_bytes k (a ++ b) ≡ b
drop_bytes-append [] b zero h = refl
drop_bytes-append [] b (suc k) h = absurd (omega arith)
drop_bytes-append (x ∷ a) b zero h = absurd (omega arith)
drop_bytes-append (x ∷ a) b (suc k) h = drop_bytes-append a b k (omega arith)
