-- ===== src/Result.antt =====
-- Exceptions as values (packages/sealedrun-py/src/sealedrun/errors.py and the built-in ones).
use sealedrun.Prelude.{ℕ, String, ◌≡◌, refl, Bool, true, false, Option, none, some, ◌⊎◌, inl, inr}

-- `VerificationError` with its check, message, run and seq; the other constructors are the
-- built-in exceptions that the modelled code raises or lets through, and the recorder's own.
pub data Exc : Type 0 where
  verification : String → String → Option String → Option ℕ → Exc
  value_error : String → Exc
  key_error : String → Exc
  live_run : String → Exc
  invalid_record : String → Exc
  body_too_large : String → Exc
  type_error : String → Exc
  runtime_error : String → Exc
  export_error : ℕ → String → Exc

-- What a call answers: an exception, or a value.
pub data Result {ℓ} (A : Type ℓ) : Type ℓ where
  err : Exc → Result A
  ok : A → Result A

-- `if b: raise e`
abbrev pub raise_if : Bool → Exc → Result (Unit {0})
raise_if true e = err e
raise_if false e = ok tt

-- A subscript or a parser that may raise `e`.
abbrev pub or_raise {ℓ} : {A : Type ℓ} → Option A → Exc → Result A
or_raise none e = err e
or_raise (some a) e = ok a

module _ {ℓ κ} {A : Type ℓ} {B : Type κ} where
  -- The statements behind a call do not run where it raises.
  infixl 5 ◌>>=◌
  abbrev pub ◌>>=◌ : Result A → (A → Result B) → Result B
  err raised >>= next = err raised
  ok value >>= next = next value

  -- Taking a successful sequence apart.
  pub >>=-eq-ok :
      (call : Result A) (next : A → Result B) {b : B}
      → (call >>= next) ≡ ok b
      → (a : A) × (call ≡ ok a) × (next a ≡ ok b)
  >>=-eq-ok (err raised) next h = absurd (cc h)
  >>=-eq-ok (ok value) next h = (value, refl, h)

module _ {κ} {B : Type κ} where
  -- A check, and what follows it.
  infixl 5 ◌>>◌
  abbrev pub ◌>>◌ : Result (Unit {0}) → Result B → Result B
  err raised >> next = err raised
  ok tt >> next = next

pub >>-eq-ok {κ} :
    {B : Type κ} (m : Result (Unit {0})) (k : Result B) {b : B}
    → (m >> k) ≡ ok b
    → (k ≡ ok b) × (m ≡ ok tt)
>>-eq-ok (ok tt) k h = (h, refl)
>>-eq-ok (err e) k h = cc

pub raise_if-eq-ok : {u : Unit {0}} (b : Bool) (e : Exc) → raise_if b e ≡ ok u → b ≡ false
raise_if-eq-ok true e h = cc
raise_if-eq-ok false e h = refl

pub or_raise-eq-ok {ℓ} :
    {A : Type ℓ} (o : Option A) (e : Exc) {a : A} → or_raise o e ≡ ok a → o ≡ some a
or_raise-eq-ok none e h = cc
or_raise-eq-ok (some b) e h = cc

pub Result-cases {ℓ} :
    {A : Type ℓ} (r : Result A) → ((a : A) × (r ≡ ok a)) ⊎ ((e : Exc) × (r ≡ err e))
Result-cases (ok a) = inl (a, refl)
Result-cases (err e) = inr (e, refl)

pub ok-injective {ℓ} : {A : Type ℓ} {a b : A} → ok a ≡ ok b → a ≡ b
ok-injective h = cc
