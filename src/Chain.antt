-- ===== src/Chain.antt =====
-- The hash chain of a run (SPEC 5): what the writer keeps and the verifier checks.
pub mod Tamper
use sealedrun.Prelude.{ℕ, ◌+◌, String, ◌≡◌, refl, subst, List, [], ◌∷◌, ◌++◌, arith, length, last}
use sealedrun.Result.{ok}
use sealedrun.Model.{Doc, Record}
use sealedrun.Library.{Library}
use sealedrun.Hashing.{object_hash}

-- The hash behind the records of a chain that starts at `prev`.
abbrev pub head_of : String → List Record → String
head_of prev [] = prev
head_of prev (r ∷ rs) = head_of r.hash rs

module _ (lib : Library) where
  -- The hash that a document has.
  abbrev pub HasHash : Doc → String → Type 0
  HasHash doc h = object_hash lib doc.hash_alg (lib.canonical_record doc) ≡ ok h

  -- One record at its place in the chain of a run.
  pub record Link (run_id hash_alg : String) (seq : ℕ) (prev : String) (r : Record) : Type 0 where
    pub run : r.protected.run_id ≡ run_id
    pub alg : r.protected.hash_alg ≡ hash_alg
    pub place : r.protected.seq ≡ seq
    pub linked : r.protected.prev_hash ≡ prev
    pub hashed : HasHash r.protected r.hash

  -- A list of records that chains on from `prev`, numbered from `seq`.
  abbrev pub Linked : String → String → ℕ → String → List Record → Type 0
  Linked run_id hash_alg seq prev [] = Unit
  Linked run_id hash_alg seq prev (r ∷ rs) =
      Link run_id hash_alg seq prev r × Linked run_id hash_alg (seq + 1) r.hash rs

  pub Linked-append :
      (run_id hash_alg : String) (seq n : ℕ) (prev : String) (rs : List Record) (r : Record)
      → n ≡ seq + length rs
      → Linked run_id hash_alg seq prev rs
      → Link run_id hash_alg n (head_of prev rs) r
      → Linked run_id hash_alg seq prev (rs ++ r ∷ [])
  Linked-append run_id hash_alg seq n prev [] r e l k = (rw (← seq_eq) k, tt)
    where
      seq_eq : n ≡ seq
      seq_eq = omega arith
  Linked-append run_id hash_alg seq n prev (x ∷ rs) r e l k =
      (l.0, Linked-append run_id hash_alg (seq + 1) n x.hash rs r (omega arith) l.1 k)

  Link-cast :
      {n n' : ℕ} (run_id hash_alg prev : String) (r : Record)
      → n ≡ n'
      → Link run_id hash_alg n prev r
      → Link run_id hash_alg n' prev r
  Link-cast run_id hash_alg prev r e k = subst (λ m. Link run_id hash_alg m prev r) e k

  -- A chain without its last record, and that record's place.
  pub Linked-split :
      (run_id hash_alg : String) (seq : ℕ) (prev : String) (rs : List Record) (r : Record)
      → Linked run_id hash_alg seq prev (rs ++ r ∷ [])
      → Linked run_id hash_alg seq prev rs
        × Link run_id hash_alg (seq + length rs) (head_of prev rs) r
  Linked-split run_id hash_alg seq prev [] r l =
      (tt, Link-cast run_id hash_alg prev r (omega arith) l.0)
  Linked-split run_id hash_alg seq prev (x ∷ rs) r l =
      let (a, b) = Linked-split run_id hash_alg (seq + 1) x.hash rs r l.1 in
      ((l.0, a), Link-cast run_id hash_alg (head_of x.hash rs) r (omega arith) b)

  -- The seq of a chain's last record.
  pub Linked-last :
      (run_id hash_alg : String) (seq : ℕ) (prev : String) (r : Record) (rs : List Record)
      → Linked run_id hash_alg seq prev (r ∷ rs)
      → (last r rs).protected.seq + 1 ≡ seq + length (r ∷ rs)
  Linked-last run_id hash_alg seq prev r [] l = omega (arith, l.0.place)
  Linked-last run_id hash_alg seq prev r (s ∷ rs) l =
      omega (arith, Linked-last run_id hash_alg (seq + 1) r.hash s rs l.1)

  pub Linked-cast :
      (seq : ℕ) (rs : List Record) {run run' alg alg' prev prev' : String}
      → run ≡ run'
      → alg ≡ alg'
      → prev ≡ prev'
      → Linked run alg seq prev rs
      → Linked run' alg' seq prev' rs
  Linked-cast seq rs {run} {run'} {alg} {alg'} {prev} {prev'} p q e l =
      subst (λ (x : String). Linked x alg' seq prev' rs) p
        (subst (λ (x : String). Linked run x seq prev' rs) q
          (subst (λ (x : String). Linked run alg seq x rs) e l))

pub head_of-append :
    (prev : String) (rs : List Record) (r : Record) → head_of prev (rs ++ r ∷ []) ≡ r.hash
head_of-append prev [] r = refl
head_of-append prev (x ∷ rs) r = head_of-append x.hash rs r

pub head_of-last :
    (prev : String) (r : Record) (rs : List Record) → head_of prev (r ∷ rs) ≡ (last r rs).hash
head_of-last prev r [] = refl
head_of-last prev r (s ∷ rs) = head_of-last r.hash s rs
