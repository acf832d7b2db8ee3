-- ===== src/Recorder/Export/Complete.antt =====
-- export.py: an exported run takes every body that its records name.
use sealedrun.Prelude.{
  ℕ, String, ◌==◌, ◌≡◌, refl, subst, Bool, true, not, inl, inr, Option, none, some, List, [], ◌∷◌,
  ◌++◌, elem, is_some, if_cases, Bool-cases, arith, eq_iff, eq_refl,
}
use sealedrun.Result.{
  Exc, verification, value_error, key_error, live_run, invalid_record, body_too_large, type_error,
  runtime_error, export_error, Result, ok, err, or_raise, ◌>>=◌,
}
use sealedrun.Model.{Bytes, Record}
use sealedrun.Bundle.Write.{Contents}
use sealedrun.Recorder.Store.{RunRow, PayloadRow, Db, get_run}
use sealedrun.Recorder.Export.{
  Exported, failed_by, with_run, or_refused, or_raised, receipts, all_wanted, stored, gather,
  contents_of, contents_of_run, body_from, delegation_of, documents,
}

-- A list of digests that stays among those gathered, each of them stored.
abbrev pub Within : List String → List String → Type 0
Within before after = (d : String) → elem d before ≡ true → elem d after ≡ true

-- The wanted digests are gathered.
abbrev pub AllGathered : List (Option String) → List String → Type 0
AllGathered [] digests = Unit
AllGathered (none ∷ wants) digests = AllGathered wants digests
AllGathered (some d ∷ wants) digests = (elem d digests ≡ true) × AllGathered wants digests

-- The gathered digests are stored.
abbrev pub AllStored : List PayloadRow → List String → Type 0
AllStored rows [] = Unit
AllStored rows (d ∷ digests) = (is_some (stored d rows) ≡ true) × AllStored rows digests

elem-append : (d : String) (xs ys : List String) → elem d xs ≡ true → elem d (xs ++ ys) ≡ true
elem-append d [] ys h = absurd (cc h)
elem-append d (x ∷ xs) ys h = ground (arith, elem-append d xs ys)

elem-last : (d : String) (xs : List String) → elem d (xs ++ d ∷ []) ≡ true
elem-last d [] = ground (arith, eq_refl d)
elem-last d (x ∷ xs) = ground (arith, elem-last d xs)

AllStored-append :
    (rows : List PayloadRow) (digests : List String) (d : String)
    → AllStored rows digests
    → is_some (stored d rows) ≡ true
    → AllStored rows (digests ++ d ∷ [])
AllStored-append rows [] d a h = (h, tt)
AllStored-append rows (x ∷ xs) d (first, a) h = (first, AllStored-append rows xs d a h)

gather_lem :
    (rows : List PayloadRow) (wants : List (Option String)) (before after : List String)
    → gather rows wants before ≡ some after
    → AllStored rows before
    → Within before after × (AllGathered wants after × AllStored rows after)
unfolding gather
gather_lem rows [] before after h a =
    subst (λ (x : List String). Within before x × (Unit × AllStored rows x)) (cc h)
      ((λ d k. k), (tt, a))
gather_lem rows (none ∷ wants) before after h a = gather_lem rows wants before after h a
gather_lem rows (some digest ∷ wants) before after h a =
    if_cases (elem digest before)
      (λ e k. let (w, (g, s)) = gather_lem rows wants before after k a in (w, ((w digest e, g), s)))
      (λ e.
        if_cases (is_some (stored digest rows))
          (λ i k.
            let (w, (g, s)) =
              gather_lem rows wants (before ++ digest ∷ []) after k
                (AllStored-append rows before digest a i) in
            (
              (λ d m. w d (elem-append d before (digest ∷ []) m)),
              ((w digest (elem-last digest before), g), s),
            ))
          (λ i k. absurd (cc k)))
      h

or_refused-exported {ℓ κ} :
    {A : Type ℓ} {B : Type κ} (o : Option A) (status : ℕ) (message : String) (next : A → Exported B)
    {b : B}
    → or_refused o status message next ≡ Exported.exported b
    → (a : A) × ((o ≡ some a) × (next a ≡ Exported.exported b))
or_refused-exported none status message next h = absurd (cc h)
or_refused-exported (some a) status message next h = (a, (refl, h))

-- No exception is an answer.
not-failed_by {ℓ} : {A : Type ℓ} (e : Exc) {b : A} → ¬ (failed_by e ≡ Exported.exported b)
not-failed_by (verification c m r s) h = cc h
not-failed_by (value_error m) h = cc h
not-failed_by (key_error m) h = cc h
not-failed_by (live_run m) h = cc h
not-failed_by (invalid_record m) h = cc h
not-failed_by (body_too_large m) h = cc h
not-failed_by (type_error m) h = cc h
not-failed_by (runtime_error m) h = cc h
not-failed_by (export_error n m) h = cc h

or_raised-exported {ℓ κ} :
    {A : Type ℓ} {B : Type κ} (r : Result A) (next : A → Exported B) {b : B}
    → or_raised r next ≡ Exported.exported b
    → (a : A) × ((r ≡ ok a) × (next a ≡ Exported.exported b))
or_raised-exported (err e) next h = absurd (not-failed_by e h)
or_raised-exported (ok a) next h = (a, (refl, h))

exported-injective {ℓ} : {A : Type ℓ} {a b : A} → Exported.exported a ≡ Exported.exported b → a ≡ b
exported-injective h = cc

-- Every listed body can be read.
abbrev pub IsReadable : Contents → Type 0
IsReadable contents =
    (d : String) → elem d contents.payloads ≡ true → (body : Bytes) × (contents.fetch d ≡ ok body)

read_row :
    (o : Option PayloadRow) (row : PayloadRow) (e : Exc)
    → o ≡ some row
    → (or_raise o e >>= λ r. ok r.body) ≡ ok row.body
read_row none row e h = absurd (cc h)
read_row (some other) row e h = cc h

found : (o : Option PayloadRow) → is_some o ≡ true → (row : PayloadRow) × (o ≡ some row)
found none h = absurd (cc h)
found (some row) h = (row, refl)

read_stored :
    (rows : List PayloadRow) (digests : List String) (d : String)
    → AllStored rows digests
    → elem d digests ≡ true
    → (body : Bytes) × (body_from rows d ≡ ok body)
unfolding body_from
read_stored rows [] d a h = absurd (cc h)
read_stored rows (x ∷ xs) d (here, a) h = elim (Bool-cases (x == d)) [
  | inr e ↦ read_stored rows xs d a (ground (arith, h, e))
  | inl e ↦
      let same = (eq_iff x d).0 e in
      let (row, k) =
        found (stored d rows) (subst (λ (y : String). is_some (stored y rows) ≡ true) same here) in
      (row.body, read_row (stored d rows) row _ k)
]

-- What an export of records takes.
pub record IsComplete (omitted : Bool) (records : List Record) (contents : Contents) : Type 0 where
  pub whole : contents.runs ≡ records ∷ []
  pub stated : contents.payloads_omitted ≡ omitted
  pub gathered : AllGathered (all_wanted omitted records) contents.payloads
  pub readable : IsReadable contents

contents_of_run-IsComplete :
    (omitted : Bool) (db : Db) (records : List Record) (contents : Contents)
    → contents_of_run omitted db records ≡ Exported.exported contents
    → IsComplete omitted records contents
unfolding contents_of_run
contents_of_run-IsComplete omitted db [] contents h = absurd (cc h)
contents_of_run-IsComplete omitted db (first ∷ more) contents h =
    let (delegation, (a, h1)) =
      or_refused-exported (delegation_of db.delegations first) 500 _ _ h in
    let (digests, (b, h2)) =
      or_refused-exported (gather db.payloads (all_wanted omitted (first ∷ more)) []) 500 _ _ h1 in
    let (anchors, (c, h3)) = or_raised-exported (receipts (first ∷ more)) _ h2 in
    let (w, (g, s)) = gather_lem db.payloads (all_wanted omitted (first ∷ more)) [] digests b tt in
    subst (λ (x : Contents). IsComplete omitted (first ∷ more) x) (exported-injective h3)
      (record {
        whole = refl;
        stated = refl;
        gathered = g;
        readable = λ d k. read_stored db.payloads digests d s k;
      })

with_run-exported :
    (row run : RunRow) (e : Exported Contents) (contents : Contents)
    → with_run row e ≡ Exported.exported (run, contents)
    → (row ≡ run) × (e ≡ Exported.exported contents)
unfolding with_run
with_run-exported row run (Exported.refused status message) contents h = absurd (cc h)
with_run-exported row run (Exported.raised e) contents h = absurd (cc h)
with_run-exported row run (Exported.exported c) contents h = (cc h, cc h)

-- An export that is not refused is of a live run of the tables, and takes its records in the order
-- of their seq; unless the bodies are left out on purpose, it takes every body that a record names
-- in the bundle; and every body that it takes can be read from the tables.
pub contents_of-IsComplete :
    (run_id : String) (omitted : Bool) (db : Db) (run : RunRow) (contents : Contents)
    → contents_of run_id omitted db ≡ Exported.exported (run, contents)
    → (run.source ≡ "live") × IsComplete omitted (documents run_id db.records) contents
unfolding contents_of
contents_of-IsComplete run_id omitted db run contents h =
    let (row, (a, h1)) = or_refused-exported (get_run run_id db.runs) 404 _ _ h in
    if_cases (not (row.source == "live")) (λ e k. absurd (cc k))
      (λ e k.
        let (same, taken) =
          with_run-exported row run (contents_of_run omitted db (documents run_id db.records))
            contents k in
        let live : row.source ≡ "live" = ground (arith, eq_iff row.source "live", e) in
        (
          subst (λ (x : RunRow). x.source ≡ "live") same live,
          contents_of_run-IsComplete omitted db (documents run_id db.records) contents taken,
        ))
      h1
