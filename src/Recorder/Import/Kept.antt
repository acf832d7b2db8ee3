-- ===== src/Recorder/Import/Kept.antt =====
-- importer.py: an import keeps what is stored.
use sealedrun.Prelude.{
  ℕ, String, ◌==◌, ◌≡◌, refl, sym, ap, ◌∙◌, subst, Bool, true, false, not, inl, inr, Option, none,
  some, List, [], ◌∷◌, ◌++◌, filter, map, is_some, Dict, lookup, insert, dict_values, lookup-insert,
  find-append, filter-append, append_nil, Option-cases, Bool-cases, arith, eq_iff,
}
use sealedrun.Result.{Result, ok, err, raise_if, or_raise, >>=-eq-ok, >>-eq-ok, ok-injective}
use sealedrun.Model.{Bytes, Record, Delegation}
use sealedrun.Library.{Library}
use sealedrun.Hashing
use sealedrun.Run.{RunReport}
use sealedrun.Bundle.{Bundle, BundleReport, verify_bundle}
use sealedrun.Bundle.Archive.{Codec, read_bundle, max_entry_bytes}
use sealedrun.Recorder.Store.{RunRow, RecordRow, PayloadRow, BundleRow, Db, get_run}
use sealedrun.Recorder.Import.{
  get_bundle, get_payload, bundle_row, import_delegations, imported_record, fresh_run, import_run,
  import_runs, put_payload, import_payload, import_payloads, store_bundle, place_bundle, prepare,
  commit, import_bundle, default_options,
}

-- The rows of a run's records.
abbrev pub records_of : String → List RecordRow → List RecordRow
records_of run_id rows = filter (λ row. row.run_id == run_id) rows

-- A stored run stays, with its records and no others.
abbrev pub RunsKept : Db → Db → Type 0
RunsKept db after =
    (run_id : String) (row : RunRow)
    → get_run run_id db.runs ≡ some row
    → (get_run run_id after.runs ≡ some row)
      × (records_of run_id after.records ≡ records_of run_id db.records)

records_of-map :
    (run_id other : String) (entries : List Record)
    → (other == run_id) ≡ false
    → records_of run_id (map (imported_record other) entries) ≡ []
records_of-map run_id other [] h = refl
records_of-map run_id other (entry ∷ entries) h =
    ground (arith, h, records_of-map run_id other entries h)

other_run :
    (run_id other : String) (rows : List RunRow) (row : RunRow)
    → get_run run_id rows ≡ some row
    → get_run other rows ≡ none
    → (other == run_id) ≡ false
other_run run_id other rows row h k = elim (Bool-cases (other == run_id)) [
  | inr e ↦ e
  | inl e ↦ absurd (
      let p = subst (λ (x : String). get_run x rows ≡ none) ((eq_iff other run_id).0 e) k in
      cc (h, p))
]

fresh_run-RunsKept :
    (bundle_id : String) (report : RunReport) (records : List Record) (db after : Db)
    → get_run report.run_id db.runs ≡ none
    → fresh_run bundle_id report records db ≡ ok after
    → RunsKept db after
unfolding fresh_run
fresh_run-RunsKept bundle_id report [] db after new h = absurd (cc h)
fresh_run-RunsKept bundle_id report (first ∷ more) db after new h =
    subst (λ (x : Db). RunsKept db x) (ok-injective h)
      (λ run_id row stored.
        let apart = other_run run_id report.run_id db.runs row stored new in
        (
          find-append (λ r. r.run_id == run_id) db.runs _ row stored,
          filter-append (λ r. r.run_id == run_id) db.records
                (map (imported_record report.run_id) (first ∷ more))
              ∙ ap (λ (x : List RecordRow). records_of run_id db.records ++ x)
                  (records_of-map run_id report.run_id (first ∷ more) apart)
              ∙ append_nil (records_of run_id db.records),
        ))

-- The tables that the runs do not touch.
abbrev pub SameRest : Db → Db → Type 0
SameRest db after =
    (after.delegations ≡ db.delegations)
    × (after.bundles ≡ db.bundles)
    × (after.payloads ≡ db.payloads)

fresh_run-SameRest :
    (bundle_id : String) (report : RunReport) (records : List Record) (db after : Db)
    → fresh_run bundle_id report records db ≡ ok after
    → SameRest db after
unfolding fresh_run
fresh_run-SameRest bundle_id report [] db after h = absurd (cc h)
fresh_run-SameRest bundle_id report (first ∷ more) db after h =
    subst (λ (x : Db). SameRest db x) (ok-injective h) (refl, refl, refl)

not_stored : (o : Option RunRow) → is_some o ≡ false → o ≡ none
not_stored none h = refl
not_stored (some row) h = absurd (cc h)

import_run-Kept :
    (bundle : Bundle) (bundle_id : String) (report : RunReport) (db after : Db)
    → import_run bundle bundle_id report db ≡ ok after
    → RunsKept db after × SameRest db after
unfolding import_run
import_run-Kept bundle bundle_id report db after h =
    let (records, a, h1) = >>=-eq-ok (or_raise (lookup report.run_id bundle.runs) _) _ h in
    elim (Option-cases (get_run report.run_id db.runs)) [
      | inl new ↦
          let k : fresh_run bundle_id report records db ≡ ok after = ground (arith, h1, new) in
          (
            fresh_run-RunsKept bundle_id report records db after new k,
            fresh_run-SameRest bundle_id report records db after k,
          )
      | inr (row, stored) ↦
          let k : db ≡ after = ground (arith, h1, stored) in
          subst (λ (x : Db). RunsKept db x × SameRest db x) k
            ((λ run_id r s. (s, refl)), (refl, refl, refl))
    ]

import_runs-Kept :
    (bundle : Bundle) (bundle_id : String) (reports : List RunReport) (db after : Db)
    → import_runs bundle bundle_id reports db ≡ ok after
    → RunsKept db after × SameRest db after
unfolding import_runs
import_runs-Kept bundle bundle_id [] db after h =
    subst (λ (x : Db). RunsKept db x × SameRest db x) (ok-injective h)
      ((λ run_id r s. (s, refl)), (refl, refl, refl))
import_runs-Kept bundle bundle_id (report ∷ reports) db after h =
    let (next, a, h1) = >>=-eq-ok (import_run bundle bundle_id report db) _ h in
    let (kept, (d, b, p)) = import_run-Kept bundle bundle_id report db next a in
    let (kept', (d', b', p')) = import_runs-Kept bundle bundle_id reports next after h1 in
    (
      (λ run_id row stored.
          let (s, e) = kept run_id row stored in let (s', e') = kept' run_id row s in (s', e' ∙ e)),
      (d' ∙ d, b' ∙ b, p' ∙ p),
    )

-- A stored delegation stays as it is.
abbrev pub DelegationsKept : Dict Delegation → Dict Delegation → Type 0
DelegationsKept stored after =
    (delegation_id : String) (d : Delegation)
    → lookup delegation_id stored ≡ some d
    → lookup delegation_id after ≡ some d

insert-DelegationsKept :
    (key : String) (d : Delegation) (stored : Dict Delegation)
    → lookup key stored ≡ none
    → DelegationsKept stored (insert key d stored)
insert-DelegationsKept key d stored new delegation_id known h =
    elim (Bool-cases (key == delegation_id)) [
      | inl e ↦ absurd (
          let p =
            subst (λ (x : String). lookup x stored ≡ none) ((eq_iff key delegation_id).0 e) new in
          cc (h, p))
      | inr e ↦ ground (arith, lookup-insert key delegation_id d stored, e, h)
    ]

import_delegations-Kept :
    (ds : List Delegation) (stored after : Dict Delegation)
    → import_delegations ds stored ≡ ok after
    → DelegationsKept stored after
unfolding import_delegations
import_delegations-Kept [] stored after h =
    subst (λ (x : Dict Delegation). DelegationsKept stored x) (ok-injective h)
      (λ delegation_id d k. k)
import_delegations-Kept (d ∷ ds) stored after h =
    elim (Option-cases (lookup d.protected.delegation_id stored)) [
      | inl new ↦
          let k : import_delegations ds (insert d.protected.delegation_id d stored) ≡ ok after =
            ground (arith, h, new) in
          λ delegation_id known s.
            import_delegations-Kept ds (insert d.protected.delegation_id d stored) after k
              delegation_id known
              (insert-DelegationsKept d.protected.delegation_id d stored new delegation_id known s)
      | inr (known, s) ↦
          let k : import_delegations ds stored ≡ ok after = ground (arith, h, s) in
          import_delegations-Kept ds stored after k
    ]

-- A stored payload body stays as it is.
abbrev pub PayloadsKept : List PayloadRow → List PayloadRow → Type 0
PayloadsKept rows after =
    (digest : String) (row : PayloadRow)
    → get_payload digest rows ≡ some row
    → get_payload digest after ≡ some row

put_payload-Kept :
    (o : Option PayloadRow) (hash_alg digest : String) (body : Bytes) (rows after : List PayloadRow)
    → put_payload o hash_alg digest body rows ≡ ok after
    → PayloadsKept rows after
unfolding put_payload
put_payload-Kept none hash_alg digest body rows after h =
    subst (λ (x : List PayloadRow). PayloadsKept rows x) (ok-injective h)
      (λ d row stored. find-append (λ r. r.digest == d) rows _ row stored)
put_payload-Kept (some stored) hash_alg digest body rows after h =
    let (h1, a) = >>-eq-ok (raise_if _ _) _ h in
    subst (λ (x : List PayloadRow). PayloadsKept rows x) (ok-injective h1) (λ d row s. s)

module _ (lib : Library) where
  import_payloads-Kept :
      (hash_alg : String) (payloads : Dict Bytes) (rows after : List PayloadRow)
      → import_payloads lib hash_alg payloads rows ≡ ok after
      → PayloadsKept rows after
  unfolding import_payloads import_payload
  import_payloads-Kept hash_alg [] rows after h =
      subst (λ (x : List PayloadRow). PayloadsKept rows x) (ok-injective h) (λ d row s. s)
  import_payloads-Kept hash_alg ((digest, body) ∷ payloads) rows after h =
      let (next, a, h1) = >>=-eq-ok (import_payload lib hash_alg digest body rows) _ h in
      let (expected, b, h2) = >>=-eq-ok (Hashing.payload_digest lib hash_alg body) _ a in
      let (h3, c) = >>-eq-ok (raise_if (not (digest == expected)) _) _ h2 in
      let kept = put_payload-Kept (get_payload digest rows) hash_alg digest body rows next h3 in
      λ d row s. import_payloads-Kept hash_alg payloads next after h1 d row (kept d row s)

  -- What is stored stays.
  pub record IsKept (db after : Db) : Type 0 where
    pub runs : RunsKept db after
    pub delegations : DelegationsKept db.delegations after.delegations
    pub payloads : PayloadsKept db.payloads after.payloads
    pub bundles :
        (bundle_id : String) (row : BundleRow)
        → get_bundle bundle_id db.bundles ≡ some row
        → get_bundle bundle_id after.bundles ≡ some row

  -- What `store_bundle` leaves.
  pub record IsStored (bundle : Bundle) (row : BundleRow) (db after : Db) : Type 0 where
    pub kept : IsKept db after
    pub listed : after.bundles ≡ db.bundles ++ row ∷ []
    pub bodies :
        import_payloads lib bundle.manifest.protected.hash_alg bundle.payloads db.payloads
        ≡ ok after.payloads

  pub store_bundle-IsStored :
      (bundle : Bundle) (report : BundleReport) (row : BundleRow) (db after : Db)
      → store_bundle lib bundle report row db ≡ ok after
      → IsStored bundle row db after
  unfolding store_bundle
  store_bundle-IsStored bundle report row db after h =
      let (delegations, a, h1) =
        >>=-eq-ok (import_delegations (dict_values bundle.delegations) db.delegations) _ h in
      let start = record db { delegations = delegations; bundles = db.bundles ++ row ∷ [] } in
      let (filled, b, h2) = >>=-eq-ok (import_runs bundle row.bundle_id report.runs start) _ h1 in
      let (payloads, c, h3) =
        >>=-eq-ok
          (import_payloads lib bundle.manifest.protected.hash_alg bundle.payloads db.payloads) _
          h2 in
      let (kept, (d, e, p)) = import_runs-Kept bundle row.bundle_id report.runs start filled b in
      subst (λ (x : Db). IsStored bundle row db x) (ok-injective h3)
        (record {
          kept = record {
            runs = kept;
            delegations =
                subst (λ (x : Dict Delegation). DelegationsKept db.delegations x) (sym d)
                  (import_delegations-Kept (dict_values bundle.delegations) db.delegations
                    delegations a);
            payloads =
                import_payloads-Kept bundle.manifest.protected.hash_alg bundle.payloads db.payloads
                  payloads c;
            bundles = λ bundle_id other s.
                subst (λ (x : List BundleRow). get_bundle bundle_id x ≡ some other) (sym e)
                  (find-append (λ r. r.bundle_id == bundle_id) db.bundles (row ∷ []) other s);
          };
          listed = e;
          bodies = c;
        })

  everything_kept : (db : Db) → IsKept db db
  everything_kept db = record {
    runs = λ run_id row s. (s, refl);
    delegations = λ delegation_id d s. s;
    payloads = λ digest row s. s;
    bundles = λ bundle_id row s. s;
  }

  place_bundle-IsKept :
      (o : Option BundleRow) (bundle : Bundle) (report : BundleReport) (archive : Bytes)
      (at : String) (db : Db) (row : BundleRow) (change : Option Db)
      → place_bundle lib o bundle report archive at db ≡ ok (row, change)
      → (after : Db) → change ≡ some after
      → IsKept db after
  unfolding place_bundle
  place_bundle-IsKept (some existing) bundle report archive at db row change h after c =
      absurd (cc (h, c))
  place_bundle-IsKept none bundle report archive at db row change h after c =
      let (filled, a, h1) =
        >>=-eq-ok (store_bundle lib bundle report (bundle_row bundle report archive at) db) _ h in
      let stored =
        store_bundle-IsStored bundle report (bundle_row bundle report archive at) db filled a in
      let same : filled ≡ after = cc (h1, c) in subst (λ (x : Db). IsKept db x) same stored.kept

  module _ (codec : Codec) where
    prepare-IsKept :
        (archive : Bytes) (trusted : Option (List String)) (limit : ℕ) (at : String) (db : Db)
        (row : BundleRow) (after : Db)
        → prepare lib codec archive trusted limit at db ≡ ok (row, some after)
        → IsKept db after
    unfolding prepare
    prepare-IsKept archive trusted limit at db row after h =
        let (bundle, a, h1) = >>=-eq-ok (read_bundle lib codec archive max_entry_bytes limit) _ h in
        let (report, b, h2) =
          >>=-eq-ok (verify_bundle lib bundle trusted (default_options lib)) _ h1 in
        place_bundle-IsKept (get_bundle bundle.manifest.protected.bundle_id db.bundles) bundle
          report archive at db row (some after) h2 after refl

    commit-IsKept :
        (prepared : Result (BundleRow × Option Db)) (committed : Bool) (db after : Db)
        (answer : Result BundleRow)
        → ((row : BundleRow) (filled : Db) → prepared ≡ ok (row, some filled) → IsKept db filled)
        → commit lib codec prepared committed db ≡ (answer, after)
        → IsKept db after
    unfolding commit
    commit-IsKept (err e) committed db after answer kept h =
        subst (λ (x : Db). IsKept db x) (cc h) (everything_kept db)
    commit-IsKept (ok (row, none)) committed db after answer kept h =
        subst (λ (x : Db). IsKept db x) (cc h) (everything_kept db)
    commit-IsKept (ok (row, some filled)) true db after answer kept h =
        subst (λ (x : Db). IsKept db x) (cc h) (kept row filled refl)
    commit-IsKept (ok (row, some filled)) false db after answer kept h =
        subst (λ (x : Db). IsKept db x) (cc h) (everything_kept db)

    -- Whatever an import answers, every run, delegation, payload body and bundle that was stored is
    -- stored after it as it was, and a stored run has the records that it had and no others.
    pub import_bundle-IsKept :
        (archive : Bytes) (trusted : Option (List String)) (limit : ℕ) (at : String)
        (committed : Bool) (db after : Db) (answer : Result BundleRow)
        → import_bundle lib codec archive trusted limit at committed db ≡ (answer, after)
        → IsKept db after
    unfolding import_bundle
    import_bundle-IsKept archive trusted limit at committed db after answer h =
        commit-IsKept (prepare lib codec archive trusted limit at db) committed db after answer
          (λ row filled. prepare-IsKept archive trusted limit at db row filled) h
