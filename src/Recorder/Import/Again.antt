-- ===== src/Recorder/Import/Again.antt =====
-- importer.py: an archive that is imported again.
use sealedrun.Prelude.{
  ℕ, String, ◌==◌, ◌≡◌, refl, sym, ◌∙◌, subst, Bool, true, false, Option, none, some, List, [], ◌∷◌,
  ◌++◌, or_else, find-append_none, arith, eq_iff,
}
use sealedrun.Result.{Result, ok, err, >>=-eq-ok, ok-injective}
use sealedrun.Model.{Bytes}
use sealedrun.Library.{Library}
use sealedrun.Bundle.{Bundle, BundleReport, verify_bundle}
use sealedrun.Bundle.Archive.{Codec, read_bundle, max_entry_bytes}
use sealedrun.Recorder.Store.{BundleRow, Db}
use sealedrun.Recorder.Import.{
  get_bundle, bundle_row, store_bundle, place_bundle, prepare, commit, import_bundle,
  default_options,
}
use sealedrun.Recorder.Import.Kept.{store_bundle-IsStored}

get_bundle-append :
    (bundle_id : String) (rows : List BundleRow) (row : BundleRow)
    → get_bundle bundle_id rows ≡ none
    → row.bundle_id ≡ bundle_id
    → get_bundle bundle_id (rows ++ row ∷ []) ≡ some row
get_bundle-append bundle_id rows row new same =
    find-append_none (λ r. r.bundle_id == bundle_id) rows (row ∷ []) new
    ∙ ground (arith, eq_iff row.bundle_id bundle_id, same)

module _ (lib : Library) where
  place_bundle-found :
      (o : Option BundleRow) (bundle : Bundle) (report : BundleReport) (archive : Bytes)
      (at : String) (db : Db) (row : BundleRow) (change : Option Db)
      → get_bundle bundle.manifest.protected.bundle_id db.bundles ≡ o
      → place_bundle lib o bundle report archive at db ≡ ok (row, change)
      → get_bundle bundle.manifest.protected.bundle_id (or_else change db).bundles ≡ some row
  unfolding place_bundle bundle_row
  place_bundle-found (some existing) bundle report archive at db row change look h =
      let e : (existing, none) ≡ (row, change) = ok-injective h in
      subst
        (λ (x : BundleRow × Option Db).
          get_bundle bundle.manifest.protected.bundle_id (or_else x.1 db).bundles ≡ some x.0)
        e look
  place_bundle-found none bundle report archive at db row change look h =
      let new_row = bundle_row bundle report archive at in
      let (filled, a, h1) = >>=-eq-ok (store_bundle lib bundle report new_row db) _ h in
      let stored = store_bundle-IsStored lib bundle report new_row db filled a in
      subst
        (λ (x : BundleRow × Option Db).
          get_bundle bundle.manifest.protected.bundle_id (or_else x.1 db).bundles ≡ some x.0)
        (ok-injective h1)
        (subst
          (λ (rows : List BundleRow).
            get_bundle bundle.manifest.protected.bundle_id rows ≡ some new_row)
          (sym stored.listed)
          (get_bundle-append bundle.manifest.protected.bundle_id db.bundles new_row look refl))

  module _ (codec : Codec) where
    -- The bundle of an archive that is accepted and stored.
    record IsImported (archive : Bytes) (trusted : Option (List String)) (limit : ℕ) (db : Db)
        (row : BundleRow) : Type 0 where
      bundle : Bundle
      report : BundleReport
      read : read_bundle lib codec archive max_entry_bytes limit ≡ ok bundle
      verified : verify_bundle lib bundle trusted (default_options lib) ≡ ok report
      stored : get_bundle bundle.manifest.protected.bundle_id db.bundles ≡ some row

    prepare-IsImported :
        (archive : Bytes) (trusted : Option (List String)) (limit : ℕ) (at : String) (db : Db)
        (row : BundleRow) (change : Option Db)
        → prepare lib codec archive trusted limit at db ≡ ok (row, change)
        → IsImported archive trusted limit (or_else change db) row
    unfolding prepare
    prepare-IsImported archive trusted limit at db row change h =
        let (bundle, a, h1) = >>=-eq-ok (read_bundle lib codec archive max_entry_bytes limit) _ h in
        let (report, b, h2) =
          >>=-eq-ok (verify_bundle lib bundle trusted (default_options lib)) _ h1 in
        record {
          bundle = bundle;
          report = report;
          read = a;
          verified = b;
          stored = place_bundle-found _ bundle report archive at db row change refl h2;
        }

    import_bundle-IsImported :
        (archive : Bytes) (trusted : Option (List String)) (limit : ℕ) (at : String)
        (committed : Bool) (db : Db) (row : BundleRow)
        → IsImported archive trusted limit db row
        → import_bundle lib codec archive trusted limit at committed db ≡ (ok row, db)
    unfolding import_bundle prepare place_bundle commit
    import_bundle-IsImported archive trusted limit at committed db row i =
        rw (i.read, i.verified, i.stored)

    commit-ok :
        (prepared : Result (BundleRow × Option Db)) (committed : Bool) (db after : Db)
        (row : BundleRow)
        → commit lib codec prepared committed db ≡ (ok row, after)
        → (change : Option Db) × ((prepared ≡ ok (row, change)) × (or_else change db ≡ after))
    unfolding commit
    commit-ok (err e) committed db after row h = absurd (cc h)
    commit-ok (ok (row', none)) committed db after row h = (none, (cc h, cc h))
    commit-ok (ok (row', some filled)) true db after row h = (some filled, (cc h, cc h))
    commit-ok (ok (row', some filled)) false db after row h = absurd (cc h)

    -- An archive whose import succeeds, imported again into the tables behind it, at any time and
    -- whatever the database answers to a commit, gives the same bundle row and changes nothing.
    pub import_bundle_again :
        (archive : Bytes) (trusted : Option (List String)) (limit : ℕ) (at later : String)
        (committed again : Bool) (db after : Db) (row : BundleRow)
        → import_bundle lib codec archive trusted limit at committed db ≡ (ok row, after)
        → import_bundle lib codec archive trusted limit later again after ≡ (ok row, after)
    unfolding import_bundle
    import_bundle_again archive trusted limit at later committed again db after row h =
        let (change, (p, same)) =
          commit-ok (prepare lib codec archive trusted limit at db) committed db after row h in
        import_bundle-IsImported archive trusted limit later again after row (
          subst (λ (x : Db). IsImported archive trusted limit x row) same
            (prepare-IsImported archive trusted limit at db row change p))
