-- ===== src/Recorder/Import/Digested.antt =====
-- importer.py and live.py: the stored payload bodies stand under their digests.
use sealedrun.Prelude.{
  ℕ, String, ◌==◌, ◌≡◌, refl, sym, subst, Bool, true, false, not, Option, none, some, List, [], ◌∷◌,
  ◌++◌, find, length, is_some, Dict, if_either, arith, eq_iff,
}
use sealedrun.Result.{Result, ok, err, raise_if, >>=-eq-ok, >>-eq-ok, raise_if-eq-ok, ok-injective}
use sealedrun.Model.{Bytes}
use sealedrun.Library.{Library}
use sealedrun.Hashing.{payload_digest}
use sealedrun.Bundle.{Bundle, BundleReport, verify_bundle}
use sealedrun.Bundle.Archive.{Codec, read_bundle, max_entry_bytes}
use sealedrun.Recorder.Store.{PayloadRow, BundleRow, Db, store_payload}
use sealedrun.Recorder.Import.{
  get_bundle, get_payload, bundle_row, put_payload, import_payload, import_payloads, store_bundle,
  place_bundle, prepare, commit, import_bundle, default_options,
}
use sealedrun.Recorder.Import.Kept.{store_bundle-IsStored}

module _ (lib : Library) where
  -- A body under its digest, with its size.
  abbrev pub IsDigested : PayloadRow → Type 0
  IsDigested row =
      (payload_digest lib row.hash_alg row.body ≡ ok row.digest)
      × (row.size_bytes ≡ length row.body)

  abbrev pub AllDigested : List PayloadRow → Type 0
  AllDigested [] = Unit
  AllDigested (row ∷ rows) = IsDigested row × AllDigested rows

  append-AllDigested :
      (rows : List PayloadRow) (row : PayloadRow)
      → IsDigested row
      → AllDigested rows
      → AllDigested (rows ++ row ∷ [])
  append-AllDigested [] row d all = (d, tt)
  append-AllDigested (r ∷ rows) row d (first, all) = (first, append-AllDigested rows row d all)

  pub store_payload-AllDigested :
      (digest hash_alg : String) (body : Bytes) (rows : List PayloadRow)
      → payload_digest lib hash_alg body ≡ ok digest
      → AllDigested rows
      → AllDigested (store_payload digest hash_alg body rows)
  unfolding store_payload
  store_payload-AllDigested digest hash_alg body rows d all =
      if_either {P = AllDigested (store_payload digest hash_alg body rows)}
        (is_some (find (λ (row : PayloadRow). row.digest == digest) rows))
        (λ h. subst (λ (x : List PayloadRow). AllDigested x) h all)
        (λ h.
          subst (λ (x : List PayloadRow). AllDigested x) h
            (append-AllDigested rows _ (d, refl) all))
        refl

  put_payload-AllDigested :
      (o : Option PayloadRow) (hash_alg digest : String) (body : Bytes)
      (rows after : List PayloadRow)
      → payload_digest lib hash_alg body ≡ ok digest
      → put_payload o hash_alg digest body rows ≡ ok after
      → AllDigested rows
      → AllDigested after
  unfolding put_payload
  put_payload-AllDigested none hash_alg digest body rows after d h all =
      subst (λ (x : List PayloadRow). AllDigested x) (ok-injective h)
        (append-AllDigested rows _ (d, refl) all)
  put_payload-AllDigested (some stored) hash_alg digest body rows after d h all =
      let (h1, a) = >>-eq-ok (raise_if _ _) _ h in
      subst (λ (x : List PayloadRow). AllDigested x) (ok-injective h1) all

  import_payloads-AllDigested :
      (hash_alg : String) (payloads : Dict Bytes) (rows after : List PayloadRow)
      → import_payloads lib hash_alg payloads rows ≡ ok after
      → AllDigested rows
      → AllDigested after
  unfolding import_payloads import_payload
  import_payloads-AllDigested hash_alg [] rows after h all =
      subst (λ (x : List PayloadRow). AllDigested x) (ok-injective h) all
  import_payloads-AllDigested hash_alg ((digest, body) ∷ payloads) rows after h all =
      let (next, a, h1) = >>=-eq-ok (import_payload lib hash_alg digest body rows) _ h in
      let (expected, b, h2) = >>=-eq-ok (payload_digest lib hash_alg body) _ a in
      let (h3, c) = >>-eq-ok (raise_if (not (digest == expected)) _) _ h2 in
      let r = raise_if-eq-ok (not (digest == expected)) _ c in
      let same : expected ≡ digest = sym ((eq_iff digest expected).0 (ground arith)) in
      let d = subst (λ (x : String). payload_digest lib hash_alg body ≡ ok x) same b in
      import_payloads-AllDigested hash_alg payloads next after h1
        (put_payload-AllDigested (get_payload digest rows) hash_alg digest body rows next d h3 all)

  place_bundle-AllDigested :
      (o : Option BundleRow) (bundle : Bundle) (report : BundleReport) (archive : Bytes)
      (at : String) (db : Db) (row : BundleRow) (after : Db)
      → place_bundle lib o bundle report archive at db ≡ ok (row, some after)
      → AllDigested db.payloads
      → AllDigested after.payloads
  unfolding place_bundle
  place_bundle-AllDigested (some existing) bundle report archive at db row after h all =
      absurd (cc h)
  place_bundle-AllDigested none bundle report archive at db row after h all =
      let (filled, a, h1) =
        >>=-eq-ok (store_bundle lib bundle report (bundle_row bundle report archive at) db) _ h in
      let stored =
        store_bundle-IsStored lib bundle report (bundle_row bundle report archive at) db filled a in
      let same : filled ≡ after = cc h1 in
      subst (λ (x : Db). AllDigested x.payloads) same
        (import_payloads-AllDigested bundle.manifest.protected.hash_alg bundle.payloads db.payloads
          filled.payloads stored.bodies all)

  module _ (codec : Codec) where
    commit-AllDigested :
        (prepared : Result (BundleRow × Option Db)) (committed : Bool) (db : Db)
        → ((row : BundleRow) (filled : Db)
            → prepared ≡ ok (row, some filled)
            → AllDigested filled.payloads)
        → AllDigested db.payloads
        → AllDigested ((commit lib codec prepared committed db).1).payloads
    unfolding commit
    commit-AllDigested (err e) committed db filling all = all
    commit-AllDigested (ok (row, none)) committed db filling all = all
    commit-AllDigested (ok (row, some filled)) true db filling all = filling row filled refl
    commit-AllDigested (ok (row, some filled)) false db filling all = all

    pub import_bundle-AllDigested :
        (archive : Bytes) (trusted : Option (List String)) (limit : ℕ) (at : String)
        (committed : Bool) (db : Db)
        → AllDigested db.payloads
        → AllDigested ((import_bundle lib codec archive trusted limit at committed db).1).payloads
    unfolding import_bundle prepare
    import_bundle-AllDigested archive trusted limit at committed db all =
        commit-AllDigested (prepare lib codec archive trusted limit at db) committed db
          (λ row filled h.
            let (bundle, a, h1) =
              >>=-eq-ok (read_bundle lib codec archive max_entry_bytes limit) _ h in
            let (report, b, h2) =
              >>=-eq-ok (verify_bundle lib bundle trusted (default_options lib)) _ h1 in
            place_bundle-AllDigested (get_bundle bundle.manifest.protected.bundle_id db.bundles)
              bundle report archive at db row filled h2 all)
          all
