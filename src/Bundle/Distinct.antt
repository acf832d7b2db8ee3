-- ===== src/Bundle/Distinct.antt =====
-- bundle.py: the record ids of a bundle's runs together.
use sealedrun.Prelude.{
  String, ◌≡◌, subst, Option, List, [], ◌∷◌, ◌++◌, elem, Dict, lookup, or_else, sym,
}
use sealedrun.Result.{
  ok, raise_if, or_raise, >>=-eq-ok, >>-eq-ok, raise_if-eq-ok, or_raise-eq-ok, ok-injective,
}
use sealedrun.Model.{Record, RunEntry}
use sealedrun.Run.Accept.{Fresh}
use sealedrun.Library.{Library}
use sealedrun.Run.{Options}
use sealedrun.Bundle.Verdict.{verify_bundle-IsAccepted}
use sealedrun.Bundle.{Bundle, BundleReport, verify_bundle, check_record_ids, record_ids}

-- The records of the runs that the entries name, one run behind the other.
abbrev pub all_records : Dict (List Record) → List RunEntry → List Record
all_records runs [] = []
all_records runs (entry ∷ entries) =
    or_else (lookup entry.run_id runs) [] ++ all_records runs entries

record_ids-Fresh :
    (run_id : String) (rs more : List Record) (seen seen' : List String)
    → record_ids run_id rs seen ≡ ok seen'
    → Fresh seen' more
    → Fresh seen (rs ++ more)
unfolding record_ids
record_ids-Fresh run_id [] more seen seen' h f =
    subst (λ (x : List String). Fresh x more) (sym (ok-injective h)) f
record_ids-Fresh run_id (r ∷ rs) more seen seen' h f =
    let (h1, a) = >>-eq-ok (raise_if (elem r.protected.record_id seen) _) _ h in
    (
      raise_if-eq-ok _ _ a,
      record_ids-Fresh run_id rs more (r.protected.record_id ∷ seen) seen' h1 f,
    )

check_record_ids-Fresh :
    (runs : Dict (List Record)) (entries : List RunEntry) (seen seen' : List String)
    → check_record_ids runs entries seen ≡ ok seen'
    → Fresh seen (all_records runs entries)
unfolding check_record_ids
check_record_ids-Fresh runs [] seen seen' h = tt
check_record_ids-Fresh runs (entry ∷ entries) seen seen' h =
    let (records, a, h1) = >>=-eq-ok (or_raise (lookup entry.run_id runs) _) _ h in
    let (behind, b, h2) = >>=-eq-ok (record_ids entry.run_id records seen) _ h1 in
    rw (or_raise-eq-ok _ _ a) (
      record_ids-Fresh entry.run_id records (all_records runs entries) seen behind b
        (check_record_ids-Fresh runs entries behind seen' h2))

-- No record id stands twice in the records of all the runs that the manifest of an accepted bundle
-- lists, within a run or across two.
pub verify_bundle-Fresh :
    (lib : Library) (bundle : Bundle) (trusted : Option (List String)) (options : Options)
    (report : BundleReport)
    → verify_bundle lib bundle trusted options ≡ ok report
    → Fresh [] (all_records bundle.runs bundle.manifest.protected.runs)
verify_bundle-Fresh lib bundle trusted options report h =
    let a = verify_bundle-IsAccepted lib bundle trusted options report h in
    check_record_ids-Fresh bundle.runs bundle.manifest.protected.runs [] a.seen a.distinct
