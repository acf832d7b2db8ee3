-- ===== src/Bundle/Write/Entry.antt =====
-- bundle.py: the entry of a written run, and the bundle that has it.
use sealedrun.Prelude.{
  String, ◌==◌, ◌≡◌, ◌↔◌, refl, sym, ◌∙◌, subst, Bool, some, List, [], ◌∷◌, last, length, lookup,
  arith, eq_iff,
}
use sealedrun.Result.{ok, >>=-eq-ok, ok-injective}
use sealedrun.Model.{Record, RunEntry}
use sealedrun.Library.{Library}
use sealedrun.Hashing.{zero_hash}
use sealedrun.Run.{Options, RunReport, verify_run}
use sealedrun.Run.Accept.{EndsOnce}
use sealedrun.Run.Verdict.{verify_run_report}
use sealedrun.Bundle.{Bundle, verify_entry, check_entry, first_alg}
use sealedrun.Bundle.Verdict.{expected_hash, verify_entry-IsVerified}
use sealedrun.Bundle.Write.{entry_of}

EndsOnce-last :
    (first : Record) (rest : List Record) (ended : Bool)
    → EndsOnce first rest ended
    → ended ≡ ((last first rest).protected.kind == "run_end")
EndsOnce-last first [] ended h = h
EndsOnce-last first (next ∷ rest) ended (h, k) = EndsOnce-last next rest ended k

-- What the entry says of its run.
record IsEntryOf (first : Record) (rest : List Record) (entry : RunEntry) : Type 0 where
  counted : entry.record_count ≡ length (first ∷ rest)
  tip : entry.last_hash ≡ (last first rest).hash
  whole : entry.complete ≡ ((last first rest).protected.kind == "run_end")
  from_seq : entry.first_seq ≡ first.protected.seq

entry_of-IsEntryOf :
    (first : Record) (rest : List Record) (entry : RunEntry)
    → entry_of first rest ≡ ok entry
    → IsEntryOf first rest entry
unfolding entry_of
entry_of-IsEntryOf first rest entry h =
    let (zero, a, h1) = >>=-eq-ok (zero_hash first.protected.hash_alg) _ h in
    subst (λ (x : RunEntry). IsEntryOf first rest x) (ok-injective h1)
      (record { counted = refl; tip = refl; whole = refl; from_seq = refl })

some-injective : {a b : List Record} → some a ≡ some b → a ≡ b
some-injective h = cc

module _ (lib : Library) where
  check_entry-passes :
      (entry : RunEntry) (report : RunReport) (run_alg manifest_alg : String)
      → report.record_count ≡ entry.record_count
      → report.last_hash ≡ entry.last_hash
      → report.complete ≡ entry.complete
      → report.first_seq ≡ entry.first_seq
      → run_alg ≡ manifest_alg
      → check_entry lib entry report run_alg manifest_alg ≡ ok tt
  unfolding check_entry
  check_entry-passes entry report run_alg manifest_alg a b c d e =
      ground
        (arith, eq_iff report.last_hash entry.last_hash, eq_iff run_alg manifest_alg, a, b, c, d, e)

  first_alg-alg :
      (first : Record) (rest records : List Record) {alg : String}
      → records ≡ first ∷ rest
      → first_alg lib records ≡ ok alg
      → alg ≡ first.protected.hash_alg
  first_alg-alg first rest records {alg} same h =
      let k : first_alg lib (first ∷ rest) ≡ ok alg =
        subst (λ (x : List Record). first_alg lib x ≡ ok alg) same h in
      sym (ok-injective k)

  -- In a bundle that holds the records of a run under its id, where the run is accepted from the
  -- hash that the entry made by `write_bundle` names, the entry passes the checks of `verify_bundle`
  -- just if the hash algorithm of the manifest is the run's.
  pub entry_of-verify_entry :
      (bundle : Bundle) (options : Options) (first : Record) (rest : List Record) (entry : RunEntry)
      (report : RunReport)
      → entry_of first rest ≡ ok entry
      → lookup entry.run_id bundle.runs ≡ some (first ∷ rest)
      → verify_run lib options (first ∷ rest) bundle.delegations (expected_hash entry) ≡ ok report
      → (verify_entry lib bundle options entry ≡ ok report)
        ↔ (bundle.manifest.protected.hash_alg ≡ first.protected.hash_alg)
  unfolding verify_entry
  entry_of-verify_entry bundle options first rest entry report written present accepted =
      let e = entry_of-IsEntryOf first rest entry written in
      let (run_id, count, seq, tip, ends) =
        verify_run_report lib first rest bundle.delegations (expected_hash entry) options report
          accepted in
      let passes = λ (alg : bundle.manifest.protected.hash_alg ≡ first.protected.hash_alg).
        check_entry-passes entry report first.protected.hash_alg bundle.manifest.protected.hash_alg
          (count ∙ sym e.counted) (tip ∙ sym e.tip)
          (EndsOnce-last first rest report.complete ends ∙ sym e.whole) (seq ∙ sym e.from_seq)
          (sym alg) in
      (
        (λ h.
            let v = verify_entry-IsVerified lib bundle options entry report h in
            first_alg-alg first rest v.records (some-injective (sym v.present ∙ present)) v.alg),
        (λ alg. rw (present, accepted, passes alg)),
      )
