-- ===== src/Bundle/Verdict.antt =====
-- bundle.py: a bundle that `verify_bundle` accepts.
use sealedrun.Prelude.{
  String, ◌≡◌, refl, ap, ◌∙◌, subst, Bool, true, false, ◌&&◌, Option, none, some, List, [], ◌∷◌,
  arith, eq_iff, elem, is_some, or_else, Dict, lookup, dict_values, ltb, if◌then◌else◌, not,
}
use sealedrun.Result.{
  ok, or_raise, >>=-eq-ok, >>-eq-ok, raise_if-eq-ok, or_raise-eq-ok, ok-injective,
}
use sealedrun.Model.{Record, Delegation, RunEntry}
use sealedrun.Library.{Library}
use sealedrun.Keys.{keyset_from_json}
use sealedrun.Signing.{check_hash, check_signatures, domain_manifest}
use sealedrun.Delegation.{verify_delegation}
use sealedrun.Run.{Options, RunReport, verify_run}
use sealedrun.Run.Parent.{check_parent_links}
use sealedrun.Bundle.{
  Bundle, BundleReport, verify_bundle, check_manifest, check_delegations, check_lists, verify_entry,
  verify_entries, check_entry, check_record_ids, check_anchor_files, find_delegation, run_options,
  bool_eq, refuse_if, first_alg,
}

-- The hash that a run of the bundle must chain from, by its entry in the manifest.
abbrev pub expected_hash : RunEntry → Option String
expected_hash entry = if ltb 0 entry.first_seq then some entry.first_hash else none

not-false : (a : Bool) → not a ≡ false → a ≡ true
not-false a h = ground arith

not_some : (o : Option String) → is_some o ≡ false → o ≡ none
not_some none h = refl
not_some (some a) h = absurd (cc h)

-- A principal is trusted where no set is given, and otherwise where it is in the set.
abbrev pub is_trusted : String → Option (List String) → Bool
is_trusted principal_id none = true
is_trusted principal_id (some trusted) = elem principal_id trusted

trust_of :
    (principal_id : String) (trusted : Option (List String))
    → (is_some trusted && not (elem principal_id (or_else trusted []))) ≡ false
    → is_trusted principal_id trusted ≡ true
trust_of principal_id none h = refl
trust_of principal_id (some trusted) h = not-false (elem principal_id trusted) h

module _ (lib : Library) where
  -- A run of the bundle as its entry states it.
  pub record IsVerified (bundle : Bundle) (options : Options) (entry : RunEntry)
      (report : RunReport) : Type 0 where
    pub records : List Record
    pub present : lookup entry.run_id bundle.runs ≡ some records
    pub accepted :
        verify_run lib options records bundle.delegations (expected_hash entry) ≡ ok report
    pub counted : report.record_count ≡ entry.record_count
    pub tip : report.last_hash ≡ entry.last_hash
    pub from_seq : report.first_seq ≡ entry.first_seq
    pub whole : report.complete ≡ entry.complete
    pub alg : first_alg lib records ≡ ok bundle.manifest.protected.hash_alg

  -- The runs of the manifest with their reports, one by one.
  abbrev pub AllVerified : Bundle → Options → List RunEntry → List RunReport → Type 0
  AllVerified bundle options [] [] = Unit
  AllVerified bundle options (entry ∷ entries) (report ∷ reports) =
      IsVerified bundle options entry report × AllVerified bundle options entries reports
  AllVerified bundle options _ _ = ⊥

  bool_eq-true : (a b : Bool) → bool_eq lib a b ≡ true → a ≡ b
  bool_eq-true a b h = ground arith

  check_entry_sound :
      (entry : RunEntry) (report : RunReport) (run_alg manifest_alg : String)
      → check_entry lib entry report run_alg manifest_alg ≡ ok tt
      → (report.record_count ≡ entry.record_count)
        × (report.last_hash ≡ entry.last_hash)
        × (report.first_seq ≡ entry.first_seq)
        × (report.complete ≡ entry.complete)
        × (run_alg ≡ manifest_alg)
  unfolding check_entry
  check_entry_sound entry report run_alg manifest_alg h = ground (
    arith,
    eq_iff report.last_hash entry.last_hash,
    eq_iff run_alg manifest_alg,
    bool_eq-true report.complete entry.complete,
  )

  pub verify_entry-IsVerified :
      (bundle : Bundle) (options : Options) (entry : RunEntry) (report : RunReport)
      → verify_entry lib bundle options entry ≡ ok report
      → IsVerified bundle options entry report
  unfolding verify_entry
  verify_entry-IsVerified bundle options entry report h =
      let (records, a, h1) = >>=-eq-ok (or_raise (lookup entry.run_id bundle.runs) _) _ h in
      let (r, b, h2) =
        >>=-eq-ok (verify_run lib options records bundle.delegations (expected_hash entry)) _ h1 in
      let (run_alg, c, h3) = >>=-eq-ok (first_alg lib records) _ h2 in
      let (h4, d) =
        >>-eq-ok (check_entry lib entry r run_alg bundle.manifest.protected.hash_alg) _ h3 in
      let (n, t, f, w, g) =
        check_entry_sound entry r run_alg bundle.manifest.protected.hash_alg d in
      subst (λ (x : RunReport). IsVerified bundle options entry x) (ok-injective h4)
        (record {
          records = records;
          present = or_raise-eq-ok _ _ a;
          accepted = b;
          counted = n;
          tip = t;
          from_seq = f;
          whole = w;
          alg = c ∙ ap (λ (x : String). ok x) g;
        })

  verify_entries-AllVerified :
      (bundle : Bundle) (options : Options) (entries : List RunEntry) (reports : List RunReport)
      → verify_entries lib bundle options entries ≡ ok reports
      → AllVerified bundle options entries reports
  unfolding verify_entries
  verify_entries-AllVerified bundle options [] reports h =
      subst (λ (x : List RunReport). AllVerified bundle options [] x) (ok-injective h) tt
  verify_entries-AllVerified bundle options (entry ∷ entries) reports h =
      let (report, a, h1) = >>=-eq-ok (verify_entry lib bundle options entry) _ h in
      let (rest, b, h2) = >>=-eq-ok (verify_entries lib bundle options entries) _ h1 in
      subst (λ (x : List RunReport). AllVerified bundle options (entry ∷ entries) x)
        (ok-injective h2)
        (
          verify_entry-IsVerified bundle options entry report a,
          verify_entries-AllVerified bundle options entries rest b,
        )

  -- A delegation that was issued by the principal and passes the checks of SPEC 6.3.
  abbrev pub Issued : String → List Delegation → Type 0
  Issued principal_id [] = Unit
  Issued principal_id (d ∷ ds) =
      ((verify_delegation lib d ≡ ok none) × (d.protected.principal_id ≡ principal_id))
      × Issued principal_id ds

  check_delegations-Issued :
      (ds : List Delegation) (principal_id : String)
      → check_delegations lib ds principal_id ≡ ok tt
      → Issued principal_id ds
  unfolding check_delegations
  check_delegations-Issued [] principal_id h = tt
  check_delegations-Issued (d ∷ ds) principal_id h =
      let (problem, a, h1) = >>=-eq-ok (verify_delegation lib d) _ h in
      let (h2, b) = >>-eq-ok (refuse_if _ _ _) _ h1 in
      let (h3, c) = >>-eq-ok (refuse_if _ _ _) _ h2 in
      (
        (
          a ∙ ap (λ (o : Option String). ok o) (not_some problem (raise_if-eq-ok _ _ b)),
          (eq_iff d.protected.principal_id principal_id).0 (not-false _ (raise_if-eq-ok _ _ c)),
        ),
        check_delegations-Issued ds principal_id h3,
      )

  -- What `check_manifest` lets through.
  pub record IsGenuine (bundle : Bundle) (trusted : Option (List String)) : Type 0 where
    pub hashed : check_hash lib lib.canonical_manifest (λ m. m.hash_alg) bundle.manifest ≡ true
    pub issued : Issued bundle.manifest.protected.principal_id (dict_values bundle.delegations)
    pub among : is_trusted bundle.manifest.protected.principal_id trusted ≡ true
    pub exporter : Delegation
    pub found : find_delegation bundle bundle.manifest.protected.exporter_agent_id ≡ some exporter
    pub agent_keys : Dict String
    pub keys : keyset_from_json exporter.protected.agent_keys ≡ ok agent_keys
    pub signed : check_signatures lib bundle.manifest domain_manifest agent_keys ≡ true

  check_manifest-IsGenuine :
      (bundle : Bundle) (trusted : Option (List String))
      → check_manifest lib bundle trusted ≡ ok tt
      → IsGenuine bundle trusted
  unfolding check_manifest
  check_manifest-IsGenuine bundle trusted h =
      let (h1, a) = >>-eq-ok (refuse_if _ _ _) _ h in
      let (h2, b) =
        >>-eq-ok
          (check_delegations lib (dict_values bundle.delegations)
            bundle.manifest.protected.principal_id)
          _ h1 in
      let (h3, c) = >>-eq-ok (refuse_if _ _ _) _ h2 in
      let (exporter, d, h4) =
        >>=-eq-ok (or_raise (find_delegation bundle bundle.manifest.protected.exporter_agent_id) _)
          _ h3 in
      let (agent_keys, e, h5) = >>=-eq-ok (keyset_from_json exporter.protected.agent_keys) _ h4 in
      let (h6, f) =
        >>-eq-ok
          (refuse_if (not (check_signatures lib bundle.manifest domain_manifest agent_keys))
            "manifest" "exporter signature invalid")
          _ h5 in
      record {
        hashed = not-false _ (raise_if-eq-ok _ _ a);
        issued =
            check_delegations-Issued (dict_values bundle.delegations)
              bundle.manifest.protected.principal_id b;
        among = trust_of bundle.manifest.protected.principal_id trusted (raise_if-eq-ok _ _ c);
        exporter = exporter;
        found = or_raise-eq-ok _ _ d;
        agent_keys = agent_keys;
        keys = e;
        signed = not-false _ (raise_if-eq-ok _ _ f);
      }

  -- What an accepted bundle went through.
  pub record IsAccepted (bundle : Bundle) (trusted : Option (List String)) (options : Options)
      (report : BundleReport) : Type 0 where
    genuine : IsGenuine bundle trusted
    verified :
        AllVerified bundle
          (run_options lib bundle options)
          bundle.manifest.protected.runs
          report.runs
    principal : report.principal_id ≡ bundle.manifest.protected.principal_id
    trust : report.principal_trusted ≡ is_some trusted
    pub seen : List String
    pub distinct : check_record_ids bundle.runs bundle.manifest.protected.runs [] ≡ ok seen

  pub verify_bundle-IsAccepted :
      (bundle : Bundle) (trusted : Option (List String)) (options : Options) (report : BundleReport)
      → verify_bundle lib bundle trusted options ≡ ok report
      → IsAccepted bundle trusted options report
  unfolding verify_bundle
  verify_bundle-IsAccepted bundle trusted options report h =
      let (h1, a) = >>-eq-ok (check_manifest lib bundle trusted) _ h in
      let (h2, b) = >>-eq-ok (check_lists lib bundle) _ h1 in
      let (reports, c, h3) =
        >>=-eq-ok
          (verify_entries lib bundle (run_options lib bundle options)
            bundle.manifest.protected.runs)
          _ h2 in
      let (seen, d, h4) =
        >>=-eq-ok (check_record_ids bundle.runs bundle.manifest.protected.runs []) _ h3 in
      let (h5, e) = >>-eq-ok (check_anchor_files bundle) _ h4 in
      let (unresolved, f, h6) =
        >>=-eq-ok (check_parent_links lib bundle.runs bundle.delegations) _ h5 in
      subst (λ (x : BundleReport). IsAccepted bundle trusted options x) (ok-injective h6)
        (record {
          genuine = check_manifest-IsGenuine bundle trusted a;
          verified =
              verify_entries-AllVerified bundle (run_options lib bundle options)
                bundle.manifest.protected.runs reports c;
          principal = refl;
          trust = refl;
          seen = seen;
          distinct = d;
        })

  -- Each run that the manifest of an accepted bundle lists is among the bundle's runs and is
  -- accepted by `verify_run`, from the hash that the entry names where it starts above seq 0 and
  -- from the zero hash otherwise. It has the record count, last hash, first seq and completeness of
  -- its entry, and the hash algorithm of the manifest; the report lists the reports of these runs
  -- in the manifest's order. The entry's own algorithm is not compared, nor its first hash at seq 0.
  pub verify_bundle-AllVerified :
      (bundle : Bundle) (trusted : Option (List String)) (options : Options) (report : BundleReport)
      → verify_bundle lib bundle trusted options ≡ ok report
      → AllVerified bundle
          (run_options lib bundle options)
          bundle.manifest.protected.runs
          report.runs
  verify_bundle-AllVerified bundle trusted options report h =
      let a = verify_bundle-IsAccepted bundle trusted options report h in a.verified

  -- The manifest of an accepted bundle has its recomputed hash, and is signed by the agent keys of
  -- a delegation of the bundle; every delegation of the bundle passes `verify_delegation` and is
  -- of the manifest's principal, which is in the trusted set where one is given; the report names
  -- this principal, and calls it trusted exactly where a set is given.
  pub verify_bundle-IsGenuine :
      (bundle : Bundle) (trusted : Option (List String)) (options : Options) (report : BundleReport)
      → verify_bundle lib bundle trusted options ≡ ok report
      → IsGenuine bundle trusted
        × (report.principal_id ≡ bundle.manifest.protected.principal_id)
        × (report.principal_trusted ≡ is_some trusted)
  verify_bundle-IsGenuine bundle trusted options report h =
      let a = verify_bundle-IsAccepted bundle trusted options report h in
      (a.genuine, a.principal, a.trust)
