-- ===== src/Bundle/Archive/Intact.antt =====
-- bundle.py: an archive that `read_bundle` accepts.
use sealedrun.Prelude.{
  ℕ, ◌+◌, ◌≤◌, String, ◌==◌, ◌≡◌, refl, sym, ◌∙◌, subst, Bool, true, ◌||◌, not, inl, inr, some,
  false, any, List, [], ◌∷◌, elem, filter, length, map, is_nil, ltb, Dict, dict_keys, arith, eq_iff,
  Bool-cases,
}
use sealedrun.Result.{
  Exc, verification, value_error, key_error, live_run, invalid_record, body_too_large, type_error,
  runtime_error, export_error, Result, ok, err, raise_if, or_raise, >>=-eq-ok, >>-eq-ok,
  raise_if-eq-ok, or_raise-eq-ok, ok-injective,
}
use sealedrun.Model.{Bytes, Manifest}
use sealedrun.Library.{Library}
use sealedrun.Hashing.{payload_digest}
use sealedrun.Bundle.{Bundle, refuse_if}
use sealedrun.Bundle.Archive.{
  Archive, Codec, manifest_name, max_manifest_bytes, as_malformed, min_of, claimed, sum_of,
  files_of, names_of, max_entries, distinct_names, check_claims, check_listing, read_entry,
  place_file, read_files, read_archive, read_bundle,
}
use sealedrun.Bundle.Archive.Kept.{AllDigested, IsKept, place_file-IsKept}

as_malformed-eq-ok : {A : Type 0} (r : Result A) {a : A} → as_malformed r ≡ ok a → r ≡ ok a
as_malformed-eq-ok (ok b) h = h
as_malformed-eq-ok (err (verification c m r s)) h = absurd (cc h)
as_malformed-eq-ok (err (value_error m)) h = absurd (cc h)
as_malformed-eq-ok (err (key_error m)) h = absurd (cc h)
as_malformed-eq-ok (err (live_run m)) h = absurd (cc h)
as_malformed-eq-ok (err (invalid_record m)) h = absurd (cc h)
as_malformed-eq-ok (err (body_too_large m)) h = absurd (cc h)
as_malformed-eq-ok (err (type_error m)) h = absurd (cc h)
as_malformed-eq-ok (err (runtime_error m)) h = absurd (cc h)
as_malformed-eq-ok (err (export_error n m)) h = absurd (cc h)

not-eq_false : (b : Bool) → not b ≡ false → b ≡ true
not-eq_false b h = ground arith

not_above : (limit n : ℕ) (e : Exc) → raise_if (ltb limit n) e ≡ ok tt → n ≤ limit
not_above limit n e h = let r = raise_if-eq-ok (ltb limit n) e h in ground arith

filter-nil :
    (p : String → Bool) (xs : List String) (x : String)
    → is_nil (filter (λ y. not (p y)) xs) ≡ true
    → elem x xs ≡ true
    → p x ≡ true
filter-nil p [] x h k = absurd (cc k)
filter-nil p (y ∷ ys) x h k = elim (Bool-cases (y == x)) [
  | inl e ↦ subst (λ (z : String). p z ≡ true) ((eq_iff y x).0 e) (ground (arith, h))
  | inr e ↦ filter-nil p ys x (ground (arith, h)) (ground (arith, k, e))
]

read_entry_lem :
    (archive : Archive) (name : String) (limit : ℕ) (content : Bytes)
    → read_entry archive name limit ≡ ok content
    → (archive.read name (limit + 1) ≡ ok content) × (length content ≤ limit)
unfolding read_entry
read_entry_lem archive name limit content h =
    let (c, a, h1) = >>=-eq-ok (archive.read name (limit + 1)) _ h in
    let (h2, b) = >>-eq-ok (refuse_if (ltb limit (length c)) _ _) _ h1 in
    let r = raise_if-eq-ok (ltb limit (length c)) _ b in
    subst (λ (x : Bytes). (archive.read name (limit + 1) ≡ ok x) × (length x ≤ limit))
      (ok-injective h2) (a, ground arith)

module _ (lib : Library) (codec : Codec) where
  -- A listed file as the archive holds it.
  pub record IsPresent (archive : Archive) (limit : ℕ) (hash_alg path expected : String)
      : Type 0 where
    pub content : Bytes
    pub read : archive.read path (limit + 1) ≡ ok content
    pub bounded : length content ≤ limit
    pub digested : payload_digest lib hash_alg content ≡ ok expected

  abbrev pub AllPresent : Archive → ℕ → String → Dict String → Type 0
  AllPresent archive limit hash_alg [] = Unit
  AllPresent archive limit hash_alg ((path, expected) ∷ files) =
      IsPresent archive limit hash_alg path expected × AllPresent archive limit hash_alg files

  read_files_lem :
      (archive : Archive) (limit : ℕ) (hash_alg : String) (files : Dict String)
      (bundle whole : Bundle)
      → read_files lib codec archive limit hash_alg files bundle ≡ ok whole
      → AllPresent archive limit hash_alg files × IsKept lib bundle whole hash_alg
  unfolding read_files
  read_files_lem archive limit hash_alg [] bundle whole h =
      (tt, subst (λ (x : Bundle). IsKept lib bundle x hash_alg) (ok-injective h) (refl, λ d. d))
  read_files_lem archive limit hash_alg ((path, expected) ∷ files) bundle whole h =
      let (content, a, h1) = >>=-eq-ok (read_entry archive path limit) _ h in
      let (digest, b, h2) = >>=-eq-ok (payload_digest lib hash_alg content) _ h1 in
      let (h3, c) = >>-eq-ok (refuse_if (not (digest == expected)) _ _) _ h2 in
      let (placed, d, h4) = >>=-eq-ok (place_file lib codec hash_alg path content bundle) _ h3 in
      let (present, (same, kept)) = read_files_lem archive limit hash_alg files placed whole h4 in
      let (same', kept') = place_file-IsKept lib codec hash_alg path content bundle placed d in
      let (at, bounded) = read_entry_lem archive path limit content a in
      let r = raise_if-eq-ok (not (digest == expected)) _ c in
      let e : digest ≡ expected = (eq_iff digest expected).0 (ground arith) in
      let first : IsPresent archive limit hash_alg path expected = record {
        content = content;
        read = at;
        bounded = bounded;
        digested = subst (λ (x : String). payload_digest lib hash_alg content ≡ ok x) e b;
      } in
      ((first, present), (same ∙ same', λ k. kept (kept' k)))

  -- What the directory of the archive claims.
  pub record IsClaimed (archive : Archive) (entry_limit total_limit : ℕ) : Type 0 where
    pub entries : length (files_of archive) ≤ max_entries
    pub distinct : distinct_names (names_of archive) ≡ true
    pub apart : sum_of (map (λ i. i.compress_size) (files_of archive)) ≤ archive.size
    pub each : any (λ i. ltb entry_limit (claimed i)) (files_of archive) ≡ false
    pub within : sum_of (map claimed (files_of archive)) ≤ total_limit
    pub held : elem manifest_name (names_of archive) ≡ true

  -- The files of the archive and those that the manifest lists are the same, beside the manifest.
  pub record IsListing (names listed : List String) : Type 0 where
    pub only :
        (name : String)
        → elem name names ≡ true
        → (elem name listed || name == manifest_name) ≡ true
    pub all : (path : String) → elem path listed ≡ true → elem path names ≡ true

  -- What `read_bundle` found in the archive.
  pub record IsIntact (archive : Archive) (entry_limit total_limit : ℕ) (manifest : Manifest)
      (payloads : Dict Bytes) : Type 0 where
    pub file : Bytes
    pub read : archive.read manifest_name (min_of entry_limit max_manifest_bytes + 1) ≡ ok file
    pub parsed : codec.json_manifest file ≡ some manifest
    pub bounded : length file ≤ min_of entry_limit max_manifest_bytes
    pub claims : IsClaimed archive entry_limit total_limit
    pub listed : IsListing (names_of archive) (dict_keys manifest.protected.files)
    pub present :
        AllPresent archive entry_limit manifest.protected.hash_alg manifest.protected.files
    pub bodies : AllDigested lib manifest.protected.hash_alg payloads

  check_claims-IsClaimed :
      (archive : Archive) (entry_limit total_limit : ℕ)
      → check_claims archive entry_limit total_limit ≡ ok tt
      → IsClaimed archive entry_limit total_limit
  unfolding check_claims
  check_claims-IsClaimed archive entry_limit total_limit h =
      let files = files_of archive in
      let (h1, a) = >>-eq-ok (refuse_if _ "bundle" "too many entries") _ h in
      let (h2, b) = >>-eq-ok (refuse_if _ "bundle" "duplicate entry names") _ h1 in
      let (h3, c) = >>-eq-ok (refuse_if _ "bundle" "entries overlap or exceed the archive") _ h2 in
      let (h4, d) = >>-eq-ok (refuse_if _ "bundle" "entry exceeds size limit") _ h3 in
      let (e, f) = >>-eq-ok (refuse_if _ "bundle" "archive exceeds uncompressed size limit") _ h4 in
      record {
        entries = not_above max_entries (length files) _ a;
        distinct = not-eq_false _ (raise_if-eq-ok _ _ b);
        apart = not_above archive.size (sum_of (map (λ i. i.compress_size) files)) _ c;
        each = raise_if-eq-ok _ _ d;
        within = not_above total_limit (sum_of (map claimed files)) _ f;
        held = not-eq_false _ (raise_if-eq-ok _ _ e);
      }

  check_listing-IsListing :
      (names listed : List String) → check_listing names listed ≡ ok tt → IsListing names listed
  unfolding check_listing
  check_listing-IsListing names listed h =
      let (b, a) = >>-eq-ok (refuse_if _ "bundle" "files not in manifest") _ h in
      record {
        only = λ name k.
            filter-nil (λ n. elem n listed || n == manifest_name) names name
              (not-eq_false _ (raise_if-eq-ok _ _ a)) k;
        all = λ path k.
            filter-nil (λ p. elem p names) listed path (not-eq_false _ (raise_if-eq-ok _ _ b)) k;
      }

  read_archive-IsIntact :
      (archive : Archive) (entry_limit total_limit : ℕ) (bundle : Bundle)
      → read_archive lib codec archive entry_limit total_limit ≡ ok bundle
      → IsIntact archive entry_limit total_limit bundle.manifest bundle.payloads
  unfolding read_archive
  read_archive-IsIntact archive entry_limit total_limit bundle h =
      let (h1, a) = >>-eq-ok (check_claims archive entry_limit total_limit) _ h in
      let (head, b, h2) =
        >>=-eq-ok (read_entry archive manifest_name (min_of entry_limit max_manifest_bytes)) _ h1 in
      let (manifest, c, h3) = >>=-eq-ok (or_raise (codec.json_manifest head) _) _ h2 in
      let (h4, d) = >>-eq-ok (refuse_if (not (is_nil (codec.manifest_errors manifest))) _ _) _ h3 in
      let (h5, e) =
        >>-eq-ok (check_listing (names_of archive) (dict_keys manifest.protected.files)) _ h4 in
      let (present, (same, kept)) =
        read_files_lem archive entry_limit manifest.protected.hash_alg manifest.protected.files _
          bundle h5 in
      let nothing_yet : AllDigested lib manifest.protected.hash_alg [] =
        λ digest body k. absurd (cc k) in
      let (at, bounded) =
        read_entry_lem archive manifest_name (min_of entry_limit max_manifest_bytes) head b in
      subst (λ (m : Manifest). IsIntact archive entry_limit total_limit m bundle.payloads)
        (sym same)
        (record {
          file = head;
          read = at;
          parsed = or_raise-eq-ok (codec.json_manifest head) _ c;
          bounded = bounded;
          claims = check_claims-IsClaimed archive entry_limit total_limit a;
          listed =
              check_listing-IsListing (names_of archive) (dict_keys manifest.protected.files) e;
          present = present;
          bodies = kept nothing_yet;
        })

  -- An archive that `read_bundle` accepts: the manifest is its `manifest.json`, of no more bytes
  -- than the limits. The archive claims at most MAX_ENTRIES files of distinct names, whose packed
  -- sizes fit into it, each of a size within the limit of one file and together within the total
  -- limit. Every file but the manifest is listed and every listed file is among the names; each
  -- of these reads within the limit of one file, with the digest that the manifest names; and each
  -- payload body stands under its digest.
  pub read_bundle-IsIntact :
      (source : Bytes) (entry_limit total_limit : ℕ) (bundle : Bundle)
      → read_bundle lib codec source entry_limit total_limit ≡ ok bundle
      → (archive : Archive) × ((codec.open_zip source ≡ some archive)
          × IsIntact archive entry_limit total_limit bundle.manifest bundle.payloads)
  unfolding read_bundle
  read_bundle-IsIntact source entry_limit total_limit bundle h =
      let (h1, a) = >>-eq-ok (refuse_if (not (codec.is_zipfile source)) _ _) _ h in
      let (archive, b, h2) =
        >>=-eq-ok (or_raise (codec.open_zip source) _) _ (as_malformed-eq-ok _ h1) in
      (
        archive,
        (
          or_raise-eq-ok (codec.open_zip source) _ b,
          read_archive-IsIntact archive entry_limit total_limit bundle h2,
        ),
      )
