-- ===== src/Recorder/Steps/Marked.antt =====
-- steps.py: what a step that is accepted says of itself.
use sealedrun.Prelude.{
  String, ◌==◌, ◌≡◌, refl, sym, ◌∙◌, subst, Bool, true, false, ◌&&◌, not, inl, inr, Option, none,
  some, List, [], ◌∷◌, any, elem, is_nil, is_some, opt_eq-true, Dict, lookup, dict_keys,
  lookup-insert, elem-apart, Bool-cases, all, arith,
}
use sealedrun.Result.{
  Exc, ok, raise_if, or_raise, ◌>>=◌, >>=-eq-ok, >>-eq-ok, raise_if-eq-ok, ok-injective,
}
use sealedrun.Model.{Bytes}
use sealedrun.Json
use sealedrun.Json.{Json, Fields}
use sealedrun.Recorder.Steps.{
  Posted, Checker, self_reported_kinds, outcomes, reserved_extensions, step_label_sources,
  target_limits, source_of, is_among, labels_sourced, check_labels, check_receipt_source,
  own_marker, mark_self_reported, too_long, check_def, check_base64, check_step, parse_step,
  body_of, bodies_of,
}

any-lookup :
    {V : Type 0} (listed : List String) (key : String) (d : Dict V)
    → any (λ k. elem k listed) (dict_keys d) ≡ false
    → elem key listed ≡ true
    → lookup key d ≡ none
any-lookup listed key [] h k = refl
any-lookup listed key ((j, v) ∷ d) h k =
    ground (arith, elem-apart key j listed k, any-lookup listed key d, h, k)

labels_sourced-elem :
    (labels : Fields) (label : String) (provenance : Json)
    → labels_sourced labels ≡ true
    → Json.field_of label labels ≡ some provenance
    → is_among step_label_sources (source_of provenance) ≡ true
labels_sourced-elem Json.no_fields label provenance h k = absurd (cc k)
labels_sourced-elem (Json.field other value rest) label provenance h k =
    elim (Bool-cases (other == label)) [
      | inl e ↦
          let same : value ≡ provenance = ground (arith, k, e) in
          subst (λ (x : Json). is_among step_label_sources (source_of x) ≡ true) same
            (ground (arith, h))
      | inr e ↦ labels_sourced-elem rest label provenance (ground (arith, h)) (ground (arith, k, e))
    ]

-- What the extensions of an accepted step say of its source.
pub record IsMarked (extensions : Dict Json) : Type 0 where
  pub own : Fields
  pub stands : lookup "sealedrun.step" extensions ≡ some (Json.object own)
  pub says : Json.field_of "source" own ≡ some (Json.text "self_reported")
  pub unreserved :
      (key : String) → elem key reserved_extensions ≡ true → lookup key extensions ≡ none
  pub labels :
      (fields : Fields) (label : String) (provenance : Json)
      → lookup "sealedrun.labels" extensions ≡ some (Json.object fields)
      → Json.field_of label fields ≡ some provenance
      → is_among step_label_sources (source_of provenance) ≡ true
  pub receipt :
      (fields : Fields)
      → lookup "sealedrun.receipt" extensions ≡ some (Json.object fields)
      → Json.given_text (Json.field_of "observed_by" fields) ≡ some "self_reported"

not-false : (b : Bool) (e : Exc) → raise_if (not b) e ≡ ok tt → b ≡ true
not-false true e h = refl
not-false false e h = absurd (cc h)

mark_self_reported-IsMarked :
    (extensions marked : Dict Json) → mark_self_reported extensions ≡ ok marked → IsMarked marked
unfolding mark_self_reported
mark_self_reported-IsMarked extensions marked h =
    let (h1, a) =
      >>-eq-ok (raise_if (any (λ k. elem k reserved_extensions) (dict_keys extensions)) _) _ h in
    let (h2, b) = >>-eq-ok (check_labels (lookup "sealedrun.labels" extensions)) _ h1 in
    let (h3, c) = >>-eq-ok (check_receipt_source (lookup "sealedrun.receipt" extensions)) _ h2 in
    let own =
      Json.set_field "source" (Json.text "self_reported")
        (own_marker (lookup "sealedrun.step" extensions)) in
    let clean = raise_if-eq-ok (any (λ k. elem k reserved_extensions) (dict_keys extensions)) _ a in
    subst (λ (x : Dict Json). IsMarked x) (ok-injective h3)
      (record {
        own = own;
        stands = lookup-insert "sealedrun.step" "sealedrun.step" (Json.object own) extensions;
        says =
            Json.field_of-set_field "source" (Json.text "self_reported")
              (own_marker (lookup "sealedrun.step" extensions));
        unreserved = λ key listed.
            let apart = elem-apart key "sealedrun.step" reserved_extensions listed refl in
            let absent = any-lookup reserved_extensions key extensions clean listed in
            ground (
              arith,
              lookup-insert "sealedrun.step" key (Json.object own) extensions,
              apart,
              absent,
            );
        labels = λ fields label provenance l k.
            let before =
              sym (lookup-insert "sealedrun.step" "sealedrun.labels" (Json.object own) extensions)
              ∙ l in
            let checked = subst (λ (o : Option Json). check_labels o ≡ ok tt) before b in
            labels_sourced-elem fields label provenance
              (not-false (labels_sourced fields) _ checked) k;
        receipt = λ fields l.
            let before =
              sym (lookup-insert "sealedrun.step" "sealedrun.receipt" (Json.object own) extensions)
              ∙ l in
            let checked = subst (λ (o : Option Json). check_receipt_source o ≡ ok tt) before c in
            opt_eq-true (Json.given_text (Json.field_of "observed_by" fields))
              (some "self_reported") (not-false _ _ checked);
      })

decoded :
    (o : Option Bytes) (e raised : Exc)
    → raise_if (not (is_some o)) e ≡ ok tt
    → (body : Option Bytes) × ((or_raise o raised >>= λ b. ok (some b)) ≡ ok body)
decoded none e raised h = absurd (cc h)
decoded (some b) e raised h = (some b, refl)

module _ (checker : Checker) where
  -- What `parse_step` lets through.
  pub record IsChecked (step : Posted) : Type 0 where
    pub known : elem step.kind self_reported_kinds ≡ true
    pub ended : elem step.outcome outcomes ≡ true
    pub marked : IsMarked step.extensions
    pub valid : is_nil (checker.extension_errors step.extensions) ≡ true
    pub request : check_base64 checker step.request_base64 ≡ ok tt
    pub response : check_base64 checker step.response_base64 ≡ ok tt

  check_step-IsChecked :
      (posted step : Posted) → check_step checker posted ≡ ok step → IsChecked step
  unfolding check_step
  check_step-IsChecked posted step h =
      let (h1, a) = >>-eq-ok (raise_if (not (elem posted.kind self_reported_kinds)) _) _ h in
      let (h2, b) = >>-eq-ok (raise_if (not (elem posted.outcome outcomes)) _) _ h1 in
      let (h3, c) = >>-eq-ok (raise_if (too_long checker posted.target target_limits) _) _ h2 in
      let (h4, d) = >>-eq-ok (check_def checker "target" (some posted.target)) _ h3 in
      let (h5, e) = >>-eq-ok (check_def checker "policy" posted.policy) _ h4 in
      let (h6, f) =
        >>-eq-ok (raise_if (not (all (λ label. not (label == "")) posted.data_labels)) _) _ h5 in
      let (extensions, g, h7) = >>=-eq-ok (mark_self_reported posted.extensions) _ h6 in
      let (h8, i) =
        >>-eq-ok (raise_if (not (is_nil (checker.extension_errors extensions))) _) _ h7 in
      let (h9, j) =
        >>-eq-ok (raise_if (is_some posted.request && is_some posted.request_base64) _) _ h8 in
      let (h10, k) =
        >>-eq-ok (raise_if (is_some posted.response && is_some posted.response_base64) _) _ h9 in
      let (h11, l) = >>-eq-ok (check_base64 checker posted.request_base64) _ h10 in
      let (h12, m) = >>-eq-ok (check_base64 checker posted.response_base64) _ h11 in
      subst (λ (x : Posted). IsChecked x) (ok-injective h12)
        (record {
          known = not-false (elem posted.kind self_reported_kinds) _ a;
          ended = not-false (elem posted.outcome outcomes) _ b;
          marked = mark_self_reported-IsMarked posted.extensions extensions g;
          valid = not-false (is_nil (checker.extension_errors extensions)) _ i;
          request = l;
          response = m;
        })

  parse_step-IsChecked :
      (body : Bytes) (step : Posted) → parse_step checker body ≡ ok step → IsChecked step
  unfolding parse_step
  parse_step-IsChecked body step h =
      let (value, a, h1) = >>=-eq-ok (or_raise (checker.loads body) _) _ h in
      let (fields, b, h2) = >>=-eq-ok (or_raise (Json.as_object value) _) _ h1 in
      let (posted, c, h3) = >>=-eq-ok (or_raise (checker.model_validate fields) _) _ h2 in
      check_step-IsChecked posted step h3

  -- A posted step that is accepted is marked as self-reported, carries none of the extensions that
  -- only the recorder writes, names `manual` or `header` as the source of each label it explains,
  -- and calls its receipt self-reported where it has one.
  pub parse_step-IsMarked :
      (body : Bytes) (step : Posted) → parse_step checker body ≡ ok step → IsMarked step.extensions
  parse_step-IsMarked body step h = let c = parse_step-IsChecked body step h in c.marked

  body_of-total :
      (text encoded : Option String)
      → check_base64 checker encoded ≡ ok tt
      → (body : Option Bytes) × (body_of checker text encoded ≡ ok body)
  unfolding check_base64 body_of
  body_of-total (some s) encoded h = (some (checker.encode s), refl)
  body_of-total none none h = (none, refl)
  body_of-total none (some encoded) h = decoded (checker.b64decode encoded) _ _ h

  -- The bodies of a posted step that is accepted can be read: no base64 text fails to decode when
  -- the step is stored.
  pub parse_step-bodies_of :
      (body : Bytes) (step : Posted)
      → parse_step checker body ≡ ok step
      → (bodies : Option Bytes × Option Bytes) × (bodies_of checker step ≡ ok bodies)
  unfolding bodies_of
  parse_step-bodies_of body step h =
      let c = parse_step-IsChecked body step h in
      let (request, a) = body_of-total step.request step.request_base64 c.request in
      let (response, b) = body_of-total step.response step.response_base64 c.response in
      ((request, response), rw (bodies_of, a, b))
