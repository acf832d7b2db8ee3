-- ===== src/Recorder/Anchoring/Written.antt =====
-- anchoring.py: the records of a cycle.
use sealedrun.Prelude.{
  ℕ, String, ◌==◌, ◌≡◌, ◌⊎◌, refl, sym, ap, ◌∙◌, subst, Bool, true, false, ◌&&◌, not, inl, inr,
  Option, none, some, List, [], ◌∷◌, ◌++◌, is_nil, nat_eq, if_cases, if◌then◌else◌, eq_iff,
}
use sealedrun.Result.{
  value_error, key_error, live_run, invalid_record, verification, body_too_large, type_error,
  runtime_error, export_error, Result, ok, err, raise_if, >>=-eq-ok, >>-eq-ok, ok-injective,
  Result-cases, Exc,
}
use sealedrun.Model.{Doc, Record, Extensions, no_extensions, extensions_of, Anchor, WitnessReceipt}
use sealedrun.Library.{Library}
use sealedrun.Writer.{Writer, Fields, preview, kept_extensions}
use sealedrun.Writer.Revert.{seal_doc-IsStep}
use sealedrun.Recorder.Live.{
  LiveRuns, Step, append, append_with, seal_step, settle, store_step, writer_of, head, check_target,
  step_payload, with_prompt, with_receipt,
}
use sealedrun.Recorder.Live.Atomic.{
  seal_step-IsOpenStep, settle_stored, as_live-eq-ok, first, second,
}
use sealedrun.Recorder.Live.Rows.{Grown, append-Grown, head_db}
use sealedrun.Recorder.Store.{record_row}
use sealedrun.Recorder.Anchoring.{
  AnchorStatus, no_records, Anchoring, Witnesses, Turn, Head, State, anchor_step, as_written,
  or_host, write, stamp_with, publish_with, log_part, behind, both_parts, anchor_head, anchor_run,
  enabled, timestamp_any, publish,
}

-- An anchor record over a head.
pub record IsAnchorOf (at : Head) (entry : Record) : Type 0 where
  pub kind : entry.protected.kind ≡ "anchor"
  pub anchor : Anchor
  pub stands : (extensions_of entry.protected).anchor ≡ some anchor
  pub hash : anchor.anchored_hash ≡ at.1
  pub seq : anchor.anchored_seq ≡ at.0

-- What asking one witness left, from the state that it found: nothing, or an anchor of the head and
-- that record's row behind the others.
abbrev pub Adds : Head → LiveRuns → Result (List Record) → LiveRuns → Type 0
Adds at live (ok []) after = after.db ≡ live.db
Adds at live (ok (entry ∷ [])) after =
    IsAnchorOf at entry × (after.db.records ≡ live.db.records ++ record_row entry ∷ [])
Adds at live (ok (entry ∷ more ∷ entries)) after = ⊥
Adds at live (err e) after = after.db ≡ live.db

-- The state that a witness finds: that of the other tasks, where the witness is asked.
abbrev pub found_by : Bool → Turn → LiveRuns → LiveRuns
found_by off turn live = if off then live else turn.before live

-- Where the witness is off, and where it is asked.
either_way-Adds :
    (at : Head) (turn : Turn) (live : LiveRuns) (off : Bool)
    (unasked asked : Result (List Record) × State)
    → Adds at live unasked.0 (unasked.1.0)
    → Adds at (turn.before live) asked.0 (asked.1.0)
    → Adds at
        (found_by off turn live)
        (if off then unasked else asked).0
        ((if off then unasked else asked).1.0)
either_way-Adds at turn live true unasked asked h k = h
either_way-Adds at turn live false unasked asked h k = k

no_records-Adds :
    (at : Head) (e : Exc) (live after : LiveRuns)
    → after.db ≡ live.db
    → Adds at live (no_records e) after
unfolding no_records
no_records-Adds at (live_run m) live after h = h
no_records-Adds at (verification c m r s) live after h = h
no_records-Adds at (value_error m) live after h = h
no_records-Adds at (key_error m) live after h = h
no_records-Adds at (invalid_record m) live after h = h
no_records-Adds at (body_too_large m) live after h = h
no_records-Adds at (type_error m) live after h = h
no_records-Adds at (runtime_error m) live after h = h
no_records-Adds at (export_error n m) live after h = h

no_records-nil : (e : Exc) {records : List Record} → no_records e ≡ ok records → records ≡ []
unfolding no_records
no_records-nil (live_run m) h = sym (ok-injective h)
no_records-nil (verification c m r s) h = absurd (cc h)
no_records-nil (value_error m) h = absurd (cc h)
no_records-nil (key_error m) h = absurd (cc h)
no_records-nil (invalid_record m) h = absurd (cc h)
no_records-nil (body_too_large m) h = absurd (cc h)
no_records-nil (type_error m) h = absurd (cc h)
no_records-nil (runtime_error m) h = absurd (cc h)
no_records-nil (export_error n m) h = absurd (cc h)

as_written-Adds :
    (at : Head) (live mid : LiveRuns) (answer : Result Record)
    → Grown live answer mid
    → ((entry : Record) → answer ≡ ok entry → IsAnchorOf at entry)
    → Adds at live (as_written (answer, mid)).0 (as_written (answer, mid)).1
unfolding as_written
as_written-Adds at live mid (ok entry) grown each = (each entry refl, grown)
as_written-Adds at live mid (err e) grown each = no_records-Adds at e live mid grown

module _ (lib : Library) where
  append_with-seal_step :
      (step : Step) (committed : Bool) (run_id : String) (found : Result Writer)
      (live live' : LiveRuns) (entry : Record)
      → append_with lib step committed run_id (found, live) ≡ (ok entry, live')
      → (w : Writer) × ((w' : Writer) × (seal_step lib w step ≡ ok (w', entry)))
  unfolding append_with
  append_with-seal_step step committed run_id (err e) live live' entry h = absurd (cc h)
  append_with-seal_step step committed run_id (ok w) live live' entry h =
      elim (Result-cases (seal_step lib w step)) [
        | inr (e, k) ↦
            let refused : append_with lib step committed run_id (ok w, live) ≡ (err e, live) =
              rw (append_with, k) in
            let same = h in absurd (cc (sym refused ∙ same))
        | inl ((w', sealed), k) ↦
            let settled : append_with lib step committed run_id (ok w, live)
                ≡ settle w' sealed "record not stored"
                    (store_step lib step run_id sealed w.hash_alg live.db) committed live =
              rw (append_with, k) in
            let given : append_with lib step committed run_id (ok w, live) ≡ (ok entry, live') =
              h in
            let (same, stored, writers) =
              settle_stored lib w w' sealed entry _ _ committed live live'
                (seal_step-IsOpenStep lib w w' step sealed k) (sym settled ∙ given) in
            (w, (w', k ∙ ap (λ (r : Record). ok (w', r)) (sym same)))
      ]

  append-seal_step :
      (step : Step) (committed : Bool) (run_id : String) (live live' : LiveRuns) (entry : Record)
      → append lib run_id step committed live ≡ (ok entry, live')
      → (w : Writer) × ((w' : Writer) × (seal_step lib w step ≡ ok (w', entry)))
  unfolding append
  append-seal_step step committed run_id live live' entry h =
      append_with-seal_step step committed run_id (writer_of run_id live).0
        (writer_of run_id live).1 live' entry h

  preview-anchor :
      (w : Writer) (fields : Fields) (a : Anchor) (doc : Doc)
      → fields.extensions ≡ some (record no_extensions { anchor = some a })
      → preview lib w "anchor" fields ≡ ok doc
      → (doc.kind ≡ "anchor") × ((extensions_of doc).anchor ≡ some a)
  unfolding preview kept_extensions
  preview-anchor w fields a doc e h =
      let (h1, b) = >>-eq-ok (raise_if w.closed (value_error "run is closed")) _ h in
      let (h2, c) = >>-eq-ok (raise_if (nat_eq w.seq 0 && not ("anchor" == "run_start")) _) _ h1 in
      subst (λ (x : Doc). (x.kind ≡ "anchor") × ((extensions_of x).anchor ≡ some a))
        (ok-injective h2)
        (
          refl,
          ap
              (λ (o : Option Extensions).
                let x : Extensions = elim o [ none ↦ no_extensions | some y ↦ y ] in x.anchor)
              (ap kept_extensions e),
        )

  seal_step-anchor :
      (w w' : Writer) (a : Anchor) (name url : String) (turn : Turn) (entry : Record)
      → seal_step lib w (anchor_step a name url turn) ≡ ok (w', entry)
      → (entry.protected.kind ≡ "anchor") × ((extensions_of entry.protected).anchor ≡ some a)
  unfolding seal_step step_payload with_prompt with_receipt anchor_step
  seal_step-anchor w w' a name url turn entry h =
      let (h1, b) = >>-eq-ok (check_target lib (anchor_step a name url turn).fields.target) _ h in
      let (doc, p, h2) = >>=-eq-ok (preview lib w "anchor" _) _ (as_live-eq-ok _ h1) in
      let (kind, anchor) = preview-anchor w _ a doc refl p in
      let s = seal_doc-IsStep lib w w' doc entry h2 in
      let same : entry.protected ≡ doc = s.sealed.same in
      subst (λ (x : Doc). (x.kind ≡ "anchor") × ((extensions_of x).anchor ≡ some a)) (sym same)
        (kind, anchor)

  module _ (witnesses : Witnesses) where
    write-Adds :
        (run_id type url : String) (at : Head) (receipt : WitnessReceipt) (turn : Turn)
        (live : LiveRuns)
        → Adds at live
            (write lib witnesses run_id type url at receipt turn live).0
            (write lib witnesses run_id type url at receipt turn live).1
    unfolding write
    write-Adds run_id type url (seq, anchored) receipt turn live =
        let a : Anchor = record {
          type = type;
          anchored_hash = anchored;
          anchored_seq = seq;
          receipt = receipt;
          witness = url;
        } in
        let step = anchor_step a (or_host (witnesses.hostname url) url) url turn in
        as_written-Adds (seq, anchored) live (append lib run_id step turn.committed live).1
          (append lib run_id step turn.committed live).0
          (append-Grown lib run_id step turn.committed live)
          (λ entry k.
            let (w, (w', s)) =
              append-seal_step step turn.committed run_id live
                (append lib run_id step turn.committed live).1 entry
                (ap (λ (r : Result Record). (r, (append lib run_id step turn.committed live).1))
                  k) in
            let (kind, stands) =
              seal_step-anchor w w' a (or_host (witnesses.hostname url) url) url turn entry s in
            record { kind = kind; anchor = a; stands = stands; hash = refl; seq = refl })

    stamp_with-Adds :
        (run_id : String) (at : Head) (turn : Turn) (o : Option (WitnessReceipt × String))
        (live : LiveRuns) (status : AnchorStatus)
        → Adds at
            (turn.before live)
            (stamp_with lib witnesses run_id at turn o (live, status)).0
            ((stamp_with lib witnesses run_id at turn o (live, status)).1.0)
    unfolding stamp_with
    stamp_with-Adds run_id at turn none live status = refl
    stamp_with-Adds run_id at turn (some (receipt, url)) live status =
        write-Adds run_id "rfc3161" url at receipt turn (turn.before live)

    publish_with-Adds :
        (run_id rekor : String) (at : Head) (turn : Turn) (o : Option WitnessReceipt)
        (live : LiveRuns) (status : AnchorStatus)
        → Adds at
            (turn.before live)
            (publish_with lib witnesses run_id rekor at turn o (live, status)).0
            ((publish_with lib witnesses run_id rekor at turn o (live, status)).1.0)
    unfolding publish_with
    publish_with-Adds run_id rekor at turn none live status = refl
    publish_with-Adds run_id rekor at turn (some receipt) live status =
        write-Adds run_id "rekor" rekor at receipt turn (turn.before live)

    log_part-Adds :
        (config : Anchoring) (run_id : String) (at : Head) (turn : Turn) (live : LiveRuns)
        (status : AnchorStatus)
        → Adds at
            (found_by (config.rekor == "") turn live)
            (log_part lib witnesses config run_id at turn (live, status)).0
            ((log_part lib witnesses config run_id at turn (live, status)).1.0)
    unfolding log_part
    log_part-Adds config run_id at turn live status =
        either_way-Adds at turn live (config.rekor == "") (ok [], (live, status))
          (publish_with lib witnesses run_id config.rekor at turn (publish witnesses at.1)
            (live, status))
          refl (publish_with-Adds run_id config.rekor at turn (publish witnesses at.1) live status)

    -- The records of a cycle behind a head: those of the authorities, and those of the log.
    pub record TwoParts (config : Anchoring) (one two : Turn) (at : Head) (live after : LiveRuns)
        (records : List Record) : Type 0 where
      pub stamped : List Record
      pub logged : List Record
      pub between : LiveRuns
      pub split : records ≡ stamped ++ logged
      pub stamps : Adds at (found_by (is_nil config.urls) one live) (ok stamped) between
      pub logs : Adds at (found_by (config.rekor == "") two between) (ok logged) after

    behind_split :
        (stamped : List Record) (answer : Result (List Record)) (state after : State)
        (records : List Record)
        → behind lib witnesses stamped (answer, state) ≡ (ok records, after)
        → (logged : List Record) × ((answer ≡ ok logged)
            × ((records ≡ stamped ++ logged) × (state ≡ after)))
    unfolding behind
    behind_split stamped (err e) state after records h = absurd (cc (first h))
    behind_split stamped (ok logged) state after records h =
        (logged, (refl, (sym (ok-injective (first h)), second h)))

    both_parts-TwoParts :
        (config : Anchoring) (run_id : String) (one two : Turn) (at : Head)
        (answer : Result (List Record)) (live : LiveRuns) (state after : State)
        (records : List Record)
        → Adds at (found_by (is_nil config.urls) one live) answer state.0
        → both_parts lib witnesses config run_id at two (answer, state) ≡ (ok records, after)
        → TwoParts config one two at live after.0 records
    unfolding both_parts
    both_parts-TwoParts config run_id one two at (err e) live state after records a h =
        absurd (cc (first h))
    both_parts-TwoParts config run_id one two at (ok stamped) live (between, status) after records a
          h =
        let part = log_part lib witnesses config run_id at two (between, status) in
        let (logged, (answered, (split, same))) =
          behind_split stamped part.0 part.1 after records h in
        record {
          stamped = stamped;
          logged = logged;
          between = between;
          split = split;
          stamps = a;
          logs =
              subst
                (λ (x : Result (List Record) × State).
                  Adds at (found_by (config.rekor == "") two between) x.0 (x.1.0))
                (ap (λ (r : Result (List Record)). (r, part.1)) answered
                  ∙ ap (λ (s : State). (Result.ok logged, s)) same)
                (log_part-Adds config run_id at two between status);
        }

    -- A cycle that answered no record and changed nothing.
    abbrev pub IsIdle : State → State → List Record → Type 0
    IsIdle before after records = (records ≡ []) × (after ≡ before)

    -- What a cycle left behind the head that it read.
    abbrev pub IsCycle :
        Anchoring
        → Turn
        → Turn
        → Result (ℕ × String × String)
        → State
        → State
        → List Record
        → Type 0
    IsCycle config one two (ok (seq, anchored, kind)) before after records =
        ((kind ≡ "anchor") × IsIdle before after records)
        ⊎ (((kind == "anchor") ≡ false)
            × TwoParts config one two (seq, anchored) (before.0) (after.0) records)
    IsCycle config one two (err e) before after records = IsIdle before after records

    anchor_head-IsCycle :
        (config : Anchoring) (run_id : String) (one two : Turn)
        (found : Result (ℕ × String × String)) (live : LiveRuns) (status : AnchorStatus)
        (after : State) (records : List Record)
        → anchor_head lib witnesses config run_id one two (found, live) status ≡ (ok records, after)
        → IsCycle config one two found (live, status) after records
    unfolding anchor_head
    anchor_head-IsCycle config run_id one two (err e) live status after records h =
        (no_records-nil e (first h), sym (second h))
    anchor_head-IsCycle config run_id one two (ok (seq, anchored, kind)) live status after records
          h =
        let at : Head = (seq, anchored) in
        let stamped = timestamp_any witnesses config.urls anchored in
        let answer : Result (List Record) × State =
          if is_nil config.urls
          then (ok [], (live, status))
          else stamp_with lib witnesses run_id at one stamped (live, status) in
        if_cases (kind == "anchor")
          (λ e k. inl ((eq_iff kind "anchor").0 e, (sym (ok-injective (first k)), sym (second k))))
          (λ e k. inr (
            e,
            both_parts-TwoParts config run_id one two at (answer.0) live (answer.1) after records
                (either_way-Adds at one live (is_nil config.urls) (ok [], (live, status))
                  (stamp_with lib witnesses run_id at one stamped (live, status)) refl
                  (stamp_with-Adds run_id at one stamped live status))
                k,
          ))
          h

    -- A cycle over a run that answers records either is off and changes nothing; or it reads the
    -- head of the run, which leaves the tables. Where the run has no head, or its last record is an
    -- anchor, the cycle answers no record and leaves the state that the head left, the status too.
    -- Otherwise its records are those of the authorities and then those of the log, at most one
    -- each: an `anchor` record whose anchor names the seq and the hash of the head that was read,
    -- and whose row is then behind the rows that the other tasks had left; a witness that gives no
    -- record leaves the tables as the other tasks had.
    pub anchor_run-IsCycle :
        (config : Anchoring) (run_id : String) (one two : Turn) (live : LiveRuns)
        (status : AnchorStatus) (after : State) (records : List Record)
        → anchor_run lib witnesses config run_id one two (live, status) ≡ (ok records, after)
        → ((enabled config ≡ false) × IsIdle (live, status) after records)
          ⊎ (((head run_id live).1.db ≡ live.db)
              × IsCycle config one two
                  (head run_id live).0
                  ((head run_id live).1, status)
                  after
                  records)
    unfolding anchor_run
    anchor_run-IsCycle config run_id one two live status after records =
        if_cases (enabled config)
          (λ e k. inr (
            head_db run_id live,
            anchor_head-IsCycle config run_id one two (head run_id live).0 (head run_id live).1
                status after records k,
          ))
          (λ e k. inl (e, (sym (ok-injective (first k)), sym (second k))))
