-- ===== src/Run/Verdict.antt =====
-- verify.py: the theorems of `verify_run`.
use sealedrun.Prelude.{
  String, ◌≡◌, ◌∙◌, refl, sym, subst, false, Option, List, [], ◌∷◌, Dict, last, length,
}
use sealedrun.Result.{ok, >>=-eq-ok, >>-eq-ok, ok-injective}
use sealedrun.Model.{Record, Delegation}
use sealedrun.Library.{Library}
use sealedrun.Keys.{keyset_from_json}
use sealedrun.Chain.{Linked, Linked-cast}
use sealedrun.Run.{
  Options, Progress, RunReport, verify_loop, verify_run, prepare, check_edge, first_prev_hash,
  delegation_for_run, scope_of,
}
use sealedrun.Run.Checks.{Setting}
use sealedrun.Run.Accept.{
  Accepted, Authorised, Fresh, EndsOnce, verify_loop-Accepted, Accepted-Linked, Accepted-Authorised,
  Accepted-Fresh, Accepted-EndsOnce, Accepted-report,
}

module _ (lib : Library) (first : Record) (rest : List Record) (delegations : Dict Delegation)
    (expected : Option String) where
  -- What `prepare` returns.
  record IsPrepared (setting : Setting) (start : Progress) : Type 0 where
    prev : String
    chained : first_prev_hash lib first expected ≡ ok prev
    starts : start.prev_hash ≡ prev
    run : setting.run_id ≡ first.protected.run_id
    alg : setting.hash_alg ≡ first.protected.hash_alg
    issued : delegation_for_run lib first delegations ≡ ok setting.delegation
    keys : keyset_from_json setting.delegation.protected.agent_keys ≡ ok setting.agent_keys
    unseen : start.seen_ids ≡ []
    unended : start.ended ≡ false
    run_id : start.report.run_id ≡ first.protected.run_id
    record_count : start.report.record_count ≡ length (first ∷ rest)
    first_seq : start.report.first_seq ≡ first.protected.seq
    last_hash : start.report.last_hash ≡ (last first rest).hash

  prepare-IsPrepared :
      (setting : Setting) (start : Progress)
      → prepare lib first rest delegations expected ≡ ok (setting, start)
      → IsPrepared setting start
  unfolding prepare
  prepare-IsPrepared setting start h =
      let (prev, a, h1) = >>=-eq-ok (first_prev_hash lib first expected) _ h in
      let (delegation, b, h2) = >>=-eq-ok (delegation_for_run lib first delegations) _ h1 in
      let (scope, c, h3) =
        >>=-eq-ok (scope_of lib delegation first.protected.run_id first.protected.seq) _ h2 in
      let (keys, d, h4) = >>=-eq-ok (keyset_from_json delegation.protected.agent_keys) _ h3 in
      subst (λ (x : Setting × Progress). IsPrepared x.0 x.1) (ok-injective h4)
        (record {
          prev = prev;
          chained = a;
          starts = refl;
          run = refl;
          alg = refl;
          issued = b;
          keys = d;
          unseen = refl;
          unended = refl;
          run_id = refl;
          record_count = refl;
          first_seq = refl;
          last_hash = refl;
        })

  module _ (options : Options) where
    -- A run that is accepted was prepared and went through the loop.
    record IsAccepted (report : RunReport) : Type 0 where
      setting : Setting
      start : Progress
      stop : Progress
      prepared : IsPrepared setting start
      looped : Accepted lib options setting first.protected.seq (first ∷ rest) start stop
      reported : report ≡ record stop.report { complete = stop.ended }

    verify_run-IsAccepted :
        (report : RunReport)
        → verify_run lib options (first ∷ rest) delegations expected ≡ ok report
        → IsAccepted report
    unfolding verify_run
    verify_run-IsAccepted report h =
        let (h1, _) = >>-eq-ok (check_edge lib first) _ h in
        let (h2, _) = >>-eq-ok (check_edge lib (last first rest)) _ h1 in
        let ((setting, start), p, h3) =
          >>=-eq-ok (prepare lib first rest delegations expected) _ h2 in
        let (stop, l, h4) =
          >>=-eq-ok (verify_loop lib options setting first.protected.seq (first ∷ rest) start) _
            h3 in
        record {
          setting = setting;
          start = start;
          stop = stop;
          prepared = prepare-IsPrepared setting start p;
          looped =
              verify_loop-Accepted lib options setting first.protected.seq (first ∷ rest) start stop
                l;
          reported = sym (ok-injective h4);
        }

    -- An accepted run is a hash chain: its records have the run id and the hash algorithm of the
    -- first, are numbered from its seq without a gap, each names the stored hash of the one before,
    -- each stored hash is the hash of its document, and the first chains from the expected hash,
    -- which is the zero hash where none is expected.
    pub verify_run-Linked :
        (report : RunReport)
        → verify_run lib options (first ∷ rest) delegations expected ≡ ok report
        → (prev : String) × (first_prev_hash lib first expected ≡ ok prev)
          × Linked lib first.protected.run_id first.protected.hash_alg first.protected.seq prev
              (first ∷ rest)
    verify_run-Linked report h =
        let a = verify_run-IsAccepted report h in
        let l =
          Accepted-Linked lib options a.setting first.protected.seq (first ∷ rest) a.start a.stop
            a.looped in
        (
          a.prepared.prev,
          a.prepared.chained,
          Linked-cast lib first.protected.seq (first ∷ rest) a.prepared.run a.prepared.alg
              a.prepared.starts l,
        )

    -- Every record of an accepted run names the agent and the principal of the run's delegation, was
    -- made inside its validity window and is signed by every key of its agent key set; the delegation
    -- is the one that the run's first record names, or the agent's first where the run is partial.
    pub verify_run-Authorised :
        (report : RunReport)
        → verify_run lib options (first ∷ rest) delegations expected ≡ ok report
        → (setting : Setting) × (delegation_for_run lib first delegations ≡ ok setting.delegation)
          × (keyset_from_json setting.delegation.protected.agent_keys ≡ ok setting.agent_keys)
          × Authorised lib options setting (first ∷ rest)
    verify_run-Authorised report h =
        let a = verify_run-IsAccepted report h in
        (
          a.setting,
          a.prepared.issued,
          a.prepared.keys,
          Accepted-Authorised lib options a.setting first.protected.seq (first ∷ rest) a.start
              a.stop a.looped,
        )

    -- No record id stands twice in an accepted run.
    pub verify_run-Fresh :
        (report : RunReport)
        → verify_run lib options (first ∷ rest) delegations expected ≡ ok report
        → Fresh [] (first ∷ rest)
    verify_run-Fresh report h =
        let a = verify_run-IsAccepted report h in
        subst (λ (seen : List String). Fresh seen (first ∷ rest)) a.prepared.unseen
          (Accepted-Fresh lib options a.setting first.protected.seq (first ∷ rest) a.start a.stop
            a.looped)

    -- The report of an accepted run has the run's id, its number of records, its first seq and its
    -- last hash, and says that it is complete exactly when its last record is a `run_end`; no other
    -- record is one.
    pub verify_run_report :
        (report : RunReport)
        → verify_run lib options (first ∷ rest) delegations expected ≡ ok report
        → (report.run_id ≡ first.protected.run_id)
          × (report.record_count ≡ length (first ∷ rest))
          × (report.first_seq ≡ first.protected.seq)
          × (report.last_hash ≡ (last first rest).hash)
          × EndsOnce first rest report.complete
    verify_run_report report h =
        let a = verify_run-IsAccepted report h in
        let (i, j, k, l) =
          Accepted-report lib options a.setting first.protected.seq (first ∷ rest) a.start a.stop
            a.looped in
        rw a.reported (
          i ∙ a.prepared.run_id,
          j ∙ a.prepared.record_count,
          k ∙ a.prepared.first_seq,
          l ∙ a.prepared.last_hash,
          Accepted-EndsOnce lib options a.setting first.protected.seq first rest a.start a.stop
              a.prepared.unended a.looped,
        )
