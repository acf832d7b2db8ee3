-- ===== src/Run/Evident.antt =====
-- verify.py: two runs with one last hash.
use sealedrun.Prelude.{String, ◌≡◌, ◌∙◌, sym, ◌⊎◌, inl, inr, Option, List, ◌∷◌, Dict}
use sealedrun.Result.{ok}
use sealedrun.Model.{Record, Delegation}
use sealedrun.Library.{Library}
use sealedrun.Chain.{head_of-last}
use sealedrun.Chain.Tamper.{docs, Collision, same_docs}
use sealedrun.Run.{Options, RunReport, verify_run}
use sealedrun.Run.Verdict.{verify_run-Linked, verify_run_report}

-- Two accepted runs whose reports have one record count and one last hash have the same documents
-- at every place, or else two different documents with one hash are at hand.
pub tamper_evident :
    (lib : Library) (options options' : Options) (delegations delegations' : Dict Delegation)
    (expected expected' : Option String) (first first' : Record) (rest rest' : List Record)
    (report report' : RunReport)
    → verify_run lib options (first ∷ rest) delegations expected ≡ ok report
    → verify_run lib options' (first' ∷ rest') delegations' expected' ≡ ok report'
    → report.record_count ≡ report'.record_count
    → report.last_hash ≡ report'.last_hash
    → (docs (first ∷ rest) ≡ docs (first' ∷ rest')) ⊎ Collision lib
tamper_evident lib options options' delegations delegations' expected expected' first first' rest
      rest' report report' h h' n e =
    let (prev, _, chain) = verify_run-Linked lib first rest delegations expected options report h in
    let (prev', _, chain') =
      verify_run-Linked lib first' rest' delegations' expected' options' report' h' in
    let (_, count, _, tip, _) =
      verify_run_report lib first rest delegations expected options report h in
    let (_, count', _, tip', _) =
      verify_run_report lib first' rest' delegations' expected' options' report' h' in
    elim (same_docs lib first.protected.run_id first'.protected.run_id first.protected.hash_alg
      first'.protected.hash_alg first.protected.seq first'.protected.seq prev prev' (first ∷ rest)
      (first' ∷ rest') (sym count ∙ (n ∙ count'))
      (head_of-last prev first rest
        ∙ (sym tip ∙ (e ∙ (tip' ∙ sym (head_of-last prev' first' rest')))))
      chain chain') [ inl same ↦ inl same.0 | inr c ↦ inr c ]
