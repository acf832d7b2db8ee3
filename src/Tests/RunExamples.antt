-- ===== src/Tests/RunExamples.antt =====
-- The theorems on `verify_run` at the run of two records.
use sealedrun.Prelude.{String, ◌≡◌, refl, ◌⊎◌, none, [], ◌∷◌, length, last}
use sealedrun.Result.{ok}
use sealedrun.Chain.{Linked}
use sealedrun.Chain.Tamper.{docs, Collision}
use sealedrun.Keys.{keyset_from_json}
use sealedrun.Run.{first_prev_hash, delegation_for_run}
use sealedrun.Run.Checks.{Setting}
use sealedrun.Run.Accept.{Authorised, Fresh, EndsOnce}
use sealedrun.Run.Verdict.{
  verify_run-Linked, verify_run-Authorised, verify_run-Fresh, verify_run_report,
}
use sealedrun.Run.Evident.{tamper_evident}
use sealedrun.Tests.Toy.{toy, toy_delegation, toy_first, toy_second, toy_options, toy_report}
use sealedrun.Tests.Verified.{toy_accepted}

verify_run-Linked_example :
    (prev : String) × (first_prev_hash toy toy_first none ≡ ok prev)
    × Linked toy "r" "sha-256" 0 prev (toy_first ∷ toy_second ∷ [])
verify_run-Linked_example =
    verify_run-Linked toy toy_first (toy_second ∷ []) (("d", toy_delegation) ∷ []) none toy_options
      toy_report toy_accepted

verify_run-Authorised_example :
    (setting : Setting) × (delegation_for_run toy toy_first (("d", toy_delegation) ∷ [])
      ≡ ok setting.delegation)
    × (keyset_from_json setting.delegation.protected.agent_keys ≡ ok setting.agent_keys)
    × Authorised toy toy_options setting (toy_first ∷ toy_second ∷ [])
verify_run-Authorised_example =
    verify_run-Authorised toy toy_first (toy_second ∷ []) (("d", toy_delegation) ∷ []) none
      toy_options toy_report toy_accepted

verify_run-Fresh_example : Fresh [] (toy_first ∷ toy_second ∷ [])
verify_run-Fresh_example =
    verify_run-Fresh toy toy_first (toy_second ∷ []) (("d", toy_delegation) ∷ []) none toy_options
      toy_report toy_accepted

verify_run_report_example :
    (toy_report.run_id ≡ toy_first.protected.run_id)
    × (toy_report.record_count ≡ length (toy_first ∷ toy_second ∷ []))
    × (toy_report.first_seq ≡ toy_first.protected.seq)
    × (toy_report.last_hash ≡ (last toy_first (toy_second ∷ [])).hash)
    × EndsOnce toy_first (toy_second ∷ []) toy_report.complete
verify_run_report_example =
    verify_run_report toy toy_first (toy_second ∷ []) (("d", toy_delegation) ∷ []) none toy_options
      toy_report toy_accepted

tamper_evident_example :
    (docs (toy_first ∷ toy_second ∷ []) ≡ docs (toy_first ∷ toy_second ∷ [])) ⊎ Collision toy
tamper_evident_example =
    tamper_evident toy toy_options toy_options (("d", toy_delegation) ∷ [])
      (("d", toy_delegation) ∷ []) none none toy_first toy_first (toy_second ∷ []) (toy_second ∷ [])
      toy_report toy_report toy_accepted toy_accepted refl refl
