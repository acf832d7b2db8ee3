-- ===== src/Tests/Verified.antt =====
-- The run of two records is accepted.
use sealedrun.Prelude.{◌≡◌, refl, none, [], ◌∷◌, sorted_set}
use sealedrun.Result.{ok}
use sealedrun.Keys.{keyset_from_json, keyset_verify, verify_one, verify_each, kid, profile}
use sealedrun.Keys.Encoding.{to_big}
use sealedrun.Hashing.{digest, digest_size, object_hash, zero_hash, zeros}
use sealedrun.Signing.{signing_input, check_hash, check_field, check_signatures}
use sealedrun.Delegation.{verify_delegation, covers}
use sealedrun.Scope
use sealedrun.Approval
use sealedrun.Run.{
  verify_run, verify_loop, admit, observe, first_prev_hash, delegation_for_run, collect,
  count_labels,
}
use sealedrun.Run.Checks.{
  check_schema, check_place, check_authority, check_bodies, check_context, check_receipt,
}
use sealedrun.Tests.Toy.{toy, toy_delegation, toy_first, toy_second, toy_options, toy_report}

pub toy_accepted :
    verify_run toy toy_options (toy_first ∷ toy_second ∷ []) (("d", toy_delegation) ∷ []) none
    ≡ ok toy_report
unfolding verify_run verify_loop admit observe first_prev_hash zero_hash digest_size
    delegation_for_run verify_delegation keyset_from_json profile kid digest check_hash object_hash
    check_signatures signing_input keyset_verify verify_one to_big Scope.parse Approval.findings
    covers zeros verify_each sorted_set check_authority check_bodies check_context check_place
    check_receipt check_schema collect count_labels Scope.findings check_field
toy_accepted = refl
