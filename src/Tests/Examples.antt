-- ===== src/Tests/Examples.antt =====
-- The theorems on keys, sealing, scopes, policies and limits at concrete inputs.
use Prim.Native.Nat.{min}
use sealedrun.Prelude.{
  Dict, Option, ℕ, ◌≡◌, ◌≤◌, ◌-◌, ◌/◌, refl, nat_eq, if◌then◌else◌, none, some, true, [], ◌∷◌,
  length, arith, sorted_minus, sorted_set,
}
use sealedrun.Result.{ok}
use sealedrun.Library.{Library}
use sealedrun.Hashing.{object_hash, digest}
use sealedrun.Keys.{p256_order, verify_one, es256_sign, sign, sign_one}
use sealedrun.Keys.Encoding.{to_big}
use sealedrun.Keys.Curve.{ed_mul_loop}
use sealedrun.Keys.Fuel.{turn, ed_mul_loop-turn}
use sealedrun.Keys.LowS.{verify_one-es256_sign}
use sealedrun.Signing.{domain_record, seal, signing_input}
use sealedrun.Model.{Bytes}
use sealedrun.Json.{Json}
use sealedrun.Signing.Raw.{protected_part, seal_object}
use sealedrun.Signing.Raw.Sealed.{IsSealedObject, seal_object-IsSealedObject}
use sealedrun.Scope.{Scope, no_scope, scope_within, covers, findings, target_field, target_matches}
use sealedrun.Scope.Glob.{glob_match, matches}
use sealedrun.Scope.Glob.Trans.{glob_match_trans}
use sealedrun.Scope.Within.{keeps_to, scope_within_sound}
use sealedrun.Recorder.Policy.{evaluate}
use sealedrun.Recorder.Policy.Block.{stops, evaluate_blocks}
use sealedrun.Recorder.Limits.{Reply, read_body, read_chunks, read_reply}
use sealedrun.Recorder.Limits.Cap.{read_body_within}
use sealedrun.Recorder.Limits.Closed.{IsRead, read_reply-IsRead}
use sealedrun.Tests.Toy.{toy, toy_signers, toy_first, toy_call}

-- `1 < p256_order`, by the numerals.
verify_one-es256_sign_example :
    verify_one toy "es256" [] [] (es256_sign toy [] [])
    ≡ toy.ecdsa_verify [] [] (1, min 2 (p256_order - 2))
verify_one-es256_sign_example = verify_one-es256_sign toy [] [] [] (omega arith) (omega arith)

seal_first :
    seal toy toy.canonical_record (λ d. d.hash_alg) toy_first.protected domain_record toy_signers
    ≡ ok toy_first
unfolding seal object_hash digest signing_input sign sign_one es256_sign to_big
seal_first = refl

-- A document with a hash and signatures of before.
abbrev toy_object : Dict Json
toy_object =
    ("hash", Json.text "old")
    ∷ ("hash_alg", Json.text "sha-256")
    ∷ ("signatures", Json.null)
    ∷ ("principal_signatures", Json.null)
    ∷ ("kind", Json.text "run_start")
    ∷ []

abbrev toy_object_sealed : Dict Json
toy_object_sealed =
    ("hash_alg", Json.text "sha-256")
    ∷ ("kind", Json.text "run_start")
    ∷ ("hash", Json.text "h")
    ∷ ("signatures", Json.boolean true)
    ∷ []

abbrev toy_canonical : Dict Json → Option Bytes
toy_canonical obj = some []

object_sealed :
    seal_object toy toy_canonical (λ s. Json.boolean true) toy_object domain_record toy_signers
    ≡ ok toy_object_sealed
unfolding seal_object protected_part object_hash digest signing_input sign sign_one es256_sign
    to_big
object_sealed = refl

seal_object-IsSealedObject_example :
    IsSealedObject toy toy_canonical
      (λ s. Json.boolean true)
      toy_object
      domain_record
      toy_signers
      toy_object_sealed
seal_object-IsSealedObject_example =
    seal_object-IsSealedObject toy toy_canonical (λ s. Json.boolean true) toy_object domain_record
      toy_signers toy_object_sealed object_sealed

glob_wide : glob_match "gpt-*" "gpt-4*" ≡ true
unfolding glob_match matches
glob_wide = refl

glob_narrow : glob_match "gpt-4*" "gpt-4o" ≡ true
unfolding glob_match matches
glob_narrow = refl

glob_match_trans_example : glob_match "gpt-*" "gpt-4o" ≡ true
glob_match_trans_example = glob_match_trans "gpt-*" "gpt-4*" "gpt-4o" glob_wide glob_narrow

abbrev parent_scope : Scope
parent_scope = record no_scope {
  allowed_targets = some ((("name", "r*") ∷ []) ∷ []);
  denied_labels = "pii" ∷ [];
  max_records = some 9;
}

abbrev child_scope : Scope
child_scope = record no_scope {
  allowed_targets = some ((("type", "none") ∷ ("name", "ru*") ∷ []) ∷ []);
  denied_labels = "secret" ∷ "pii" ∷ [];
  max_records = some 3;
}

child_within : scope_within child_scope parent_scope ≡ none
unfolding scope_within covers glob_match matches sorted_minus sorted_set
child_within = refl

child_kept : keeps_to child_scope 0 (toy_first.protected ∷ toy_call.protected ∷ []) ≡ true
unfolding findings target_matches target_field glob_match matches sorted_set
child_kept = refl

scope_within_sound_example :
    keeps_to parent_scope 0 (toy_first.protected ∷ toy_call.protected ∷ []) ≡ true
scope_within_sound_example =
    scope_within_sound child_scope parent_scope (toy_first.protected ∷ toy_call.protected ∷ [])
      child_within child_kept

evaluate_blocks_example :
    stops (evaluate toy (record { block_to_cloud = "pii" ∷ [] }) "cloud" ("public" ∷ "pii" ∷ []))
    ≡ true
evaluate_blocks_example =
    evaluate_blocks toy (record { block_to_cloud = "pii" ∷ [] }) "cloud" ("public" ∷ "pii" ∷ [])

-- The second chunk passes the limit.
abbrev toy_reply : Reply
toy_reply = record {
  stream = ok (1 ∷ 2 ∷ []) ∷ ok (3 ∷ 4 ∷ 5 ∷ []) ∷ ok (6 ∷ []) ∷ [];
  closing = ok tt;
  closes = 0;
}

read_reply-IsRead_example :
    IsRead 4 toy_reply (ok tt) (read_reply toy_reply 4) × ((read_reply toy_reply 4).1.closes ≡ 1)
read_reply-IsRead_example = read_reply-IsRead toy_reply 4

body_read : read_body (some 3) none ((1 ∷ 2 ∷ []) ∷ (3 ∷ []) ∷ []) 4 ≡ ok (1 ∷ 2 ∷ 3 ∷ [])
unfolding read_body read_chunks
body_read = refl

read_body_within_example : length {A = ℕ} (1 ∷ 2 ∷ 3 ∷ []) ≤ 4
read_body_within_example = read_body_within (some 3) none ((1 ∷ 2 ∷ []) ∷ (3 ∷ []) ∷ []) 4 body_read

-- A library whose inverses are all 1.
abbrev toy_inverse : Library
toy_inverse = record toy { inverse_mod = λ n p. some 1 }

ed_mul_loop-turn_example : ed_mul_loop toy_inverse 5 5 (3, 4) (0, 1) ≡ (
    if nat_eq 5 0
    then ok (0, 1)
    else turn toy_inverse 5 (3, 4) (0, 1) (ed_mul_loop toy_inverse (5 / 2) (5 / 2)))
ed_mul_loop-turn_example = ed_mul_loop-turn toy_inverse 5 (3, 4) (0, 1)
