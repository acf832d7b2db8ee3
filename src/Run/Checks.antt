-- ===== src/Run/Checks.antt =====
-- The checks that verify.py makes of one record of a run, in the order of its loop.
use sealedrun.Prelude.{
  ℕ, ◌-◌, ◌*◌, String, ◌==◌, Bool, false, ◌&&◌, ◌||◌, not, Option, none, some, List, [], ◌∷◌, Dict,
  lookup, elem, length, get_elem?, is_nil, is_some, or_else, if◌then◌else◌, nat_eq, opt_eq, leb,
  ltb,
}
use sealedrun.Result.{
  Exc, verification, key_error, Result, ok, err, raise_if, or_raise, ◌>>=◌, ◌>>◌,
}
use sealedrun.Model.{Bytes, Doc, Record, Delegation, Receipt, PayloadRef, Anchor, extensions_of}
use sealedrun.Library.{Library, Witness}
use sealedrun.Hashing.{digest_size, payload_digest}
use sealedrun.Signing.{domain_record, check_hash, check_signatures}
use sealedrun.Delegation.{timestamp, covers}
use sealedrun.Scope.{Scope}

-- What `verify_run` fixes before its loop.
pub record Setting : Type 0 where
  pub run_id : String
  pub hash_alg : String
  pub first_seq : ℕ
  pub records : List Record
  pub delegation : Delegation
  pub scope : Scope
  pub agent_keys : Dict String

-- `VerificationError(check, message, run_id, seq)`
abbrev pub fails : String → String → String → ℕ → Exc
fails check message run_id seq = verification check message (some run_id) (some seq)

module _ (lib : Library) where
  -- Lines 117 to 122: the schemas of the record and of its extensions.
  unfoldable pub check_schema : Record → String → ℕ → Result (Unit {0})
  check_schema entry run_id seq = do
    raise_if (not (is_nil (lib.schema_errors entry))) (fails "schema" "record" run_id seq)
    raise_if (not (is_nil (lib.extension_errors (extensions_of entry.protected))))
        (fails "schema" "extensions" run_id seq)

  -- Lines 123 to 141: the record's place in the run and the chain, and its hash. The set of the
  -- ids seen is a list.
  unfoldable pub check_place :
      Setting → String → List String → Bool → Record → ℕ → Result (Unit {0})
  check_place setting prev_hash seen_ids ended entry seq = do
    raise_if (not (entry.protected.run_id == setting.run_id))
        (fails "run" "record belongs to another run" setting.run_id seq)
    raise_if (not (nat_eq entry.protected.seq seq))
        (fails "seq" "expected another seq" setting.run_id seq)
    raise_if (elem entry.protected.record_id seen_ids)
        (fails "record_id" "record_id repeats within the run" setting.run_id seq)
    raise_if (not (entry.protected.hash_alg == setting.hash_alg))
        (fails "hash_alg" "hash algorithm changed within run" setting.run_id seq)
    size ← digest_size setting.hash_alg
    raise_if (not (nat_eq (lib.text_length entry.hash) (size * 2)))
        (fails "hash_alg" "hash length does not match algorithm" setting.run_id seq)
    raise_if ended (fails "run_end" "record after run_end" setting.run_id seq)
    raise_if (not (entry.protected.prev_hash == prev_hash))
        (fails "chain" "prev_hash does not match previous record" setting.run_id seq)
    raise_if (not (check_hash lib lib.canonical_record (λ d. d.hash_alg) entry))
        (fails "hash" "record hash mismatch" setting.run_id seq)

  -- Lines 142 to 151: the delegation and the signatures.
  unfoldable pub check_authority : Setting → Record → ℕ → Result (Unit {0})
  check_authority setting entry seq = do
    raise_if (not (entry.protected.agent_id == setting.delegation.protected.agent_id))
        (fails "delegation" "agent_id differs from delegation" setting.run_id seq)
    raise_if (not (entry.protected.principal_id == setting.delegation.protected.principal_id))
        (fails "delegation" "principal_id differs from delegation" setting.run_id seq)
    at ← timestamp lib entry.protected.occurred_at
    covered ← covers lib setting.delegation at
    raise_if (not covered)
        (fails "delegation" "record outside delegation validity" setting.run_id seq)
    raise_if (not (check_signatures lib entry domain_record setting.agent_keys))
        (fails "signature" "agent signature invalid" setting.run_id seq)

  -- One side of `_check_payload`.
  check_body : Dict Bytes → String → String → ℕ → Option String → Option ℕ → Result (Unit {0})
  check_body payloads hash_alg run_id seq none size = ok tt
  check_body payloads hash_alg run_id seq (some expected) size = do
    body ← or_raise (lookup expected payloads) (fails "payload" "body missing" run_id seq)
    actual ← payload_digest lib hash_alg body
    raise_if (not (actual == expected)) (fails "payload" "body digest mismatch" run_id seq)
    stated ← or_raise size (key_error "size")
    raise_if (not (nat_eq (length body) stated)) (fails "payload" "body digest mismatch" run_id seq)

  -- `_check_payload`
  unfoldable pub check_payload :
      Option PayloadRef → Dict Bytes → String → String → ℕ → Result (Unit {0})
  unfolding check_body
  check_payload none payloads hash_alg run_id seq = ok tt
  check_payload (some ref) payloads hash_alg run_id seq =
      if not (elem ref.storage ("bundle" ∷ "inline" ∷ [])) then ok tt else do
        check_body payloads hash_alg run_id seq ref.request_hash ref.request_size
        check_body payloads hash_alg run_id seq ref.response_hash ref.response_size

  -- Lines 152 and 153.
  unfoldable pub check_bodies : Option (Dict Bytes) → Setting → Record → ℕ → Result (Unit {0})
  check_bodies none setting entry seq = ok tt
  check_bodies (some payloads) setting entry seq =
      check_payload entry.protected.payload payloads setting.hash_alg setting.run_id seq

  -- `_witness_verified`
  unfoldable pub witness_verified : Anchor → List Witness → Bool
  witness_verified anchor witnesses =
      if anchor.type == "rfc3161"
      then lib.rfc3161_verify anchor witnesses
      else if anchor.type == "rekor"
      then lib.rekor_verify anchor witnesses
      else false

-- `_check_anchor`: the anchor points at an earlier record of the run and carries its hash.
unfoldable pub check_anchor : Setting → Record → ℕ → Result Anchor
check_anchor setting entry seq = do
  anchor ← or_raise (extensions_of entry.protected).anchor (key_error "sealedrun.anchor")
  raise_if
      (ltb anchor.anchored_seq setting.first_seq
        || leb (length setting.records) (anchor.anchored_seq - setting.first_seq)
        || leb seq anchor.anchored_seq)
      (fails "anchor" "anchored_seq not in run before anchor" setting.run_id seq)
  target ←
      or_raise (get_elem? setting.records (anchor.anchored_seq - setting.first_seq))
        (key_error "index")
  raise_if (not (target.hash == anchor.anchored_hash))
      (fails "anchor" "anchored_hash does not match record" setting.run_id seq)
  raise_if (not (anchor.receipt.digest == anchor.anchored_hash))
      (fails "anchor" "receipt digest does not match anchored_hash" setting.run_id seq)
  ok anchor

-- The first half of `_check_context`: the run's policy set digest behind this record.
context_hash : Doc → Option String → String → ℕ → Result (Option String)
context_hash doc policy_set_hash run_id seq = elim (extensions_of doc).context [
  | none ↦ ok policy_set_hash
  | some declared ↦
      if doc.kind == "run_start"
      then ok declared
      else err (fails "context" "sealedrun.context on a record other than run_start" run_id seq)
]

-- The digest that the record's policy names, where it has a policy that names one.
declared_hash : Doc → Option String
declared_hash doc = elim doc.policy [ none ↦ none | some policy ↦ policy.policy_set_hash ]

-- `_check_context`
unfoldable pub check_context : Doc → Option String → String → ℕ → Result (Option String)
unfolding context_hash declared_hash
check_context doc policy_set_hash run_id seq = do
  current ← context_hash doc policy_set_hash run_id seq
  raise_if
      (is_some current && is_some (declared_hash doc) && not (opt_eq (declared_hash doc) current))
      (fails "context" "policy_set_hash differs from the run's context" run_id seq)
  ok current

-- `(record.get("payload") or {}).get("response_hash")`
response_hash_of : Option PayloadRef → Option String
response_hash_of none = none
response_hash_of (some ref) = ref.response_hash

-- `_check_receipt` where there is a receipt.
check_some_receipt : Doc → Receipt → Bool → String → ℕ → Result (Unit {0})
unfolding response_hash_of
check_some_receipt doc receipt proxied run_id seq =
    if receipt.observed_by == "proxy"
    then (do
      raise_if (not proxied)
          (fails "receipt" "proxy receipt on a record without sealedrun.proxy" run_id seq)
      raise_if (not (receipt.kind == "http_response"))
          (fails "receipt" "proxy receipt is not an http_response" run_id seq)
      raise_if
          (not (is_some receipt.digest)
            || not (opt_eq receipt.digest (response_hash_of doc.payload)))
          (fails "receipt" "receipt digest differs from payload.response_hash" run_id seq)
      raise_if (not (or_else receipt.digest_alg doc.hash_alg == doc.hash_alg))
          (fails "receipt" "receipt digest_alg differs from run" run_id seq))
    else raise_if proxied (fails "receipt" "self-reported receipt on a proxied record" run_id seq)

-- `_check_receipt`
unfoldable pub check_receipt : Doc → String → ℕ → Result (Option String)
unfolding check_some_receipt
check_receipt doc run_id seq = elim (extensions_of doc).receipt [
  | none ↦ ok none
  | some receipt ↦ do
    check_some_receipt doc receipt (is_some (extensions_of doc).proxy) run_id seq
    ok (some receipt.observed_by)
]
