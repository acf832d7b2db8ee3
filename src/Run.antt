-- ===== src/Run.antt =====
-- packages/sealedrun-py/src/sealedrun/verify.py: the verification of one run and of parent links.
-- The checks of one record are in `Run/Checks`, the loop and the report here.
pub mod Checks
pub mod Parent
pub mod Admit
pub mod Accept
pub mod Verdict
pub mod Evident
pub mod Descent
use sealedrun.Prelude.{
  ℕ, ◌+◌, ◌-◌, String, ◌==◌, Bool, false, ◌&&◌, ◌||◌, not, Option, none, some, List, [], ◌∷◌, ◌++◌,
  is_some, Dict, lookup, insert, dict_values, elem, find, last, length, is_nil, or_else,
  if◌then◌else◌, nat_eq, opt_eq, ltb,
}
use sealedrun.Result.{
  Exc, verification, value_error, key_error, Result, ok, err, raise_if, or_raise, ◌>>=◌, ◌>>◌,
}
use sealedrun.Model.{Bytes, Doc, Record, Delegation, Binding, extensions_of}
use sealedrun.Library.{Library, Witness}
use sealedrun.Hashing.{zero_hash}
use sealedrun.Keys.{keyset_from_json}
use sealedrun.Delegation.{verify_delegation}
use sealedrun.Scope
use sealedrun.Scope.{Scope, Finding}
use sealedrun.Approval
use sealedrun.Approval.{Waiting}
use Checks.{
  Setting, fails, check_schema, check_place, check_authority, check_bodies, check_anchor,
  witness_verified, check_context, check_receipt, check_payload,
}

-- `RunReport`
pub record RunReport : Type 0 where
  pub run_id : String
  pub record_count : ℕ
  pub first_seq : ℕ
  pub last_hash : String
  pub complete : Bool
  pub anchors : ℕ
  pub anchors_witness_verified : ℕ
  pub labels_sent_to_cloud : Dict ℕ
  pub findings : List Finding
  pub receipts_proxy : ℕ
  pub receipts_self_reported : ℕ
  pub system_prompt_changes : List ℕ

-- The keyword arguments of `verify_run`.
pub record Options : Type 0 where
  pub payloads : Option (Dict Bytes)
  pub witnesses : List Witness
  pub strict_witness : Bool
  pub strict_scope : Bool
  pub strict_approval : Bool

-- The variables that the loop of `verify_run` carries from record to record.
pub record Progress : Type 0 where
  pub prev_hash : String
  pub seen_ids : List String
  pub waiting : Waiting
  -- `prompt_hash` behind `prompt_seen`
  pub prompt : Option (Option String)
  pub ended : Bool
  pub policy_set_hash : Option String
  pub report : RunReport

-- `counts[label] = counts.get(label, 0) + 1` for each label.
unfoldable pub count_labels : List String → Dict ℕ → Dict ℕ
count_labels [] counts = counts
count_labels (label ∷ labels) counts =
    count_labels labels (insert label (or_else (lookup label counts) 0 + 1) counts)

-- A strict option fails on the first finding; otherwise they are listed.
unfoldable pub collect : Bool → String → ℕ → List Finding → List Finding → Result (List Finding)
collect strict run_id seq [] listed = ok listed
collect strict run_id seq (finding ∷ more) listed =
    if strict
    then err (fails finding.check "finding" run_id seq)
    else ok (listed ++ (finding ∷ more))

-- The `system_prompt_hash` of the record's `sealedrun.llm`.
prompt_of : Doc → Option String
prompt_of doc = elim (extensions_of doc).llm [ none ↦ none | some llm ↦ llm.system_prompt_hash ]

-- Lines 173 to 178: the changes of the system prompt's digest between model calls.
changed_prompt : Option String → Option (Option String) → Bool
changed_prompt current none = false
changed_prompt current (some previous) = not (opt_eq current previous)

prompt_changes : Doc → Option (Option String) → ℕ → List ℕ → List ℕ
unfolding prompt_of changed_prompt
prompt_changes doc previous seq changes =
    if doc.kind == "llm_call" && changed_prompt (prompt_of doc) previous
    then changes ++ seq ∷ []
    else changes

-- Lines 184 to 186.
count_cloud : Doc → Dict ℕ → Dict ℕ
count_cloud doc counts =
    if opt_eq doc.target.location (some "cloud") && not (doc.outcome == "blocked")
    then count_labels doc.data_labels counts
    else counts

-- Lines 173 to 179: what the next record's digest is compared with.
next_prompt : Doc → Option (Option String) → Option (Option String)
next_prompt doc previous = if doc.kind == "llm_call" then some (prompt_of doc) else previous

-- Lines 154 to 160: the anchor's reference into the chain and its receipt.
abbrev pub Tally : Type 0
Tally = ℕ × ℕ

module _ (lib : Library) (options : Options) (setting : Setting) where
  check_witnessed : Record → ℕ → Tally → Result Tally
  check_witnessed entry seq (anchors, verified) =
      if not (entry.protected.kind == "anchor") then ok (anchors, verified) else do
        anchor ← check_anchor setting entry seq
        let genuine = witness_verified lib anchor options.witnesses
        raise_if (not genuine && options.strict_witness)
            (fails "witness" "anchor receipt not verified" setting.run_id seq)
        ok (anchors + 1, (if genuine then verified + 1 else verified))

  -- Lines 116 to 153: the checks that only reject.
  unfoldable pub admit : ℕ → Record → Progress → Result (Unit {0})
  admit seq entry p = do
    check_schema lib entry setting.run_id seq
    check_place lib setting p.prev_hash p.seen_ids p.ended entry seq
    check_authority lib setting entry seq
    check_bodies lib options.payloads setting entry seq

  -- Lines 154 to 187: the checks that also report.
  unfoldable pub observe : ℕ → Record → Progress → Result Progress
  unfolding check_witnessed prompt_changes next_prompt count_cloud
  observe seq entry p = do
    (anchors, verified) ←
        check_witnessed entry seq (p.report.anchors, p.report.anchors_witness_verified)
    policy_set_hash ← check_context entry.protected p.policy_set_hash setting.run_id seq
    observed_by ← check_receipt entry.protected setting.run_id seq
    in_scope ←
        collect options.strict_scope setting.run_id seq
          (Scope.findings setting.scope entry.protected (seq - setting.first_seq + 1))
          p.report.findings
    let (approval_findings, waiting) = Approval.findings entry.protected p.waiting
    listed ← collect options.strict_approval setting.run_id seq approval_findings in_scope
    ok (record {
      prev_hash = entry.hash;
      seen_ids = entry.protected.record_id ∷ p.seen_ids;
      waiting = waiting;
      prompt = next_prompt entry.protected p.prompt;
      ended = p.ended || entry.protected.kind == "run_end";
      policy_set_hash = policy_set_hash;
      report = record p.report {
        anchors = anchors;
        anchors_witness_verified = verified;
        labels_sent_to_cloud = count_cloud entry.protected p.report.labels_sent_to_cloud;
        findings = listed;
        receipts_proxy =
            p.report.receipts_proxy + (if opt_eq observed_by (some "proxy") then 1 else 0);
        receipts_self_reported =
            p.report.receipts_self_reported
            + (if opt_eq observed_by (some "self_reported") then 1 else 0);
        system_prompt_changes =
            prompt_changes entry.protected p.prompt seq p.report.system_prompt_changes;
      };
    })

  -- The loop of `verify_run` from the record at `seq` on.
  unfoldable pub verify_loop : ℕ → List Record → Progress → Result Progress
  verify_loop seq [] p = ok p
  verify_loop seq (entry ∷ rest) p = do
    admit seq entry p
    next ← observe seq entry p
    verify_loop (seq + 1) rest next

module _ (lib : Library) where
  -- Lines 87 to 94: the first and the last record meet the schema.
  check_edge : Record → Result (Unit {0})
  check_edge edge =
      raise_if (not (is_nil (lib.schema_errors edge)))
        (fails "schema" "record" edge.protected.run_id edge.protected.seq)

  -- The reason of `verify_delegation` as a failure of the run.
  accept_delegation : Delegation → String → ℕ → Result Delegation
  accept_delegation delegation run_id seq = do
    problem ← verify_delegation lib delegation
    raise_if (is_some problem) (fails "delegation" (or_else problem "") run_id seq)
    ok delegation

  -- The delegation that a whole run's first record names.
  bound_delegation : Option Binding → Dict Delegation → String → Result Delegation
  bound_delegation binding delegations run_id = do
    bound ← or_raise binding (fails "delegation" "run_start lacks sealedrun.delegation" run_id 0)
    delegation ←
        or_raise (lookup bound.delegation_id delegations)
          (fails "delegation" "delegation not in bundle" run_id 0)
    raise_if (not (delegation.hash == bound.hash))
        (fails "delegation" "delegation hash mismatch" run_id 0)
    ok delegation

  -- `_delegation_for_run`
  unfoldable pub delegation_for_run : Record → Dict Delegation → Result Delegation
  unfolding accept_delegation bound_delegation
  delegation_for_run first delegations = do
    delegation ←
        (if nat_eq first.protected.seq 0
          then bound_delegation (extensions_of first.protected).delegation delegations
              first.protected.run_id
          else or_raise
              (find (λ d. d.protected.agent_id == first.protected.agent_id)
                (dict_values delegations))
              (fails "delegation" "no delegation for agent" first.protected.run_id
                first.protected.seq))
    accept_delegation delegation first.protected.run_id first.protected.seq

  -- Lines 97 to 99: the hash that the first record must chain from.
  unfoldable pub first_prev_hash : Record → Option String → Result String
  first_prev_hash first expected = do
    prev ← elim expected [ none ↦ zero_hash first.protected.hash_alg | some h ↦ ok h ]
    zero_or_prev ←
        (if nat_eq first.protected.seq 0 then zero_hash first.protected.hash_alg else ok prev)
    raise_if (not (prev == zero_or_prev)) (
        verification "chain" "run starts at seq 0 but prev hash is not zero"
          (some first.protected.run_id) (some 0))
    ok prev

  -- `Scope.parse`, its ValueError a failure of the run.
  scope_of : Delegation → String → ℕ → Result Scope
  scope_of delegation run_id seq = elim (Scope.parse delegation.protected.scope) [
    | ok scope ↦ ok scope
    | err e ↦ err (fails "schema" "scope" run_id seq)
  ]

  -- Lines 95 to 113: what the loop works with, and where it starts.
  prepare : Record → List Record → Dict Delegation → Option String → Result (Setting × Progress)
  unfolding scope_of
  prepare first rest delegations expected = do
    prev ← first_prev_hash first expected
    delegation ← delegation_for_run first delegations
    scope ← scope_of delegation first.protected.run_id first.protected.seq
    agent_keys ← keyset_from_json delegation.protected.agent_keys
    ok (
      record {
        run_id = first.protected.run_id;
        hash_alg = first.protected.hash_alg;
        first_seq = first.protected.seq;
        records = first ∷ rest;
        delegation = delegation;
        scope = scope;
        agent_keys = agent_keys;
      },
      record {
        prev_hash = prev;
        seen_ids = [];
        waiting = [];
        prompt = none;
        ended = false;
        policy_set_hash = none;
        report = record {
          run_id = first.protected.run_id;
          record_count = length (first ∷ rest);
          first_seq = first.protected.seq;
          last_hash = (last first rest).hash;
          complete = false;
          anchors = 0;
          anchors_witness_verified = 0;
          labels_sent_to_cloud = [];
          findings = [];
          receipts_proxy = 0;
          receipts_self_reported = 0;
          system_prompt_changes = [];
        };
      },
    )

  -- `verify_run`
  unfoldable pub verify_run :
      Options → List Record → Dict Delegation → Option String → Result RunReport
  unfolding check_edge prepare
  verify_run options [] delegations expected =
      err (verification "empty" "run has no records" none none)
  verify_run options (first ∷ rest) delegations expected = do
    check_edge first
    check_edge (last first rest)
    (setting, start) ← prepare first rest delegations expected
    p ← verify_loop lib options setting first.protected.seq (first ∷ rest) start
    ok (record p.report { complete = p.ended })
