-- ===== src/Delegation.antt =====
-- packages/sealedrun-py/src/sealedrun/delegation.py: issuing a delegation and checking one.
use text.Mathlib.Text.{starts_with}
use sealedrun.Prelude.{
  ℕ, ◌+◌, ◌*◌, String, ◌==◌, Bool, ◌&&◌, not, Option, none, some, or_else, if◌then◌else◌, leb, Dict,
}
use sealedrun.Result.{value_error, Result, ok, or_raise, ◌>>=◌}
use sealedrun.Model.{ScopeDoc, Delegation}
use sealedrun.Library.{Library}
use sealedrun.Keys.{Signers, kid, public, keyset_from_json}
use sealedrun.Signing.{domain_delegation, seal, check_hash, check_signatures}

-- 365 days, in microseconds.
abbrev pub year : ℕ
year = 365 * 86400 * 1000000

-- `given or other`, of texts.
abbrev or_text : Option String → String → String
or_text none other = other
or_text (some given) other = if given == "" then other else given

module _ (lib : Library) where
  -- A timestamp of another form raises ValueError.
  abbrev pub timestamp : String → Result ℕ
  timestamp text = or_raise (lib.parse_timestamp text) (value_error "timestamp")

  abbrev pub delegation_hash_ok : Delegation → Bool
  delegation_hash_ok = check_hash lib lib.canonical_delegation (λ d. d.hash_alg)

  -- `create_delegation`; `now` and `new_id` are what the clock and uuid4 give.
  unfoldable pub create_delegation :
      (now : ℕ) (new_id : String) (principal : Signers) (agent_public : Dict String)
      → Option ℕ
      → Option ℕ
      → Option String
      → Option ScopeDoc
      → String
      → Option String
      → Option String
      → Result Delegation
  create_delegation now new_id principal agent_public not_before not_after agent_name scope hash_alg
        delegation_id principal_id =
      do
        let start = or_else not_before now
        let end = or_else not_after (start + year)
        principal_kid ← kid lib (public lib principal)
        agent_kid ← kid lib agent_public
        seal lib lib.canonical_delegation (λ d. d.hash_alg)
            (record {
              spec_version = "0.1";
              delegation_id = or_text delegation_id new_id;
              principal_id = or_text principal_id principal_kid;
              principal_keys = public lib principal;
              agent_id = agent_kid;
              agent_keys = agent_public;
              not_before = lib.format_timestamp start;
              not_after = lib.format_timestamp end;
              hash_alg = hash_alg;
              agent_name = agent_name;
              scope = scope;
            })
            domain_delegation principal

  -- `verify_delegation`: the reason for the first failure, or `None`.
  unfoldable pub verify_delegation : Delegation → Result (Option String)
  verify_delegation doc = do
    principal_keys ← keyset_from_json doc.protected.principal_keys
    agent_keys ← keyset_from_json doc.protected.agent_keys
    agent_kid ← kid lib agent_keys
    principal_kid ← kid lib principal_keys
    let times = (do
      start ← timestamp doc.protected.not_before
      end ← timestamp doc.protected.not_after
      ok (leb end start))
    if not (agent_kid == doc.protected.agent_id)
        then ok (some "agent_id does not match agent_keys")
        else if starts_with doc.protected.principal_id "did:"
        then ok (some "did principal_id is not supported: no resolver")
        else if not (principal_kid == doc.protected.principal_id)
        then ok (some "principal_id does not match principal_keys")
        else do
          backwards ← times
          ok (
              if backwards
              then some "not_before is not earlier than not_after"
              else if not (delegation_hash_ok doc)
              then some "hash mismatch"
              else if not (check_signatures lib doc domain_delegation principal_keys)
              then some "principal signature invalid"
              else none)

  -- `covers`: both ends inclusive.
  unfoldable pub covers : Delegation → ℕ → Result Bool
  covers doc at = do
    start ← timestamp doc.protected.not_before
    end ← timestamp doc.protected.not_after
    ok (leb start at && leb at end)
