-- ===== src/Run/Admit.antt =====
-- verify.py: a record that the checks which only reject let through.
use sealedrun.Prelude.{
  ℕ, String, ◌≡◌, Bool, true, false, List, arith, eq_iff, elem, inl, inr, Option-cases,
}
use sealedrun.Result.{ok, >>-eq-ok}
use sealedrun.Model.{Record}
use sealedrun.Library.{Library}
use sealedrun.Signing.{domain_record, check_signatures}
use sealedrun.Signing.RoundTrip.{check_hash-eq_true}
use sealedrun.Delegation.{timestamp, covers}
use sealedrun.Chain.{Link}
use sealedrun.Run.{Options, Progress, admit}
use sealedrun.Run.Checks.{Setting, check_schema, check_place, check_authority, check_bodies}

module _ (lib : Library) where
  -- The record stands in its place, no id repeats, and the run has not ended.
  pub record IsPlaced (setting : Setting) (prev : String) (seen : List String) (ended : Bool)
      (seq : ℕ) (entry : Record) : Type 0 where
    pub link : Link lib setting.run_id setting.hash_alg seq prev entry
    pub fresh : elem entry.protected.record_id seen ≡ false
    pub unended : ended ≡ false

  -- The record is the agent's under its delegation, made while that was valid, and signed.
  pub record IsAuthorised (setting : Setting) (entry : Record) : Type 0 where
    pub agent : entry.protected.agent_id ≡ setting.delegation.protected.agent_id
    pub principal : entry.protected.principal_id ≡ setting.delegation.protected.principal_id
    pub at : ℕ
    pub made_at : timestamp lib entry.protected.occurred_at ≡ ok at
    pub in_time : covers lib setting.delegation at ≡ ok true
    pub signed : check_signatures lib entry domain_record setting.agent_keys ≡ true

  check_place-IsPlaced :
      (setting : Setting) (prev : String) (seen : List String) (ended : Bool) (entry : Record)
      (seq : ℕ)
      → check_place lib setting prev seen ended entry seq ≡ ok tt
      → IsPlaced setting prev seen ended seq entry
  unfolding check_place
  check_place-IsPlaced setting prev seen ended entry seq h = record {
    link = record {
      run = ground (arith, eq_iff entry.protected.run_id setting.run_id);
      alg = ground (arith, eq_iff entry.protected.hash_alg setting.hash_alg);
      place = ground arith;
      linked = ground (arith, eq_iff entry.protected.prev_hash prev);
      hashed = check_hash-eq_true lib lib.canonical_record (λ d. d.hash_alg) entry (ground arith);
    };
    fresh = ground arith;
    unended = ground arith;
  }

  check_authority-IsAuthorised :
      (setting : Setting) (entry : Record) (seq : ℕ)
      → check_authority lib setting entry seq ≡ ok tt
      → IsAuthorised setting entry
  unfolding check_authority
  check_authority-IsAuthorised setting entry seq h =
      elim (Option-cases (lib.parse_timestamp entry.protected.occurred_at)) [
        | inl e ↦ absurd (ground (arith, e))
        | inr (t, e) ↦ record {
          agent =
              ground (arith, eq_iff entry.protected.agent_id setting.delegation.protected.agent_id);
          principal = ground (
            arith,
            eq_iff entry.protected.principal_id setting.delegation.protected.principal_id,
          );
          at = t;
          made_at = rw e;
          in_time = ground (arith, e);
          signed = ground (arith, e);
        }
      ]

  -- What `admit` has settled.
  pub record IsAdmitted (options : Options) (setting : Setting) (p : Progress) (seq : ℕ)
      (entry : Record) : Type 0 where
    pub placed : IsPlaced setting p.prev_hash p.seen_ids p.ended seq entry
    pub authorised : IsAuthorised setting entry
    pub bodies : check_bodies lib options.payloads setting entry seq ≡ ok tt

  pub admit-IsAdmitted :
      (options : Options) (setting : Setting) (seq : ℕ) (entry : Record) (p : Progress)
      {u : Unit {0}}
      → admit lib options setting seq entry p ≡ ok u
      → IsAdmitted options setting p seq entry
  unfolding admit
  admit-IsAdmitted options setting seq entry p h =
      let (h1, _) = >>-eq-ok (check_schema lib entry setting.run_id seq) _ h in
      let (h2, placed) =
        >>-eq-ok (check_place lib setting p.prev_hash p.seen_ids p.ended entry seq) _ h1 in
      let (h3, authorised) = >>-eq-ok (check_authority lib setting entry seq) _ h2 in
      record {
        placed = check_place-IsPlaced setting p.prev_hash p.seen_ids p.ended entry seq placed;
        authorised = check_authority-IsAuthorised setting entry seq authorised;
        bodies = h3;
      }
