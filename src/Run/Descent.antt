-- ===== src/Run/Descent.antt =====
-- verify.py: a run and the run that asked for it.
use sealedrun.Prelude.{
  String, ◌==◌, ◌≡◌, refl, subst, Bool-cases, inl, inr, Bool, true, false, Option, none, some, List,
  [], ◌∷◌, arith, eq_iff, find, Dict, lookup, opt_eq, opt_eq-true, is_some, not, ltb,
}
use sealedrun.Result.{
  ok, raise_if, or_raise, ◌>>◌, >>=-eq-ok, >>-eq-ok, raise_if-eq-ok, or_raise-eq-ok,
}
use sealedrun.Model.{Record, Delegation}
use sealedrun.Library.{Library}
use sealedrun.Delegation.{timestamp}
use sealedrun.Scope
use sealedrun.Scope.{Scope, scope_within}
use sealedrun.Run.Parent.{
  ParentLink, parent_of, binding_hash, bound_scope, check_link, check_known, check_run_link,
  check_links, check_parent_links,
}

not-false : (a : Bool) → not a ≡ false → a ≡ true
not-false a h = ground arith

is_some-false : {A : Type 0} (o : Option A) → is_some o ≡ false → o ≡ none
is_some-false none h = refl
is_some-false (some a) h = absurd (cc h)

some-injective : {A : Type 0} {a b : A} → some a ≡ some b → a ≡ b
some-injective h = cc

-- A run that was asked for by a tool call of its parent run, under the delegation that it names,
-- and whose scope is within the parent's.
pub record IsAskedFor (first : Record) (parent : ParentLink) (parent_first : Record)
    (parent_rest : List Record) (delegations : Dict Delegation) : Type 0 where
  pub asked : Record
  pub found :
      find (λ r. r.protected.record_id == parent.record_id) (parent_first ∷ parent_rest)
      ≡ some asked
  pub call : asked.protected.kind ≡ "tool_call"
  pub bound : binding_hash parent_first ≡ some parent.delegation_hash
  pub child_scope : Scope
  pub parent_scope : Scope
  pub child_parsed : Scope.parse (bound_scope first delegations) ≡ ok child_scope
  pub parent_parsed : Scope.parse (bound_scope parent_first delegations) ≡ ok parent_scope
  pub within : scope_within child_scope parent_scope ≡ none

module _ (lib : Library) where
  check_link-IsAskedFor :
      (run_id : String) (first : Record) (parent : ParentLink) (parent_first : Record)
      (parent_rest : List Record) (delegations : Dict Delegation)
      → check_link lib run_id first parent parent_first parent_rest delegations ≡ ok tt
      → IsAskedFor first parent parent_first parent_rest delegations
  unfolding check_link
  check_link-IsAskedFor run_id first parent parent_first parent_rest delegations h =
      let (asked, a, h1) =
        >>=-eq-ok
          (or_raise
            (find (λ r. r.protected.record_id == parent.record_id) (parent_first ∷ parent_rest)) _)
          _ h in
      let (h2, b) = >>-eq-ok (raise_if (not (asked.protected.kind == "tool_call")) _) _ h1 in
      let (started, c, h3) = >>=-eq-ok (timestamp lib first.protected.occurred_at) _ h2 in
      let (parent_started, d, h4) =
        >>=-eq-ok (timestamp lib parent_first.protected.occurred_at) _ h3 in
      let (h5, e) = >>-eq-ok (raise_if (ltb started parent_started) _) _ h4 in
      let (h6, f) =
        >>-eq-ok
          (raise_if (not (opt_eq (binding_hash parent_first) (some parent.delegation_hash))) _) _
          h5 in
      let (child_scope, g, h7) = >>=-eq-ok (Scope.parse (bound_scope first delegations)) _ h6 in
      let (parent_scope, i, h8) =
        >>=-eq-ok (Scope.parse (bound_scope parent_first delegations)) _ h7 in
      record {
        asked = asked;
        found = or_raise-eq-ok _ _ a;
        call = (eq_iff asked.protected.kind "tool_call").0 (not-false _ (raise_if-eq-ok _ _ b));
        bound = opt_eq-true _ _ (not-false _ (raise_if-eq-ok _ _ f));
        child_scope = child_scope;
        parent_scope = parent_scope;
        child_parsed = g;
        parent_parsed = i;
        within = is_some-false _ (raise_if-eq-ok _ _ h8);
      }

  check_run_link-IsAskedFor :
      (runs : Dict (List Record)) (delegations : Dict Delegation) (run_id : String) (first : Record)
      (rest : List Record) (parent : ParentLink) (parent_first : Record) (parent_rest : List Record)
      (unresolved : Bool)
      → parent_of (first ∷ rest) ≡ ok (some parent)
      → lookup parent.run_id runs ≡ some (parent_first ∷ parent_rest)
      → check_run_link lib runs delegations run_id (first ∷ rest) ≡ ok unresolved
      → IsAskedFor first parent parent_first parent_rest delegations
  unfolding check_run_link check_known
  check_run_link-IsAskedFor runs delegations run_id first rest parent parent_first parent_rest
        unresolved p l h =
      let k : (check_link lib run_id first parent parent_first parent_rest delegations >> ok false)
          ≡ ok unresolved =
        subst
          (λ (o : Option (List Record)).
            check_known lib run_id first parent o delegations ≡ ok unresolved)
          l (rw p at h) in
      check_link-IsAskedFor run_id first parent parent_first parent_rest delegations
        (>>-eq-ok _ _ k).1

  check_links-each :
      (all_runs : Dict (List Record)) (delegations : Dict Delegation) (runs : Dict (List Record))
      (unresolved : List String) (run_id : String) (records : List Record)
      → check_links lib all_runs delegations runs ≡ ok unresolved
      → lookup run_id runs ≡ some records
      → (open_parent : Bool) × (check_run_link lib all_runs delegations run_id records
          ≡ ok open_parent)
  unfolding check_links
  check_links-each all_runs delegations [] unresolved run_id records h l = absurd (cc l)
  check_links-each all_runs delegations ((j, rs) ∷ runs) unresolved run_id records h l =
      let (open_parent, a, h1) = >>=-eq-ok (check_run_link lib all_runs delegations j rs) _ h in
      let (others, b, h2) = >>=-eq-ok (check_links lib all_runs delegations runs) _ h1 in
      elim (Bool-cases (j == run_id)) [
        | inl same ↦ (
          open_parent,
          subst (λ (x : String). check_run_link lib all_runs delegations x records ≡ ok open_parent)
              ((eq_iff j run_id).0 same)
              (subst
                (λ (x : List Record). check_run_link lib all_runs delegations j x ≡ ok open_parent)
                (some-injective (rw same at l)) a),
        )
        | inr other ↦
            check_links-each all_runs delegations runs others run_id records b (rw other at l)
      ]

  -- When the parent links of a set of runs are accepted, every run of the set that names a parent
  -- run in the set was asked for by a tool call of that run, names the delegation that it was made
  -- under, and has a scope within the scope of the parent run's delegation.
  pub check_parent_links-IsAskedFor :
      (runs : Dict (List Record)) (delegations : Dict Delegation) (unresolved : List String)
      (run_id : String) (first : Record) (rest : List Record) (parent : ParentLink)
      (parent_first : Record) (parent_rest : List Record)
      → check_parent_links lib runs delegations ≡ ok unresolved
      → lookup run_id runs ≡ some (first ∷ rest)
      → parent_of (first ∷ rest) ≡ ok (some parent)
      → lookup parent.run_id runs ≡ some (parent_first ∷ parent_rest)
      → IsAskedFor first parent parent_first parent_rest delegations
  unfolding check_parent_links
  check_parent_links-IsAskedFor runs delegations unresolved run_id first rest parent parent_first
        parent_rest h r p l =
      let (open_parent, a) =
        check_links-each runs delegations runs unresolved run_id (first ∷ rest) h r in
      check_run_link-IsAskedFor runs delegations run_id first rest parent parent_first parent_rest
        open_parent p l a
