-- ===== src/Run/Parent.antt =====
-- `parent_of` and `check_parent_links` of verify.py: the links between the runs of a bundle.
use sealedrun.Prelude.{
  String, ◌==◌, Bool, true, false, not, Option, none, some, List, [], ◌∷◌, Dict, lookup, find,
  is_some, or_else, if◌then◌else◌, opt_eq, ltb,
}
use sealedrun.Result.{verification, key_error, Result, ok, err, raise_if, or_raise, ◌>>=◌, ◌>>◌}
use sealedrun.Model.{Record, Delegation, ScopeDoc, extensions_of}
use sealedrun.Library.{Library}
use sealedrun.Delegation.{timestamp}
use sealedrun.Scope
use sealedrun.Scope.{scope_within}

pub record ParentLink : Type 0 where
  pub run_id : String
  pub record_id : String
  pub delegation_hash : String

-- `parent_of`; a link that lacks one of its keys raises KeyError.
unfoldable pub parent_of : List Record → Result (Option ParentLink)
parent_of [] = ok none
parent_of (first ∷ rest) =
    if not (first.protected.kind == "run_start")
    then ok none
    else elim (extensions_of first.protected).delegation [
      | none ↦ ok none
      | some binding ↦ elim binding.parent_run_id [
        | none ↦ ok none
        | some run_id ↦ do
          record_id ← or_raise binding.parent_record_id (key_error "parent_record_id")
          delegation_hash ←
              or_raise binding.parent_delegation_hash (key_error "parent_delegation_hash")
          ok (
              some (record {
                run_id = run_id;
                record_id = record_id;
                delegation_hash = delegation_hash;
              }))
      ]
    ]

-- The first record's binding, where it has one.
abbrev pub binding_hash : Record → Option String
binding_hash first = elim (extensions_of first.protected).delegation [
  | none ↦ none
  | some b ↦ some b.hash
]

-- `_bound_delegation(records, delegations).get("scope")`
unfoldable pub bound_scope : Record → Dict Delegation → Option ScopeDoc
bound_scope first delegations = elim (extensions_of first.protected).delegation [
  | none ↦ none
  | some binding ↦ elim (lookup binding.delegation_id delegations) [
    | none ↦ none
    | some delegation ↦ delegation.protected.scope
  ]
]

module _ (lib : Library) where
  -- The checks of one child run, its link and the parent's records given.
  unfoldable pub check_link :
      String → Record → ParentLink → Record → List Record → Dict Delegation → Result (Unit {0})
  check_link run_id first parent parent_first parent_rest delegations = do
    asked ←
        or_raise
          (find (λ r. r.protected.record_id == parent.record_id) (parent_first ∷ parent_rest))
          (verification "parent.record" "parent record not in parent run" (some run_id) (some 0))
    raise_if (not (asked.protected.kind == "tool_call"))
        (verification "parent.kind" "parent record is not a tool_call" (some run_id) (some 0))
    started ← timestamp lib first.protected.occurred_at
    parent_started ← timestamp lib parent_first.protected.occurred_at
    raise_if (ltb started parent_started) (
        verification "parent.time" "run_start is before the parent run's run_start" (some run_id)
          (some 0))
    raise_if (not (opt_eq (binding_hash parent_first) (some parent.delegation_hash))) (
        verification "parent.delegation" "parent_delegation_hash differs from parent run"
          (some run_id) (some 0))
    child_scope ← Scope.parse (bound_scope first delegations)
    parent_scope ← Scope.parse (bound_scope parent_first delegations)
    raise_if (is_some (scope_within child_scope parent_scope)) (
        verification "parent.scope" (or_else (scope_within child_scope parent_scope) "")
          (some run_id) (some 0))

  -- The link against the records of its parent run, where the bundle has that run.
  unfoldable pub check_known :
      String → Record → ParentLink → Option (List Record) → Dict Delegation → Result Bool
  check_known run_id first parent none delegations = ok true
  check_known run_id first parent (some []) delegations =
      err (verification "parent.record" "parent record not in parent run" (some run_id) (some 0))
  check_known run_id first parent (some (parent_first ∷ parent_rest)) delegations = do
    check_link run_id first parent parent_first parent_rest delegations
    ok false

  -- One turn of the loop of `check_parent_links`: whether the run's parent is unresolved.
  unfoldable pub check_run_link :
      Dict (List Record) → Dict Delegation → String → List Record → Result Bool
  check_run_link runs delegations run_id [] = ok false
  check_run_link runs delegations run_id (first ∷ rest) = do
    link ← parent_of (first ∷ rest)
    elim link [
      | none ↦ ok false
      | some parent ↦ check_known run_id first parent (lookup parent.run_id runs) delegations
    ]

  -- The loop over the runs left; `all_runs` is the whole dictionary.
  unfoldable pub check_links :
      Dict (List Record) → Dict Delegation → Dict (List Record) → Result (List String)
  check_links all_runs delegations [] = ok []
  check_links all_runs delegations ((run_id, records) ∷ runs) = do
    open_parent ← check_run_link all_runs delegations run_id records
    unresolved ← check_links all_runs delegations runs
    ok (if open_parent then run_id ∷ unresolved else unresolved)

  -- `check_parent_links`
  unfoldable pub check_parent_links : Dict (List Record) → Dict Delegation → Result (List String)
  check_parent_links runs delegations = check_links runs delegations runs
