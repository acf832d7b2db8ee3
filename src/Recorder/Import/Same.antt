-- ===== src/Recorder/Import/Same.antt =====
-- `known.document != delegation` (services/recorder/src/sealedrun_recorder/importer.py): the equality of
-- two delegation documents, whose dictionaries are compared without their order.
use sealedrun.Prelude.{
  String, ◌==◌, Bool, true, false, ◌&&◌, Option, none, some, List, [], ◌∷◌, all, length, nat_eq,
  opt_eq, Dict, lookup,
}
use sealedrun.Model.{ScopeDoc, DelegationDoc, Delegation}

same_texts : List String → List String → Bool
same_texts [] [] = true
same_texts (x ∷ xs) (y ∷ ys) = x == y && same_texts xs ys
same_texts _ _ = false

same_dict : Dict String → Dict String → Bool
same_dict a b = nat_eq (length a) (length b) && all (λ (k, v). opt_eq (lookup k b) (some v)) a

same_dicts : List (Dict String) → List (Dict String) → Bool
unfolding same_dict
same_dicts [] [] = true
same_dicts (a ∷ as') (b ∷ bs) = same_dict a b && same_dicts as' bs
same_dicts _ _ = false

same_option : {A : Type 0} → (A → A → Bool) → Option A → Option A → Bool
same_option same none none = true
same_option same (some a) (some b) = same a b
same_option same _ _ = false

same_scope : ScopeDoc → ScopeDoc → Bool
unfolding same_option same_texts same_dicts
same_scope a b =
    same_option same_dicts a.allowed_targets b.allowed_targets
    && same_option same_texts a.allowed_locations b.allowed_locations
    && same_option same_texts a.denied_labels b.denied_labels
    && same_option nat_eq a.max_records b.max_records

same_protected : DelegationDoc → DelegationDoc → Bool
unfolding same_scope same_dict same_option
same_protected a b =
    a.spec_version == b.spec_version
    && a.delegation_id == b.delegation_id
    && a.principal_id == b.principal_id
    && same_dict a.principal_keys b.principal_keys
    && a.agent_id == b.agent_id
    && same_dict a.agent_keys b.agent_keys
    && a.not_before == b.not_before
    && a.not_after == b.not_after
    && a.hash_alg == b.hash_alg
    && opt_eq a.agent_name b.agent_name
    && same_option same_scope a.scope b.scope

unfoldable pub same_delegation : Delegation → Delegation → Bool
unfolding same_protected same_dict same_option
same_delegation a b =
    same_protected a.protected b.protected
    && a.hash == b.hash
    && same_dict a.signatures b.signatures
    && same_option same_dict a.principal_signatures b.principal_signatures
