-- ===== src/Tests/DescentExamples.antt =====
-- A run that the tool call of another run asked for.
use sealedrun.Prelude.{List, Dict, ◌≡◌, refl, some, [], ◌∷◌, sorted_set, sorted_minus}
use sealedrun.Result.{ok}
use sealedrun.Model.{Record, no_extensions}
use sealedrun.Scope
use sealedrun.Scope.{scope_within}
use sealedrun.Run.Parent.{
  ParentLink, check_parent_links, check_links, check_run_link, check_known, check_link, parent_of,
  bound_scope,
}
use sealedrun.Run.Descent.{IsAskedFor, check_parent_links-IsAskedFor}
use sealedrun.Tests.Toy.{toy, toy_delegation, toy_first, toy_call, toy_doc, toy_seal}

abbrev child_first : Record
child_first = toy_seal (record (toy_doc 0 "c" "run_start" "0") {
  run_id = "s";
  extensions = some (record no_extensions {
    delegation = some (record {
      delegation_id = "d";
      hash = "h";
      parent_run_id = some "r";
      parent_record_id = some "b";
      parent_delegation_hash = some "h";
    });
  });
})

abbrev child_link : ParentLink
child_link = record { run_id = "r"; record_id = "b"; delegation_hash = "h" }

abbrev family : Dict (List Record)
family = ("s", child_first ∷ []) ∷ ("r", toy_first ∷ toy_call ∷ []) ∷ []

links_accepted : check_parent_links toy family (("d", toy_delegation) ∷ []) ≡ ok []
unfolding check_parent_links check_links check_run_link check_known check_link parent_of bound_scope
    Scope.parse scope_within sorted_set sorted_minus
links_accepted = refl

child_names_parent : parent_of (child_first ∷ []) ≡ ok (some child_link)
unfolding parent_of
child_names_parent = refl

check_parent_links-IsAskedFor_example :
    IsAskedFor child_first child_link toy_first (toy_call ∷ []) (("d", toy_delegation) ∷ [])
check_parent_links-IsAskedFor_example =
    check_parent_links-IsAskedFor toy family (("d", toy_delegation) ∷ []) [] "s" child_first []
      child_link toy_first (toy_call ∷ []) links_accepted refl child_names_parent refl
