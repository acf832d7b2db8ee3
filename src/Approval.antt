-- ===== src/Approval.antt =====
-- packages/sealedrun-py/src/sealedrun/approval.py: binding `require_approval` steps to answers.
pub mod Budget
use sealedrun.Prelude.{
  ℕ, String, ◌==◌, Bool, false, ◌&&◌, not, Option, none, some, List, [], ◌∷◌, Dict, lookup, insert,
  or_else, if◌then◌else◌,
}
use sealedrun.Model.{Doc, PayloadRef, extensions_of}
use sealedrun.Scope.{Finding}

-- An answer: the seq of its record and the decision.
abbrev pub Answer : Type 0
Answer = ℕ × String

-- `self._open`; `append` and `pop` work at the end of a list, which is the head here.
abbrev pub Waiting : Type 0
Waiting = Dict (List Answer)

abbrev pub answers_for : String → Waiting → List Answer
answers_for request_hash waiting = or_else (lookup request_hash waiting) []

-- `(record.get("payload") or {}).get("request_hash")`
request_hash_of : Option PayloadRef → Option String
request_hash_of none = none
request_hash_of (some ref) = ref.request_hash

-- An empty text is as good as none.
nonempty : Option String → Option String
nonempty none = none
nonempty (some h) = if h == "" then none else some h

-- The branch of a `human_approval` record.
remember : ℕ → Option String → Option String → Waiting → Waiting
remember seq (some decision) (some h) waiting =
    insert h ((seq, decision) ∷ answers_for h waiting) waiting
remember seq _ _ waiting = waiting

-- The guard of an executed step that required approval.
needs_answer : Doc → Bool
needs_answer doc = elim doc.policy [
  | none ↦ false
  | some policy ↦ policy.decision == "require_approval" && not (doc.outcome == "blocked")
]

abbrev pub problem : Doc → String → Finding
problem doc check = record { check = check; seq = doc.seq; record_id = doc.record_id; detail = [] }

-- The step takes the last answer off the list of its request.
answer_step : Doc → String → List Answer → Waiting → List Finding × Waiting
answer_step doc h [] waiting = (problem doc "approval.missing" ∷ [], waiting)
answer_step doc h ((approved_at, decision) ∷ rest) waiting = (
  (if decision == "denied" then problem doc "approval.denied_but_executed" ∷ [] else []),
  insert h rest waiting,
)

execute_step : Doc → Option String → Waiting → List Finding × Waiting
unfolding answer_step
execute_step doc none waiting = (problem doc "approval.missing" ∷ [], waiting)
execute_step doc (some h) waiting = answer_step doc h (answers_for h waiting) waiting

-- `Approvals.findings`
unfoldable pub findings : Doc → Waiting → List Finding × Waiting
unfolding request_hash_of nonempty remember needs_answer execute_step
findings doc waiting =
    let h = nonempty (request_hash_of doc.payload) in
    if doc.kind == "human_approval"
    then ([], remember doc.seq (extensions_of doc).approval h waiting)
    else if needs_answer doc
    then execute_step doc h waiting
    else ([], waiting)
