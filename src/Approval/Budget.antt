-- ===== src/Approval/Budget.antt =====
-- approval.py: the answers of a run and the steps that use them up.
use sealedrun.Prelude.{
  ℕ, ◌+◌, ◌≤◌, String, ◌==◌, ◌≡◌, refl, ◌∙◌, subst, Bool, true, false, ◌&&◌, not, Option, none,
  some, List, [], ◌∷◌, arith, eq_iff, is_nil, opt_eq, if◌then◌else◌, insert, lookup-insert,
  Bool-cases, inl, inr,
}
use sealedrun.Model.{Doc, extensions_of}
use sealedrun.Approval.{
  Answer, Waiting, answers_for, request_hash_of, nonempty, remember, needs_answer, answer_step,
  execute_step, findings,
}

-- The answers of a list that are not refusals.
abbrev pub approvals : List Answer → ℕ
approvals [] = 0
approvals ((seq, decision) ∷ answers) =
    if decision == "denied" then approvals answers else approvals answers + 1

-- The request that a record is about, where it names one.
unfoldable pub about : Doc → Option String
unfolding request_hash_of nonempty
about doc = nonempty (request_hash_of doc.payload)

approves : Option String → Bool
approves none = false
approves (some decision) = not (decision == "denied")

-- Whether a record is a human's approval of a request.
unfoldable pub is_approval : String → Doc → Bool
unfolding approves about
is_approval h doc =
    doc.kind == "human_approval"
    && approves (extensions_of doc).approval
    && opt_eq (about doc) (some h)

-- Whether a record is a step that required an approval of a request, ran, and is not complained of.
unfoldable pub is_cleared : String → Doc → Waiting → Bool
unfolding about needs_answer
is_cleared h doc waiting =
    not (doc.kind == "human_approval")
    && needs_answer doc
    && opt_eq (about doc) (some h)
    && is_nil (findings doc waiting).0

abbrev one_if : Bool → ℕ
one_if true = 1
one_if false = 0

-- The approvals of a request in a run, and its steps that were cleared behind `waiting`.
abbrev pub approved : String → List Doc → ℕ
approved h [] = 0
approved h (doc ∷ docs) = one_if (is_approval h doc) + approved h docs

abbrev pub cleared : String → List Doc → Waiting → ℕ
cleared h [] waiting = 0
cleared h (doc ∷ docs) waiting =
    one_if (is_cleared h doc waiting) + cleared h docs (findings doc waiting).1

answers_for-insert :
    (h k : String) (answers : List Answer) (waiting : Waiting)
    → answers_for h (insert k answers waiting) ≡ (if k == h then answers else answers_for h waiting)
answers_for-insert h k answers waiting = ground (arith, lookup-insert k h answers waiting)

approvals-remember :
    (h : String) (seq : ℕ) (decision asked : Option String) (waiting : Waiting)
    → approvals (answers_for h (remember seq decision asked waiting))
      ≤ one_if (approves decision && opt_eq asked (some h)) + approvals (answers_for h waiting)
unfolding remember approves
approvals-remember h seq none asked waiting = omega arith
approvals-remember h seq (some decision) none waiting = omega arith
approvals-remember h seq (some decision) (some k) waiting =
    ground
      (arith, eq_iff k h, answers_for-insert h k ((seq, decision) ∷ answers_for k waiting) waiting)

approvals-answer_step :
    (h k : String) (doc : Doc) (answers : List Answer) (waiting : Waiting)
    → answers_for k waiting ≡ answers
    → one_if (k == h && is_nil (answer_step doc k answers waiting).0)
        + approvals (answers_for h (answer_step doc k answers waiting).1)
      ≤ approvals (answers_for h waiting)
unfolding answer_step
approvals-answer_step h k doc [] waiting e = elim (Bool-cases (k == h)) [
  | inl same ↦ rw same (omega arith)
  | inr other ↦ rw other (omega arith)
]
approvals-answer_step h k doc ((seq, decision) ∷ rest) waiting e = elim (Bool-cases (k == h)) [
  | inl same ↦
      let at_h : answers_for h waiting ≡ (seq, decision) ∷ rest =
        subst (λ (x : String). answers_for x waiting ≡ (seq, decision) ∷ rest) ((eq_iff k h).0 same)
          e in
      let behind : answers_for h (insert k rest waiting) ≡ rest =
        answers_for-insert h k rest waiting ∙ rw same in
      elim (Bool-cases (decision == "denied")) [
        | inl refused ↦ rw (same, refused, at_h, behind) (rw refused (omega arith))
        | inr granted ↦ rw (same, granted, at_h, behind) (rw granted (omega arith))
      ]
  | inr other ↦
      let behind : answers_for h (insert k rest waiting) ≡ answers_for h waiting =
        answers_for-insert h k rest waiting ∙ rw other in
      rw (other, behind) (omega arith)
]

approvals-execute_step :
    (h : String) (doc : Doc) (asked : Option String) (waiting : Waiting)
    → one_if (opt_eq asked (some h) && is_nil (execute_step doc asked waiting).0)
        + approvals (answers_for h (execute_step doc asked waiting).1)
      ≤ approvals (answers_for h waiting)
unfolding execute_step answer_step
approvals-execute_step h doc none waiting = omega arith
approvals-execute_step h doc (some k) waiting =
    approvals-answer_step h k doc (answers_for k waiting) waiting refl

-- One record takes off an approval for the step that it clears, and adds the one that it gives.
approvals-findings :
    (h : String) (doc : Doc) (waiting : Waiting)
    → one_if (is_cleared h doc waiting) + approvals (answers_for h (findings doc waiting).1)
      ≤ one_if (is_approval h doc) + approvals (answers_for h waiting)
unfolding is_cleared is_approval about findings
approvals-findings h doc waiting = elim (Bool-cases (doc.kind == "human_approval")) [
  | inl human ↦
      rw human (
        omega
          (arith, approvals-remember h doc.seq (extensions_of doc).approval (about doc) waiting))
  | inr other ↦ elim (Bool-cases (needs_answer doc)) [
    | inl gated ↦
        rw (other, gated) (omega (arith, approvals-execute_step h doc (about doc) waiting))
    | inr free ↦ rw (other, free) (omega arith)
  ]
]

cleared_within :
    (h : String) (docs : List Doc) (waiting : Waiting)
    → cleared h docs waiting ≤ approved h docs + approvals (answers_for h waiting)
cleared_within h [] waiting = omega arith
cleared_within h (doc ∷ docs) waiting =
    omega (arith, approvals-findings h doc waiting, cleared_within h docs (findings doc waiting).1)

-- However the records of a run are ordered, the steps of a request that required an approval, ran
-- and have no finding are no more than the human approvals of this request in the run: an approval
-- lets one step through, and a refusal none.
pub cleared-approved : (h : String) (docs : List Doc) → cleared h docs [] ≤ approved h docs
cleared-approved h docs = omega (arith, cleared_within h docs [])
