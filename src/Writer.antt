-- ===== src/Writer.antt =====
-- packages/sealedrun-py/src/sealedrun/records.py: the append-only writer of one run. A method
-- returns the new writer with its result, or raises and leaves the writer as it was.
pub mod Revert
pub mod Chained
use sealedrun.Prelude.{
  ℕ, ◌+◌, String, ◌==◌, Bool, true, false, ◌&&◌, ◌||◌, not, Option, none, some, List, [], ◌∷◌, ◌++◌,
  length, last, is_nil, is_some, or_else, sorted_set, Dict, lookup, if◌then◌else◌, nat_eq, leb,
}
use sealedrun.Result.{value_error, Result, ok, err, raise_if, or_raise, ◌>>=◌, ◌>>◌}
use sealedrun.Model.{
  Bytes, Doc, Record, Delegation, Binding, Extensions, no_extensions, has_extensions, Actor, Target,
  PayloadRef, Policy,
}
use sealedrun.Library.{Library}
use sealedrun.Hashing.{payload_digest, zero_hash}
use sealedrun.Keys.{Signers}
use sealedrun.Signing.{domain_record, seal}

-- A media type that is empty or `None` is left out.
abbrev pub named : Option String → Option String
named none = none
named (some text) = if text == "" then none else some text

module _ (lib : Library) where
  -- The digest of a body, where there is one.
  body_digest : String → Option Bytes → Result (Option String)
  body_digest hash_alg none = ok none
  body_digest hash_alg (some body) = do d ← payload_digest lib hash_alg body; ok (some d)

  abbrev size_of : Option Bytes → Option ℕ
  size_of none = none
  size_of (some body) = some (length body)

  -- A media type is kept only beside its body.
  abbrev media_of : Option Bytes → Option String → Option String
  media_of none media = none
  media_of (some body) media = named media

  -- `payload_ref`
  unfoldable pub payload_ref :
      String
      → Option Bytes
      → Option Bytes
      → String
      → Option String
      → Option String
      → Result PayloadRef
  unfolding body_digest
  payload_ref hash_alg request response storage request_media_type response_media_type = do
    request_hash ← body_digest hash_alg request
    response_hash ← body_digest hash_alg response
    ok (record {
      storage = storage;
      request_hash = request_hash;
      request_size = size_of request;
      request_media_type = media_of request request_media_type;
      response_hash = response_hash;
      response_size = size_of response;
      response_media_type = media_of response response_media_type;
    })

-- `RunWriter`. The clock and the id factory are read once for each record: the two values stand
-- among the arguments of `preview`.
pub record Writer : Type 0 where
  pub agent : Signers
  pub delegation : Delegation
  pub run_id : String
  pub hash_alg : String
  pub principal_id : String
  pub agent_id : String
  pub closed : Bool
  pub records : List Record
  pub seq : ℕ
  pub head : String

-- `RunWriter.__init__`, the id given or generated.
unfoldable pub new_writer : Signers → Delegation → String → Result Writer
new_writer agent delegation run_id = do
  zero ← zero_hash delegation.protected.hash_alg
  ok (record {
    agent = agent;
    delegation = delegation;
    run_id = run_id;
    hash_alg = delegation.protected.hash_alg;
    principal_id = delegation.protected.principal_id;
    agent_id = delegation.protected.agent_id;
    closed = false;
    records = [];
    seq = 0;
    head = zero;
  })

-- `RunWriter.resume`
unfoldable pub resume : Signers → Delegation → String → ℕ → String → Result Writer
unfolding new_writer
resume agent delegation run_id seq head = do
  raise_if (not (leb 1 seq)) (value_error "a run with no records cannot be resumed")
  writer ← new_writer agent delegation run_id
  ok (record writer { seq = seq; head = head })

-- The setter of `records`: the chain goes on from the last of them.
unfoldable pub set_records : Writer → List Record → Result Writer
set_records w [] = do
  zero ← zero_hash w.hash_alg
  ok (record w { records = []; seq = 0; head = zero })
set_records w (first ∷ rest) = ok (record w {
  records = first ∷ rest;
  seq = (last first rest).protected.seq + 1;
  head = (last first rest).hash;
})

-- The keyword arguments of `preview`.
pub record Fields : Type 0 where
  pub target : Target
  pub actor : Option Actor
  pub payload : Option PayloadRef
  pub data_labels : List String
  pub policy : Option Policy
  pub outcome : String
  pub parent_record_id : Option String
  pub extensions : Option Extensions
  pub occurred_at : Option ℕ
  pub record_id : Option String
  -- what the clock and the id factory answer
  pub now : ℕ
  pub new_id : String

-- `if extensions:`
unfoldable pub kept_extensions : Option Extensions → Option Extensions
kept_extensions none = none
kept_extensions (some e) = if has_extensions e then some e else none

-- `record_id or self._new_id()`
abbrev or_new : Option String → String → String
or_new none new_id = new_id
or_new (some given) new_id = if given == "" then new_id else given

module _ (lib : Library) where
  -- `preview`
  unfoldable pub preview : Writer → String → Fields → Result Doc
  unfolding kept_extensions
  preview w kind fields = do
    raise_if w.closed (value_error "run is closed")
    raise_if (nat_eq w.seq 0 && not (kind == "run_start"))
        (value_error "first record must be run_start")
    ok (record {
      spec_version = "0.1";
      record_id = or_new fields.record_id fields.new_id;
      run_id = w.run_id;
      seq = w.seq;
      occurred_at = lib.format_timestamp (or_else fields.occurred_at fields.now);
      principal_id = w.principal_id;
      agent_id = w.agent_id;
      kind = kind;
      actor = or_else fields.actor (record { type = "agent"; id = w.agent_id });
      target = fields.target;
      data_labels = sorted_set fields.data_labels;
      outcome = fields.outcome;
      hash_alg = w.hash_alg;
      prev_hash = w.head;
      payload = fields.payload;
      policy = fields.policy;
      parent_record_id = fields.parent_record_id;
      extensions = kept_extensions fields.extensions;
    })

  -- `RunWriter.seal`
  unfoldable pub seal_doc : Writer → Doc → Result (Writer × Record)
  seal_doc w doc = do
    raise_if (not (nat_eq doc.seq w.seq) || not (doc.prev_hash == w.head))
        (value_error "document was previewed for another position in the chain")
    entry ← seal lib lib.canonical_record (λ d. d.hash_alg) doc domain_record w.agent
    ok (record w { records = w.records ++ entry ∷ []; seq = w.seq + 1; head = entry.hash }, entry)

  -- `append`
  unfoldable pub append : Writer → String → Fields → Result (Writer × Record)
  append w kind fields = do doc ← preview w kind fields; seal_doc w doc

  abbrev run_target : Target
  run_target = record {
    type = "none";
    name = "run";
    location = none;
    provider = none;
    endpoint = none;
  }

  -- The binding of `start`: the delegation and, where a parent is given, its three values.
  start_binding : Delegation → Option (Dict String) → Result Binding
  start_binding delegation none = ok (record {
    delegation_id = delegation.protected.delegation_id;
    hash = delegation.hash;
    parent_run_id = none;
    parent_record_id = none;
    parent_delegation_hash = none;
  })
  start_binding delegation (some parent) = do
    run_id ← or_raise (lookup "run_id" parent) (value_error "parent lacks run_id")
    record_id ← or_raise (lookup "record_id" parent) (value_error "parent lacks record_id")
    delegation_hash ←
        or_raise (lookup "delegation_hash" parent) (value_error "parent lacks delegation_hash")
    ok (record {
      delegation_id = delegation.protected.delegation_id;
      hash = delegation.hash;
      parent_run_id = some run_id;
      parent_record_id = some record_id;
      parent_delegation_hash = some delegation_hash;
    })

  -- `start`
  unfoldable pub start : Writer → Option (Dict String) → Fields → Result (Writer × Record)
  unfolding start_binding
  start w parent fields = do
    raise_if (not (nat_eq w.seq 0)) (value_error "run already started")
    binding ← start_binding w.delegation parent
    append w "run_start" (record fields {
      target = run_target;
      extensions =
          some (record (or_else fields.extensions no_extensions) { delegation = some binding });
    })

  -- `end`
  unfoldable pub finish : Writer → Fields → Result (Writer × Record)
  finish w fields = do
    (w', entry) ← append w "run_end" (record fields { target = run_target })
    ok (record w' { closed = true }, entry)

-- `self._records.pop()`
abbrev pub init : List Record → List Record
init [] = []
init (r ∷ []) = []
init (r ∷ s ∷ rs) = r ∷ init (s ∷ rs)

-- `revert`; `same_object` is the identity test of the last record with the one given.
unfoldable pub revert : Writer → Record → Bool → Result Writer
revert w entry same_object = do
  raise_if (not (entry.hash == w.head)) (value_error "only the last sealed record can be reverted")
  ok (record w {
    records = if not (is_nil w.records) && same_object then init w.records else w.records;
    seq = entry.protected.seq;
    head = entry.protected.prev_hash;
    closed = if entry.protected.kind == "run_end" then false else w.closed;
  })
