-- ===== src/Model.antt =====
-- The JSON documents of SPEC 5 and 6 as typed values: the fields that record.json and
-- delegation.json describe and the code reads (packages/sealedrun-py/src/sealedrun). A key that
-- may be absent is an `Option`. What the code carries along and never reads is kept as raw text.
use sealedrun.Prelude.{
  ℕ, String, Bool, Option, none, some, List, [], Dict, is_some, ◌||◌, not, is_nil,
}

abbrev pub Bytes : Type 0
Bytes = List ℕ

-- `sealedrun.delegation` on `run_start`.
pub record Binding : Type 0 where
  pub delegation_id : String
  pub hash : String
  pub parent_run_id : Option String
  pub parent_record_id : Option String
  pub parent_delegation_hash : Option String

-- `sealedrun.anchor`; of the receipt the digest is read, the rest is the witness's.
pub record WitnessReceipt : Type 0 where
  pub digest : String
  pub body : String

pub record Anchor : Type 0 where
  pub type : String
  pub anchored_hash : String
  pub anchored_seq : ℕ
  pub receipt : WitnessReceipt
  pub witness : String

-- `sealedrun.receipt`.
pub record Receipt : Type 0 where
  pub observed_by : String
  pub kind : String
  pub digest : Option String
  pub digest_alg : Option String
  pub issuer : Option String
  pub status : Option ℕ

-- `sealedrun.llm`.
pub record Llm : Type 0 where
  pub model : String
  pub system_prompt_hash : Option String

-- `record["extensions"]`, a key for each extension that the code reads.
pub record Extensions : Type 0 where
  pub delegation : Option Binding
  pub anchor : Option Anchor
  -- the `policy_set_hash` of `sealedrun.context`
  pub context : Option (Option String)
  pub receipt : Option Receipt
  pub llm : Option Llm
  -- the `run_label` of `sealedrun.proxy`
  pub proxy : Option (Option String)
  -- the `decision` of `sealedrun.approval`
  pub approval : Option String
  -- the `source` of `sealedrun.step`
  pub step : Option String
  pub other : Dict String

abbrev pub no_extensions : Extensions
no_extensions = record {
  delegation = none;
  anchor = none;
  context = none;
  receipt = none;
  llm = none;
  proxy = none;
  approval = none;
  step = none;
  other = [];
}

-- `if extensions:`
abbrev pub has_extensions : Extensions → Bool
has_extensions e =
    is_some e.delegation
    || is_some e.anchor
    || is_some e.context
    || is_some e.receipt
    || is_some e.llm
    || is_some e.proxy
    || is_some e.approval
    || is_some e.step
    || not (is_nil e.other)

pub record Target : Type 0 where
  pub type : String
  pub name : String
  pub location : Option String
  pub provider : Option String
  pub endpoint : Option String

pub record Actor : Type 0 where
  pub type : String
  pub id : String

-- A payload reference (SPEC 5.5).
pub record PayloadRef : Type 0 where
  pub storage : String
  pub request_hash : Option String
  pub request_size : Option ℕ
  pub request_media_type : Option String
  pub response_hash : Option String
  pub response_size : Option ℕ
  pub response_media_type : Option String

-- The `policy` object (SPEC 5.7).
pub record Policy : Type 0 where
  pub rule_id : String
  pub decision : String
  pub reason : String
  pub policy_set_hash : Option String

-- A record without its hash and signatures: the protected part of SPEC 4.4.
pub record Doc : Type 0 where
  pub spec_version : String
  pub record_id : String
  pub run_id : String
  pub seq : ℕ
  pub occurred_at : String
  pub principal_id : String
  pub agent_id : String
  pub kind : String
  pub actor : Actor
  pub target : Target
  pub data_labels : List String
  pub outcome : String
  pub hash_alg : String
  pub prev_hash : String
  pub payload : Option PayloadRef
  pub policy : Option Policy
  pub parent_record_id : Option String
  pub extensions : Option Extensions

-- A document with the `hash`, `signatures` and `principal_signatures` fields put on it.
pub record Sealed (D : Type 0) : Type 0 where
  pub protected : D
  pub hash : String
  pub signatures : Dict String
  pub principal_signatures : Option (Dict String)

abbrev pub Record : Type 0
Record = Sealed Doc

-- `record.get("extensions", {})`
abbrev pub extensions_of : Doc → Extensions
extensions_of d = elim d.extensions [ none ↦ no_extensions | some e ↦ e ]

-- One value of a scope's `allowed_targets`, `allowed_locations` or `denied_labels`.
pub record ScopeDoc : Type 0 where
  pub allowed_targets : Option (List (Dict String))
  pub allowed_locations : Option (List String)
  pub denied_labels : Option (List String)
  pub max_records : Option ℕ

-- A delegation without its hash and signatures (SPEC 6).
pub record DelegationDoc : Type 0 where
  pub spec_version : String
  pub delegation_id : String
  pub principal_id : String
  pub principal_keys : Dict String
  pub agent_id : String
  pub agent_keys : Dict String
  pub not_before : String
  pub not_after : String
  pub hash_alg : String
  pub agent_name : Option String
  pub scope : Option ScopeDoc

abbrev pub Delegation : Type 0
Delegation = Sealed DelegationDoc

-- One entry of the manifest's `runs`.
pub record RunEntry : Type 0 where
  pub run_id : String
  pub hash_alg : String
  pub record_count : ℕ
  pub first_seq : ℕ
  pub first_hash : String
  pub last_hash : String
  pub complete : Bool

-- A bundle's manifest without its hash and signatures (SPEC 13).
pub record ManifestDoc : Type 0 where
  pub spec_version : String
  pub bundle_id : String
  pub created_at : String
  pub exporter_agent_id : String
  pub software : String
  pub principal_id : String
  pub delegations : List String
  pub runs : List RunEntry
  pub files : Dict String
  pub hash_alg : String
  pub payloads : Option String

abbrev pub Manifest : Type 0
Manifest = Sealed ManifestDoc
