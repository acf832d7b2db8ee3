-- ===== src/Lib.antt =====
-- Sealedrun writes every step of an AI agent's run as a signed record of a hash chain, under a
-- delegation that a principal signs, and verifies runs and bundles of runs. The paths below
-- are from the repository's root; SDK is packages/sealedrun-py/src/sealedrun and REC is
-- services/recorder/src/sealedrun_recorder.
--
-- Model and Library are the ground: the JSON documents as typed records with the keys that the
-- code reads, and the third-party code (hashlib, base64, rfc8785, jsonschema, datetime, the
-- cryptography package and the two witness verifiers over it) as one record of functions that
-- the other definitions take. Result has the exceptions as values: `err (verification check
-- message run seq)` is SDK/errors.py's VerificationError, beside the built-in ones. Messages
-- are shortened; the check, the run and the seq are the code's.
--
-- Hashing, Signing, Keys: SDK/hashing.py, signing.py and keys.py. Keys/Curve has the Ed25519
-- key rule on integers below the field's prime, Keys/Encoding the byte strings, Keys/LowS the
-- es256 rule; Signing/Raw has seal and check_hash on JSON objects with all their fields, the
-- unprotected ones too, and Raw/Sealed is about it. The power's fuel is the exponent and one
-- more, and the multiplication's the scalar: both are halved in each round, so the fuel lasts;
-- Keys/Fuel is about the second.
--
-- Scope, Delegation, Approval: SDK/scope.py, delegation.py and approval.py. Scope/Glob has the
-- pattern matcher on code points, Scope/Within the theory of `scope_within`; Approval/Budget
-- counts approvals and steps.
--
-- Writer: RunWriter of SDK/records.py, each method a function that returns the new writer and
-- its result or raises. Writer/Revert and Writer/Chained are about its records. Chain says
-- what a hash chain is, for the writer and the verifier, and Chain/Tamper compares two.
--
-- Run: verify_run of SDK/verify.py, its checks of one record in Run/Checks and the parent
-- links in Run/Parent, which Run/Descent is about. Run/Admit and Run/Accept take an accepted
-- run apart, and Run/Verdict and Run/Evident are about accepted runs. Bundle: verify_bundle of
-- SDK/bundle.py on a bundle in memory; it calls the run verifier for each entry of the
-- manifest. Bundle/Verdict and Bundle/Distinct are about accepted bundles. Bundle/Archive is
-- read_bundle over an opened zip archive; Archive/Kept and Archive/Intact are about the
-- archives that it accepts. Bundle/Write is write_bundle, and Write/Entry is about the entries
-- of the manifest that it makes.
--
-- Recorder: the server of REC. Recorder/Live is live.py over the tables of Recorder/Store
-- (db.py), which Live/Atomic and Live/Ended are about: an operation takes and returns the
-- writers in memory and the tables. It holds its run's lock from end to end, so it is one
-- step, and the database's answer to the commit is the argument `committed`. Recorder/Policy
-- is policy.py, Recorder/Limits is limits.py: the stream of a request is the list of its
-- chunks, that of a reply has the exceptions that reading it raises, too, and Reply counts the
-- calls of `aclose`; Limits/Cap and Limits/Closed are about the two. Live/Rows is about the
-- rows that an append of any outcome leaves.
--
-- Recorder/Import is importer.py: it reads an archive, verifies the bundle with its own
-- default options and fills the tables that Live works on, with the commit's answer as an
-- argument. Import/Same compares delegations, Import/Kept, Import/Again and Import/Digested
-- are about its outcome, and Recorder/Service has the calls of live.py and importer.py as
-- steps of one state. Recorder/Anchoring is a cycle of anchoring.py for one run: it asks Live
-- for the head, takes the witnesses' replies as inputs and appends the anchors by Live's
-- `append`. The lock of a run keeps out other cycles only, so what other tasks do while a
-- witness is asked is a function of the state, `Turn.before`; Anchoring/Written is about what
-- it writes. Recorder/Export is export.py, which gives the tables' records and bodies to
-- write_bundle, and Export/Complete is about what it takes. Recorder/Steps is steps.py on
-- values of Json, and Steps/Marked is about the steps that it accepts.
--
-- Recorder/Upstreams and Upstreams/Load are upstreams.py: routing, the credentials of a call,
-- and the parsing of the file's value. Upstreams/Credentials, Routing and Loaded are about
-- them. Recorder/Proxy has what the proxies read of a request: Proxy/Prompt is
-- proxy/prompt.py, which Prompt/Said is about, and Proxy/Labels is proxy/labels.py. Json has
-- the values of json.loads and yaml.safe_load, Platform the text functions of Python's library
-- that are taken as given.
--
-- Not modelled: the zip format, the anchors' ASN.1, the background loop of the anchoring, key
-- generation and key files, HTTP and MCP clients and proxies, OTLP, the web application and
-- the TypeScript package. They are input and output, or calls of other packages. JSON values
-- of a wrong shape, which the schemas refuse, are excluded by the types of Model.
--
-- Prelude has the shared names and lemmas, Tests the runs of the definitions on small inputs.
mod Prelude
pub mod Result
pub mod Model
pub mod Library
pub mod Hashing
pub mod Keys
pub mod Signing
pub mod Scope
pub mod Delegation
pub mod Approval
pub mod Run
pub mod Chain
pub mod Writer
pub mod Bundle
pub mod Json
pub mod Platform
pub mod Recorder
pub mod Tests
