-- ===== src/Recorder.antt =====
-- services/recorder/src/sealedrun_recorder: the service that writes live runs.
pub mod Policy
pub mod Limits
pub mod Store
pub mod Live
pub mod Import
pub mod Service
pub mod Upstreams
pub mod Steps
pub mod Anchoring
pub mod Export
pub mod Proxy
