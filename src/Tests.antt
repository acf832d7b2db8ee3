-- ===== src/Tests.antt =====
-- Concrete inputs, and the theorems at them.
pub mod Toy
pub mod Verified
pub mod RunExamples
pub mod WriterExamples
pub mod Examples
pub mod BundleExamples
pub mod DescentExamples
pub mod ApprovalExamples
pub mod ImportExamples
pub mod UpstreamExamples
pub mod StepExamples
pub mod AnchoringExamples
pub mod ExportExamples
pub mod ProxyExamples
