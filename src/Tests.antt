-- ===== src/Tests.antt =====
-- Runs at concrete inputs, and the theorems at inputs that meet their hypotheses.
pub mod Sample
pub mod Runs
pub mod Graphs
pub mod GraphExamples
pub mod VerifyExamples
pub mod Analyses
pub mod AnalysisExamples
pub mod KernelExamples
pub mod TmExamples
pub mod TopExamples
pub mod Examples
