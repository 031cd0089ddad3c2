-- ===== src/Examples.antt =====
-- Tests, and the theorems at concrete inputs.
mod Samples
mod Checked
mod Files
mod Journal
mod Lifecycle
mod Rendering
mod Scope
mod Gate
mod Candidate
mod Complete
mod Parsed
