-- ===== src/Gate.antt =====
-- src/agentmarshal/journal/gate.py: the merge gate, by the parts of its two functions.
pub mod Texts
pub mod Transcript
pub mod Paths
pub mod Diff
pub mod Identity
pub mod Lines
pub mod Findings
pub mod Independence
pub mod Base
pub mod Evidence
pub mod Verdict
