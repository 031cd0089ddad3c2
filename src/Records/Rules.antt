-- ===== src/Records/Rules.antt =====
-- src/agentmarshal/journal/records.py: the read-time rules, one function for each `@_rule`. The
-- children group them; each comes after the rules that its casts rest on.
pub mod Envelope
pub mod Lifecycle
pub mod Session
pub mod Evidence
pub mod Acceptance
pub mod Review
pub mod Verification
pub mod Completed
pub mod Provenance
pub mod Placement
pub mod Bounds
