-- ===== src/Records.antt =====
-- src/agentmarshal/journal/records.py: the evidence records of the journal. Tables of fields and
-- schemas, the shapes of identifiers and texts, the rules, and validation by the rules.
pub mod Schema
pub mod Patterns
pub mod Forgeable
pub mod Rules
pub mod Validate
pub mod Sound
pub mod ReadBack
pub mod Files
pub mod Accepted
pub mod Builders
pub mod Surrogates
