-- ===== src/Records/Builders.antt =====
-- src/agentmarshal/journal/records.py: the stamp of a record's schema.
pub mod Stamp
pub mod Admitted
pub mod Create
pub mod Evidence
pub mod Late
pub mod Least
pub mod Stamped
