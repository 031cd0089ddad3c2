-- ===== src/Status.antt =====
-- src/agentmarshal/journal/status.py: the task state projected from the records, and the guard that a
-- writer asks before it writes a record.
pub mod Projection
pub mod Phases
pub mod Guard
pub mod Order
pub mod Typed
pub mod Exact
