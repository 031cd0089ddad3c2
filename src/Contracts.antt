-- ===== src/Contracts.antt =====
-- src/agentmarshal/journal/contracts.py: the path syntax of a contract's documents and the paths that its
-- scope covers.
pub mod Scope
pub mod Slashes
pub mod Covers
pub mod Header
pub mod HeaderFacts
pub mod Sound
