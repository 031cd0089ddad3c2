-- ===== src/Ulid.antt =====
-- src/agentmarshal/journal/records.py: `_encode_base32` and `generate_ulid`, the identifiers of
-- records.
pub mod Generate
pub mod Encoding
pub mod Monotone
pub mod WellFormed
