-- ===== src/Display.antt =====
-- src/agentmarshal/journal/display.py: escaping record and contract text for display.
pub mod Escape
pub mod Safe
