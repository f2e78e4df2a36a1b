-- ===== src/ToolRegistry.antt =====
-- Tool metadata and the deterministic registry (app/decision_intelligence/tool_registry.py).
pub mod Names
pub mod Operations
pub mod Defaults
pub mod Consistency
pub mod NameMatching
