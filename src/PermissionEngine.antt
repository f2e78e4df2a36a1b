-- ===== src/PermissionEngine.antt =====
-- The deterministic permission engine (app/decision_intelligence/permission_engine.py).
pub mod Levels
pub mod Decisions
pub mod Floors
pub mod Proposals
pub mod Gate
pub mod Vocabulary
