-- ===== src/ApprovalEngine.antt =====
-- The deterministic human approval engine (app/decision_intelligence/approval_engine.py), and
-- the action fingerprint of app/decision_intelligence/action_hash.py.
pub mod Hash
pub mod Requests
pub mod Validity
pub mod Lifecycle
pub mod SingleUse
pub mod Provenance
