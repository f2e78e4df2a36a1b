-- ===== src/Failures.antt =====
-- Failure records (app/decision_intelligence/failure_intelligence.py) and their table.
pub mod Records
pub mod History
